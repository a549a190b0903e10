-- ===== src/Web/Response/Errors.antt =====
-- webbridge/webbridge.go: what a client gets for an error.
use grpcbridge.Base.{
  ℕ, ◌≡◌, refl, [], ◌∷◌, ◌++◌, Option, none, some, Bool, true, false, Bytes, arith, Bool-cases, inl,
  inr, ◌⊎◌,
}
use grpcbridge.Web.Response.{
  BridgeError, Response, write_header, write, convert, StatusTranscoder, http_status_of,
  error_status, write_text_error, transcoded, transcode_error, write_by, write_error, http_canceled,
}

-- The body of an error response.
abbrev pub error_body : Option StatusTranscoder → ℕ × Bytes → Bytes
error_body none st = st.1 ++ 10 ∷ []
error_body (some t) st = (t.transcode_status st.0 st.1).0

module _ (http_status_from_code : ℕ → ℕ) where
  written_by :
      (t : Option StatusTranscoder) (e : BridgeError) (w : Response)
      → w.status_code ≡ none
      → w.body ≡ []
      → ((write_by http_status_from_code t e w).status_code
          ≡ some (http_status_of http_status_from_code e))
        × ((write_by http_status_from_code t e w).body ≡ error_body t (convert e))
        × ((write_by http_status_from_code t e w).written_status ≡ true)
  unfolding write_by write_text_error transcode_error transcoded error_status write write_header
  written_by none e w h b = (ground arith, rw b refl, refl)
  written_by (some t) e w h b =
      elim (Bool-cases (t.transcode_status (convert e).0 (convert e).1).1) [
        | inl n ↦ ground arith
        | inr s ↦ ground arith
      ]

  -- For a response that has no status and no body, the response has begun after an error is written:
  -- if it counted as begun before, it is unchanged; else, for a request that the client gave up, the
  -- status is 499 with no body; and else the status is that of the error, and the body is the
  -- error's message with a line break without a transcoder, and with one the data that this gives
  -- for the status, even where it fails.
  pub write_error_lem :
      (canceled : Bool) (t : Option StatusTranscoder) (e : BridgeError) (w : Response)
      → w.status_code ≡ none
      → w.body ≡ []
      → let r = write_error http_status_from_code canceled t e w in
        (r.written_status ≡ true)
        × (((w.written_status ≡ true) × (r ≡ w))
            ⊎ ((w.written_status ≡ false)
                × (canceled ≡ true)
                × (r.status_code ≡ some http_canceled)
                × (r.body ≡ []))
            ⊎ ((w.written_status ≡ false)
                × (canceled ≡ false)
                × (r.status_code ≡ some (http_status_of http_status_from_code e))
                × (r.body ≡ error_body t (convert e))))
  unfolding write_error write_header
  write_error_lem canceled t e w h b = elim (Bool-cases w.written_status) [
    | inl y ↦ (ground arith, inl (y, ground arith))
    | inr n ↦
        let by = written_by t e w h b in
        elim (Bool-cases canceled) [
          | inl c ↦ (ground arith, inr (inl (n, c, ground arith, ground arith)))
          | inr c ↦ (ground arith, inr (inr (n, c, ground arith, ground arith)))
        ]
  ]

  pub write_error_begins :
      (canceled : Bool) (t : Option StatusTranscoder) (e : BridgeError) (w : Response)
      → (write_error http_status_from_code canceled t e w).written_status ≡ true
  unfolding write_error write_by write_header write_text_error transcode_error transcoded write
  write_error_begins canceled none e w = ground arith
  write_error_begins canceled (some t) e w =
      elim (Bool-cases
        (t.transcode_status (error_status http_status_from_code e).0.0
          (error_status http_status_from_code e).0.1).1) [
            | inl n ↦ ground arith
            | inr s ↦ ground arith
          ]
