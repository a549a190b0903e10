-- ===== src/Transcoding/Bind/Chosen.antt =====
-- transcoding/http.go: what `Bind` chooses.
use grpcbridge.Base.{
  ◌≡◌, refl, sym, ap, ◌∙◌, List, [], ◌∷◌, Option, none, some, true, false, Bytes, codes, contains,
  inl, inr, ◌⊎◌, Bool-cases, Option-cases,
}
use grpcbridge.Base.Maps.{Map}
use grpcbridge.Routing.{ok, err, status, invalid_argument}
use grpcbridge.Transcoding.Bind.{
  Marshaler, StandardTranscoder, BindRequest, Transcoders, unsupported_media_type, known_type,
  first_content_type, pick_request_marshaler, pick_response_marshaler, response_form, bind_form,
  bind_marshaler, bind,
}

module _ (parse_media_type : Bytes → Option Bytes) where
  -- The content type parses as a media type that the marshaler is for.
  abbrev pub IsKnown : Map Marshaler → Bytes → Marshaler → Type 0
  IsKnown known ct m = (mt : Bytes) × (parse_media_type ct ≡ some mt) × (known mt ≡ some m)

  -- The content type does not parse, or there is no marshaler for its media type.
  abbrev pub IsUnknown : Map Marshaler → Bytes → Type 0
  IsUnknown known ct =
      (parse_media_type ct ≡ none)
      ⊎ ((mt : Bytes) × (parse_media_type ct ≡ some mt) × (known mt ≡ none))

  -- The marshaler of the first of the content types that there is one for.
  abbrev pub IsFirstKnown : Map Marshaler → List Bytes → Marshaler → Type 0
  IsFirstKnown known [] m = ⊥
  IsFirstKnown known (ct ∷ cts) m =
      IsKnown known ct m ⊎ (IsUnknown known ct × IsFirstKnown known cts m)

  -- A marshaler for the request.
  abbrev pub IsRequestMarshaler : StandardTranscoder → List Bytes → Marshaler → Type 0
  IsRequestMarshaler t cts m =
      ((cts ≡ []) × (m ≡ t.default_marshaler)) ⊎ IsFirstKnown t.marshalers cts m

  abbrev pub IsFirstAccepted : Map Marshaler → List Bytes → Marshaler → Type 0
  IsFirstAccepted known [] m = ⊥
  IsFirstAccepted known (mt ∷ mts) m =
      (known mt ≡ some m) ⊎ ((known mt ≡ none) × IsFirstAccepted known mts m)

  abbrev pub AreUnknown : Map Marshaler → List Bytes → Type 0
  AreUnknown known [] = Unit
  AreUnknown known (mt ∷ mts) = (known mt ≡ none) × AreUnknown known mts

  abbrev pub AreAllUnknown : Map Marshaler → List Bytes → Type 0
  AreAllUnknown known [] = Unit
  AreAllUnknown known (ct ∷ cts) = IsUnknown known ct × AreAllUnknown known cts

  -- There are content types, and a marshaler for none of them.
  abbrev pub NoneKnown : Map Marshaler → List Bytes → Type 0
  NoneKnown known [] = ⊥
  NoneKnown known (ct ∷ cts) = IsUnknown known ct × AreAllUnknown known cts

  known_type_cases :
      (known : Map Marshaler) (ct : Bytes)
      → ((known_type known (parse_media_type ct) ≡ none) × IsUnknown known ct)
        ⊎ ((m : Marshaler) × (known_type known (parse_media_type ct) ≡ some m) × IsKnown known ct m)
  known_type_cases known ct = elim (Option-cases (parse_media_type ct)) [
    | inl e ↦ inl (ap (known_type known) e, inl e)
    | inr (mt, e) ↦ elim (Option-cases (known mt)) [
      | inl f ↦ inl (ap (known_type known) e ∙ f, inr (mt, e, f))
      | inr (m, f) ↦ inr (m, ap (known_type known) e ∙ f, (mt, e, f))
    ]
  ]

  first_content_type_lem :
      (known : Map Marshaler) (cts : List Bytes)
      → ((first_content_type parse_media_type known cts ≡ none) × AreAllUnknown known cts)
        ⊎ ((m : Marshaler) × (first_content_type parse_media_type known cts ≡ some m)
            × IsFirstKnown known cts m)
  unfolding first_content_type
  first_content_type_lem known [] = inl (refl, tt)
  first_content_type_lem known (ct ∷ cts) = elim (known_type_cases known ct) [
    | inr (m, e, is) ↦ inr (m, rw (e, first_content_type) refl, inl is)
    | inl (e, un) ↦ elim (first_content_type_lem known cts) [
      | inl (n, all) ↦ inl (rw (e, first_content_type) n, (un, all))
      | inr (m, f, is) ↦ inr (m, rw (e, first_content_type) f, inr (un, is))
    ]
  ]

  pick_request_marshaler_lem :
      (t : StandardTranscoder) (cts : List Bytes)
      → ((pick_request_marshaler parse_media_type t cts ≡ none) × NoneKnown t.marshalers cts)
        ⊎ ((m : Marshaler) × (pick_request_marshaler parse_media_type t cts ≡ some m)
            × IsRequestMarshaler t cts m)
  unfolding pick_request_marshaler
  pick_request_marshaler_lem t [] = inr (t.default_marshaler, refl, inl (refl, refl))
  pick_request_marshaler_lem t (ct ∷ cts) = elim (first_content_type_lem t.marshalers (ct ∷ cts)) [
    | inl h ↦ inl h
    | inr (m, e, is) ↦ inr (m, e, inr is)
  ]

  pick_response_marshaler_lem :
      (t : StandardTranscoder) (mts : List Bytes)
      → ((pick_response_marshaler parse_media_type t mts ≡ none) × AreUnknown t.marshalers mts)
        ⊎ ((m : Marshaler) × (pick_response_marshaler parse_media_type t mts ≡ some m)
            × IsFirstAccepted t.marshalers mts m)
  unfolding pick_response_marshaler
  pick_response_marshaler_lem t [] = inl (refl, tt)
  pick_response_marshaler_lem t (mt ∷ mts) = elim (Option-cases (t.marshalers mt)) [
    | inr (m, e) ↦ inr (m, rw (e, pick_response_marshaler) refl, inl e)
    | inl e ↦ elim (pick_response_marshaler_lem t mts) [
      | inl (n, all) ↦ inl (rw (e, pick_response_marshaler) n, (e, all))
      | inr (m, f, is) ↦ inr (m, rw (e, pick_response_marshaler) f, inr (e, is))
    ]
  ]

  -- The response has the marshaler of the first accepted type that there is one for, or else that of the
  -- request; as events only in the second case, for a method that streams responses alone.
  abbrev pub IsChosen : StandardTranscoder → BindRequest → Transcoders → Type 0
  IsChosen t req b =
      IsRequestMarshaler t req.content_types b.request_marshaler
      × ((IsFirstAccepted t.marshalers req.accepts b.response_marshaler × (b.is_sse ≡ false))
          ⊎ (AreUnknown t.marshalers req.accepts
              × (b.response_marshaler ≡ b.request_marshaler)
              × (b.is_sse ≡ contains (codes "text/event-stream") req.accepts)
              × ((b.is_sse ≡ false)
                  ⊎ ((req.method.client_streaming ≡ false)
                      × (req.method.server_streaming ≡ true)))))

  -- There is a marshaler for the request, the client accepts events and no type that there is a
  -- marshaler for, and the method streams requests or does not stream responses.
  abbrev pub IsWrongStream : StandardTranscoder → BindRequest → Type 0
  IsWrongStream t req =
      ((m : Marshaler) × IsRequestMarshaler t req.content_types m)
      × (AreUnknown t.marshalers req.accepts
          × ((contains (codes "text/event-stream") req.accepts ≡ true)
              × ((req.method.client_streaming ≡ true) ⊎ (req.method.server_streaming ≡ false))))

  bind_form-IsChosen :
      (t : StandardTranscoder) (req : BindRequest) (m : Marshaler)
      → IsRequestMarshaler t req.content_types m
      → ((bind_form parse_media_type req.method m (
              response_form parse_media_type
                (pick_response_marshaler parse_media_type t req.accepts)
                m
                req.accepts)
            ≡ err (status invalid_argument))
          × IsWrongStream t req)
        ⊎ ((b : Transcoders) × (bind_form parse_media_type req.method m (
                response_form parse_media_type
                  (pick_response_marshaler parse_media_type t req.accepts)
                  m
                  req.accepts)
              ≡ ok b)
            × IsChosen t req b)
  unfolding bind_form response_form
  bind_form-IsChosen t req m is = elim (pick_response_marshaler_lem t req.accepts) [
    | inr (a, e, first) ↦ inr (
      record { request_marshaler = m; response_marshaler = a; is_sse = false },
      rw e refl,
      (is, inl (first, refl)),
    )
    | inl (e, all) ↦ elim (Bool-cases (contains (codes "text/event-stream") req.accepts)) [
      | inr n ↦ inr (
        record { request_marshaler = m; response_marshaler = m; is_sse = false },
        rw e (rw n refl),
        (is, inr (all, refl, sym n, inl refl)),
      )
      | inl y ↦ elim (Bool-cases req.method.client_streaming) [
        | inl c ↦ inl (rw e (rw y (rw c refl)), ((m, is), (all, (y, inl c))))
        | inr c ↦ elim (Bool-cases req.method.server_streaming) [
          | inr s ↦ inl (rw e (rw y (rw c (rw s refl))), ((m, is), (all, (y, inr s))))
          | inl s ↦ inr (
            record { request_marshaler = m; response_marshaler = m; is_sse = true },
            rw e (rw y (rw c (rw s refl))),
            (is, inr (all, refl, sym y, inr (c, s))),
          )
        ]
      ]
    ]
  ]

  -- Bind refuses a request with the unsupported media type only where there are content types and a
  -- marshaler for none of them. It refuses it as an invalid argument only where there is a marshaler
  -- for the request, events are accepted and no type that there is a marshaler for, and the method
  -- streams requests or does not stream responses. Otherwise it chooses the marshaler of the first
  -- known content type, or the default one without content types; for the response that of the first
  -- known accepted type, or else the request's; and events only in the second case, if they are
  -- accepted, for a method that streams responses alone.
  pub bind-IsChosen :
      (t : StandardTranscoder) (req : BindRequest)
      → ((bind parse_media_type t req ≡ err unsupported_media_type)
          × NoneKnown t.marshalers req.content_types)
        ⊎ (((bind parse_media_type t req ≡ err (status invalid_argument)) × IsWrongStream t req)
            ⊎ ((b : Transcoders) × (bind parse_media_type t req ≡ ok b) × IsChosen t req b))
  unfolding bind bind_marshaler
  bind-IsChosen t req = elim (pick_request_marshaler_lem t req.content_types) [
    | inl (e, all) ↦ inl (rw (e, bind) refl, all)
    | inr (m, e, is) ↦ elim (bind_form-IsChosen t req m is) [
      | inl (f, wrong) ↦ inr (inl (ap (bind_marshaler parse_media_type t req) e ∙ f, wrong))
      | inr (b, f, chosen) ↦ inr (inr (b, ap (bind_marshaler parse_media_type t req) e ∙ f, chosen))
    ]
  ]
