-- ===== src/Web/Socket/Events.antt =====
-- webbridge/grpcweb.go: what a client's messages become.
use grpcbridge.Base.{
  ℕ, suc, ◌==◌, ltb, ◌≡◌, refl, ap, ◌∙◌, if◌then◌else◌, List, [], ◌∷◌, ◌++◌, Option, none, some,
  Bool, true, false, Bytes, length, drop, arith, Bool-cases, inl, inr, append_assoc,
}
use grpcbridge.Web.Framing.{Md, frame}
use grpcbridge.Web.Socket.{
  event, Effect, deliver, close_events, deliver_metadata, write_message, write_close, SocketStream,
  closes_stream, flow_error, deliveries, closing, on_frame, send_trailer, read_md, read_header,
  on_message, on_messages,
}

-- Nothing follows the end of the events, and no event carries an error.
abbrev pub EndsOnce : List Effect → Type 0
EndsOnce [] = Unit
EndsOnce (deliver (event bytes e) ∷ es) = (e ≡ none) × EndsOnce es
EndsOnce (close_events ∷ es) = es ≡ []
EndsOnce (deliver_metadata md ∷ es) = EndsOnce es
EndsOnce (write_message bytes ∷ es) = EndsOnce es
EndsOnce (write_close code ∷ es) = EndsOnce es

-- Behind such effects anything may follow, but nothing where the stream has been closed.
abbrev Continues : SocketStream × List Effect → Type 0
Continues r =
    (rest : List Effect) → (r.0.closed ≡ true → rest ≡ []) → EndsOnce rest → EndsOnce (r.1 ++ rest)

closing-Continues :
    (b : Bool) (rest : List Effect)
    → (b ≡ true → rest ≡ [])
    → EndsOnce rest
    → EndsOnce (closing b ++ rest)
unfolding closing
closing-Continues true rest h e = h refl
closing-Continues false rest h e = e

delivered-EndsOnce :
    (b : Bool) (ev : Bytes) (es : List Effect)
    → EndsOnce es
    → EndsOnce ((if b then deliver (event ev none) ∷ [] else []) ++ es)
delivered-EndsOnce true ev es h = (refl, h)
delivered-EndsOnce false ev es h = h

on_frame-Continues : (s : SocketStream) (bytes : Bytes) → Continues (on_frame s bytes)
unfolding on_frame deliveries
on_frame-Continues s [] rest h e = e
on_frame-Continues s (flow ∷ bytes) rest h e =
    rw (append_assoc (deliveries (flow ∷ bytes)) (closing (flow == 1)) rest) (
      delivered-EndsOnce (ltb 6 (suc (length bytes))) (drop 6 (flow ∷ bytes))
        (closing (flow == 1) ++ rest) (closing-Continues (flow == 1) rest h e))

module _ (path_escape : Bytes → Bytes) (read_mime_header : Bytes → Option Md) where
  read_header-Continues :
      (s : SocketStream) (md : Option Md)
      → Continues (read_header path_escape read_mime_header s md)
  unfolding read_header send_trailer
  read_header-Continues s none rest h e = e
  read_header-Continues s (some md) rest h e = e

  on_message-Continues :
      (s : SocketStream) (bytes : Bytes)
      → Continues (on_message path_escape read_mime_header s bytes)
  unfolding on_message read_md
  on_message-Continues s bytes = go s.closed s.received_md
    where
      go :
          (c r : Bool)
          → Continues (
              if c
              then (s, [])
              else if r
              then on_frame s bytes
              else read_header path_escape read_mime_header s
                  (read_mime_header (bytes ++ 13 ∷ 10 ∷ [])))
      go true r rest h e = e
      go false true rest h e = on_frame-Continues s bytes rest h e
      go false false rest h e =
          read_header-Continues s (read_mime_header (bytes ++ 13 ∷ 10 ∷ [])) rest h e

  on_message_closed :
      (s : SocketStream) (bytes : Bytes)
      → s.closed ≡ true
      → on_message path_escape read_mime_header s bytes ≡ (s, [])
  unfolding on_message
  on_message_closed s bytes h =
      ap
        (λ (c : Bool).
          if c
          then (s, [])
          else if s.received_md
          then on_frame s bytes
          else read_md path_escape read_mime_header s bytes)
        h

  on_messages_closed :
      (s : SocketStream) (more : List Bytes)
      → s.closed ≡ true
      → on_messages path_escape read_mime_header s more ≡ []
  unfolding on_messages
  on_messages_closed s [] h = refl
  on_messages_closed s (bytes ∷ more) h =
      ap
        (λ (r : SocketStream × List Effect).
          r.1 ++ on_messages path_escape read_mime_header r.0 more)
        (on_message_closed s bytes h)
      ∙ on_messages_closed s more h

  -- Whatever messages a WebSocket client sends, in whatever state, the events end at most once,
  -- nothing follows their end, and none of them carries an error.
  pub on_messages-EndsOnce :
      (s : SocketStream) (messages : List Bytes)
      → EndsOnce (on_messages path_escape read_mime_header s messages)
  unfolding on_messages
  on_messages-EndsOnce s [] = tt
  on_messages-EndsOnce s (bytes ∷ more) =
      let next = (on_message path_escape read_mime_header s bytes).0 in
      on_message-Continues s bytes (on_messages path_escape read_mime_header next more)
        (on_messages_closed next more) (on_messages-EndsOnce next more)

  -- Behind the metadata, a flow byte and a frame become an event with the payload if there is one, and
  -- nothing if the payload is empty; the flow byte 1 ends the events.
  pub on_message-frame :
      (s : SocketStream) (flow : ℕ) (payload : Bytes)
      → s.closed ≡ false
      → s.received_md ≡ true
      → ((on_message path_escape read_mime_header s (flow ∷ frame 0 payload)).0.closed
          ≡ (flow == 1))
        × ((on_message path_escape read_mime_header s (flow ∷ frame 0 payload)).1
            ≡ (if ltb 0 (length payload) then deliver (event payload none) ∷ [] else [])
              ++ (if flow == 1 then close_events ∷ [] else []))
  unfolding on_message on_frame deliveries closing flow_error closes_stream
  on_message-frame s flow payload h k = elim (Bool-cases (flow == 1)) [
    | inl y ↦ ground arith
    | inr n ↦ ground arith
  ]
