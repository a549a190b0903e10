-- ===== src/Web/WebSocket/Messages.antt =====
-- webbridge/websocket.go: what a client's messages become.
use grpcbridge.Base.{
  ◌≡◌, refl, ap, ◌∙◌, if◌then◌else◌, List, [], ◌∷◌, ◌++◌, Bool, true, false, not, ◌&&◌, Bytes,
  arith, Bool-cases, inl, inr,
}
use grpcbridge.Web.WebSocket.{
  ReadEffect, deliver, close_events, WsStream, read_event, on_message, on_messages,
}

-- Each message as an event.
abbrev pub all_events : Bool → List (Bool × Bytes) → List ReadEffect
all_events expects_binary [] = []
all_events expects_binary ((binary, bytes) ∷ messages) =
    deliver (read_event expects_binary binary bytes) ∷ all_events expects_binary messages

-- The first message as an event, and the end.
abbrev pub first_event : Bool → List (Bool × Bytes) → List ReadEffect
first_event expects_binary [] = []
first_event expects_binary ((binary, bytes) ∷ messages) =
    deliver (read_event expects_binary binary bytes) ∷ close_events ∷ []

on_messages_streaming :
    (s : WsStream) (messages : List (Bool × Bytes))
    → s.client_streaming ≡ true
    → on_messages s messages ≡ all_events s.expects_binary messages
unfolding on_messages on_message
on_messages_streaming s [] h = refl
on_messages_streaming s ((binary, bytes) ∷ messages) h =
    ap (λ (r : WsStream × List ReadEffect). r.1 ++ on_messages r.0 messages) step
    ∙ ap (◌∷◌ (deliver (read_event s.expects_binary binary bytes)))
        (on_messages_streaming s messages h)
  where
    step :
        on_message s (binary, bytes) ≡ (s, deliver (read_event s.expects_binary binary bytes) ∷ [])
    step = rw h refl

on_messages_ignored :
    (s : WsStream) (messages : List (Bool × Bytes))
    → s.client_streaming ≡ false
    → (s.has_body && not s.already_read) ≡ false
    → on_messages s messages ≡ []
unfolding on_messages on_message
on_messages_ignored s [] h k = refl
on_messages_ignored s ((binary, bytes) ∷ messages) h k =
    ap (λ (r : WsStream × List ReadEffect). r.1 ++ on_messages r.0 messages) step
    ∙ on_messages_ignored s messages h k
  where
    step : on_message s (binary, bytes) ≡ (s, [])
    step = rw h (rw k refl)

on_messages_once :
    (s : WsStream) (messages : List (Bool × Bytes))
    → s.client_streaming ≡ false
    → (s.has_body && not s.already_read) ≡ true
    → on_messages s messages ≡ first_event s.expects_binary messages
unfolding on_messages on_message
on_messages_once s [] h k = refl
on_messages_once s ((binary, bytes) ∷ messages) h k =
    ap (λ (r : WsStream × List ReadEffect). r.1 ++ on_messages r.0 messages) step
    ∙ ap
        (λ (es : List ReadEffect).
          deliver (read_event s.expects_binary binary bytes) ∷ close_events ∷ es)
        (on_messages_ignored (record s { already_read = true }) messages h (ground arith))
  where
    step : on_message s (binary, bytes) ≡ (
      record s { already_read = true },
      deliver (read_event s.expects_binary binary bytes) ∷ close_events ∷ [],
    )
    step = rw h (rw k refl)

-- The messages of a WebSocket client become one event each for a method that streams requests; for
-- any other the first one becomes an event with the end of the events behind it, if the request has
-- a body and was not read, and all others are ignored.
pub on_messages_lem :
    (s : WsStream) (messages : List (Bool × Bytes))
    → on_messages s messages ≡ (
        if s.client_streaming
        then all_events s.expects_binary messages
        else if s.has_body && not s.already_read
        then first_event s.expects_binary messages
        else [])
on_messages_lem s messages = elim (Bool-cases s.client_streaming) [
  | inl h ↦ on_messages_streaming s messages h ∙ ground arith
  | inr h ↦ elim (Bool-cases (s.has_body && not s.already_read)) [
    | inl k ↦ on_messages_once s messages h k ∙ ground arith
    | inr k ↦ on_messages_ignored s messages h k ∙ ground arith
  ]
]
