-- ===== src/Web/WebSocket.antt =====
-- webbridge/websocket.go: the stream of a transcoded WebSocket. What the handler does to the channel of
-- events is a list of effects.
pub mod Messages
use grpcbridge.Base.{
  ℕ, not, ◌&&◌, ◌||◌, ◌==◌, if◌then◌else◌, List, [], ◌∷◌, ◌++◌, Option, none, some, Bool, true,
  false, Bytes, codes,
}
use grpcbridge.Rpc.{
  Cause, context_canceled, context_deadline_exceeded, other_cause, invalid_argument, internal,
  canceled, deadline_exceeded, unknown,
}
use grpcbridge.Web.Response.{
  BridgeError, status_error, with_http_status, other_error, convert, request_transcoding_error,
  response_transcoding_error,
}

-- The errors that OnMessage sends are known by their identity.
pub data StreamError : Type 0 where
  expected_text expected_binary : StreamError
  bridge_error : BridgeError → StreamError

pub data ReadEvent : Type 0 where
  read_data : Bytes → ReadEvent
  read_failure : StreamError → ReadEvent

pub data ReadEffect : Type 0 where
  deliver : ReadEvent → ReadEffect
  close_events : ReadEffect

-- What the stream reads of its request, and the flag of unary requests.
pub record WsStream : Type 0 where
  pub client_streaming : Bool
  pub has_body : Bool
  pub expects_binary : Bool
  pub already_read : Bool

unfoldable pub read_event : Bool → Bool → Bytes → ReadEvent
read_event true true bytes = read_data bytes
read_event false false bytes = read_data bytes
read_event true false bytes = read_failure expected_binary
read_event false true bytes = read_failure expected_text

-- `OnMessage` for a message, binary or text. A request that is not streamed is read once.
unfoldable pub on_message : WsStream → Bool × Bytes → WsStream × List ReadEffect
on_message s (message_binary, bytes) =
    if s.client_streaming
    then (s, deliver (read_event s.expects_binary message_binary bytes) ∷ [])
    else if s.has_body && not s.already_read
    then (
      record s { already_read = true },
      deliver (read_event s.expects_binary message_binary bytes) ∷ close_events ∷ [],
    )
    else (s, [])

unfoldable pub on_messages : WsStream → List (Bool × Bytes) → List ReadEffect
on_messages s [] = []
on_messages s (m ∷ messages) = (on_message s m).1 ++ on_messages (on_message s m).0 messages

-- What `Recv` waits for.
pub data Ready : Type 0 where
  events_closed : Ready
  next_event : ReadEvent → Ready
  context_done : Cause → Ready

pub data WsReceived : Type 0 where
  ws_eof : WsReceived
  ws_received : WsReceived
  ws_failed : StreamError → WsReceived

-- `ContextError`, whose message is the context's.
abbrev pub context_status : Cause → BridgeError
context_status context_canceled = status_error canceled (codes "context canceled")
context_status context_deadline_exceeded =
    status_error deadline_exceeded (codes "context deadline exceeded")
context_status other_cause = status_error unknown []

-- The request's transcoder, on the message that `Recv` fills.
module _ (transcode : Bytes → Option BridgeError) where
  transcoding_result : Option BridgeError → WsReceived
  transcoding_result none = ws_received
  transcoding_result (some e) = ws_failed (bridge_error e)

  received_event : ReadEvent → WsReceived
  unfolding transcoding_result
  received_event (read_failure e) = ws_failed e
  received_event (read_data bytes) =
      transcoding_result (request_transcoding_error (transcode bytes))

  received_ready : Ready → WsReceived
  unfolding received_event transcoding_result
  received_ready events_closed = ws_eof
  received_ready (context_done c) = ws_failed (bridge_error (context_status c))
  received_ready (next_event e) = received_event e

  -- Without a body and a stream of requests nothing is waited for.
  unfoldable pub recv : WsStream → Ready → WsReceived
  unfolding received_ready received_event transcoding_result
  recv s ready =
      if s.client_streaming || s.has_body
      then received_ready ready
      else received_event (read_data [])

-- `send` for what the transcoder gives, with the frame's opcode, binary or text, and the outcome of the write.
unfoldable written_frame : Bool → Bytes → Bool → Option (Bool × Bytes) × Option BridgeError
written_frame binary bytes true = (some (binary, bytes), none)
written_frame binary bytes false =
    (some (binary, bytes), some (status_error internal (codes "failed to write response message")))

unfoldable pub send_frame :
    Bytes × Option BridgeError → Bool → Bool → Option (Bool × Bytes) × Option BridgeError
unfolding written_frame
send_frame (bytes, some e) binary written = (none, response_transcoding_error (some e))
send_frame (bytes, none) binary written = written_frame binary bytes written

module _ (code_name : ℕ → Bytes) where
  abbrev status_reason : ℕ → Bytes → Bytes
  status_reason c m = codes "code " ++ (code_name c ++ (codes ": " ++ m))

  abbrev pub reason_of : BridgeError → Bytes
  reason_of (status_error c m) = status_reason c m
  reason_of (with_http_status h c m) = status_reason c m
  reason_of (other_error m) = m

  -- `websocketError`: the code and the reason of the close frame.
  unfoldable pub websocket_error : Option StreamError → ℕ × Bytes
  websocket_error none = (1000, [])
  websocket_error (some expected_text) =
      (1003, status_reason invalid_argument (codes "received binary message instead of text"))
  websocket_error (some expected_binary) =
      (1003, status_reason invalid_argument (codes "received text message instead of binary"))
  websocket_error (some (bridge_error e)) = (1001, reason_of e)
