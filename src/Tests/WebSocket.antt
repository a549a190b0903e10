-- ===== src/Tests/WebSocket.antt =====
-- Runs of the WebSocket stream, and its theorem there.
use grpcbridge.Base.{
  ◌≡◌, refl, if◌then◌else◌, List, [], ◌∷◌, Bool, true, false, not, ◌&&◌, Bytes, codes,
}
use grpcbridge.Web.WebSocket.{WsStream, read_event, on_messages, deliver, close_events, read_data}
use grpcbridge.Web.WebSocket.Messages.{all_events, first_event, on_messages_lem}

abbrev unary_text : WsStream
unary_text = record {
  client_streaming = false;
  has_body = true;
  expects_binary = false;
  already_read = false;
}

abbrev two_texts : List (Bool × Bytes)
two_texts = (false, codes "a") ∷ (false, codes "b") ∷ []

on_messages_lem_example : on_messages unary_text two_texts ≡ (
    if unary_text.client_streaming
    then all_events unary_text.expects_binary two_texts
    else if unary_text.has_body && not unary_text.already_read
    then first_event unary_text.expects_binary two_texts
    else [])
on_messages_lem_example = on_messages_lem unary_text two_texts

first_alone :
    first_event unary_text.expects_binary two_texts
    ≡ deliver (read_data (codes "a")) ∷ close_events ∷ []
unfolding read_event
first_alone = refl
