-- ===== src/Web/Socket.antt =====
-- webbridge/grpcweb.go: gRPC-Web over a WebSocket. What a handler does to the socket and to the channels
-- is a list of effects; whether a write succeeds is an argument.
pub mod Events
pub mod Fuel
use Prim.Native.Nat.{◌/◌, ◌%◌}
use grpcbridge.Base.{
  ℕ, zero, suc, ◌+◌, ◌==◌, ltb, if◌then◌else◌, List, [], ◌∷◌, ◌++◌, Option, none, some, Bool, true,
  false, Bytes, codes, length, drop, equals,
}
use grpcbridge.Rpc.{Err, eof, status, plain, invalid_argument, unavailable, Cause, context_error}
use grpcbridge.Web.Framing.{
  Md, Codec, Recv, received, recv_error, decoded, lpm_message, lpm_trailer,
}

digit : ℕ → ℕ
digit n = n + b'0'

-- `strconv.Itoa` of a number that is not negative
unfoldable pub itoa_from : ℕ → ℕ → Bytes → Bytes
unfolding digit
itoa_from zero n acc = acc
itoa_from (suc f) n acc =
    let rest = itoa_from f (n / 10) (digit (n % 10) ∷ acc) in
    if ltb n 10 then digit n ∷ acc else rest

unfoldable pub itoa : ℕ → Bytes
itoa n = itoa_from (suc n) n []

-- `md.Set` of a key in lower case
unfoldable pub set_entry : Bytes → List Bytes → Md → Md
set_entry k vs [] = (k, vs) ∷ []
set_entry k vs ((j, ws) ∷ md) = if equals j k then (k, vs) ∷ md else (j, ws) ∷ set_entry k vs md

pub data Event : Type 0 where
  event : Bytes → Option Err → Event

pub data Effect : Type 0 where
  deliver : Event → Effect
  close_events : Effect
  deliver_metadata : Md → Effect
  write_message : Bytes → Effect
  write_close : ℕ → Effect

pub record SocketStream : Type 0 where
  pub received_md : Bool
  pub sent_md : Bool
  pub header : Md
  pub trailer : Md
  pub closed : Bool

abbrev pub new_stream : SocketStream
new_stream = record {
  received_md = false;
  sent_md = false;
  header = [];
  trailer = [];
  closed = false;
}

-- The flow control byte, where there is one.
unfoldable closes_stream : Bytes → Bool
closes_stream [] = false
closes_stream (flow ∷ _) = flow == 1

-- The error for an empty message.
unfoldable flow_error : Bytes → Option Err
flow_error [] = some (status invalid_argument)
flow_error (_ ∷ _) = none

-- Only a message with more than the flow byte and a frame's header is delivered. The error for any
-- other is stored in the local event, which is then dropped.
unfoldable deliveries : Bytes → List Effect
deliveries bytes =
    if ltb 6 (length bytes) then deliver (event (drop 6 bytes) (flow_error bytes)) ∷ [] else []

unfoldable closing : Bool → List Effect
closing true = close_events ∷ []
closing false = []

unfoldable pub on_frame : SocketStream → Bytes → SocketStream × List Effect
unfolding closes_stream flow_error deliveries closing
on_frame s bytes =
    (record s { closed = closes_stream bytes }, deliveries bytes ++ closing (closes_stream bytes))

module _ (path_escape : Bytes → Bytes) where
  unfoldable pub trailer_with_status : Md → ℕ → Bytes → Md
  trailer_with_status md code message =
      set_entry (codes "grpc-message") (path_escape message ∷ [])
        (set_entry (codes "grpc-status") (itoa code ∷ []) md)

  unfoldable pub send_trailer : SocketStream → ℕ → Bytes → List Effect
  send_trailer s code message =
      write_message (lpm_trailer (trailer_with_status s.trailer code message))
      ∷ write_close 1000
      ∷ []

  -- net/textproto
  module _ (read_mime_header : Bytes → Option Md) where
    unfoldable read_header : SocketStream → Option Md → SocketStream × List Effect
    read_header s none =
        (s, send_trailer s invalid_argument (codes "expected metadata as valid HTTP/1.1 header"))
    read_header s (some md) = (record s { received_md = true }, deliver_metadata md ∷ [])

    unfoldable pub read_md : SocketStream → Bytes → SocketStream × List Effect
    unfolding read_header
    read_md s bytes = read_header s (read_mime_header (bytes ++ 13 ∷ 10 ∷ []))

    unfoldable pub on_message : SocketStream → Bytes → SocketStream × List Effect
    on_message s bytes =
        if s.closed then (s, []) else if s.received_md then on_frame s bytes else read_md s bytes

    -- The messages of a socket, one after another.
    unfoldable pub on_messages : SocketStream → List Bytes → List Effect
    on_messages s [] = []
    on_messages s (bytes ∷ more) = (on_message s bytes).1 ++ on_messages (on_message s bytes).0 more

-- What `Recv` waits for.
pub data Ready : Type 0 where
  events_closed : Ready
  next_event : Event → Ready
  context_done : Cause → Ready

module _ (codec : Codec) where
  open codec use {Msg, unmarshal}

  unfoldable pub socket_recv : Ready → Recv codec
  unfolding decoded
  socket_recv events_closed = recv_error eof
  socket_recv (context_done c) = recv_error (context_error c)
  socket_recv (next_event (event bytes (some e))) = recv_error e
  socket_recv (next_event (event bytes none)) = decoded codec (unmarshal bytes)

  -- `send`, with the outcomes of its two writes; the header goes out before the first message.
  send_payload :
      SocketStream → List Effect → Option Bytes → Bool → SocketStream × List Effect × Option Err
  send_payload s sent none written = (s, sent, some plain)
  send_payload s sent (some bytes) true = (s, sent ++ write_message bytes ∷ [], none)
  send_payload s sent (some bytes) false =
      (s, sent ++ write_message bytes ∷ [], some (status unavailable))

  header_sent : SocketStream → Bool → Msg → Bool → SocketStream × List Effect × Option Err
  unfolding send_payload
  header_sent s false m written =
      (s, write_message (lpm_trailer s.header) ∷ [], some (status unavailable))
  header_sent s true m written =
      send_payload s (write_message (lpm_trailer s.header) ∷ []) (lpm_message codec m) written

  unfoldable pub socket_send :
      SocketStream → Msg → Bool → Bool → SocketStream × List Effect × Option Err
  unfolding header_sent send_payload
  socket_send s m header_written written =
      if s.sent_md
      then send_payload s [] (lpm_message codec m) written
      else header_sent (record s { sent_md = true }) header_written m written

abbrev pub set_header : SocketStream → Md → SocketStream
set_header s md = record s { header = md }

abbrev pub set_trailer : SocketStream → Md → SocketStream
set_trailer s md = record s { trailer = md }
