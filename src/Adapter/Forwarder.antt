-- ===== src/Adapter/Forwarder.antt =====
-- grpcadapter/forwarder.go: the forwarding of a call. What the streams' calls give is a list of outcomes;
-- where a list ends, the goroutine still waits. Its calls are effects, in their order.
pub mod Directions
pub mod Calls
use grpcbridge.Base.{
  ℕ, if◌then◌else◌, List, [], ◌∷◌, ◌++◌, Option, none, some, Bool, true, false, Bytes,
}
use grpcbridge.Rpc.{Err, eof, status, is_eof, unavailable, Cause, context_error}
use grpcbridge.Adapter.Metadata.{MdLibrary, timeout_key}
use grpcbridge.Adapter.Timeout.{decode_timeout}

-- What `Recv` gives.
pub data Received (Msg : Type 0) : Type 0 where
  message : Msg → Received Msg
  failed : Err → Received Msg

pub record ForwardError : Type 0 where
  pub incoming_err : Option Err
  pub outgoing_err : Option Err

abbrev pub from_incoming : Option Err → ForwardError
from_incoming e = record { incoming_err = e; outgoing_err = none }

abbrev pub from_outgoing : Option Err → ForwardError
from_outgoing e = record { incoming_err = none; outgoing_err = e }

-- What is called on the server stream of the client's request and on the stream to the target.
pub data Call (Msg Md : Type 0) : Type 0 where
  set_header : Md → Call Msg Md
  set_trailer : Md → Call Msg Md
  send_response : Msg → Call Msg Md
  open_stream : Call Msg Md
  send_request : Msg → Call Msg Md
  close_send : Call Msg Md
  close_stream : Call Msg Md

-- `baseContext`: the metadata of the outgoing context and the timeout of the call.
module _ (lib : MdLibrary) (delete_key : lib.Md → Bytes → lib.Md) where
  with_timeout : lib.Md → List Bytes → lib.Md × Option ℕ
  with_timeout md [] = (md, none)
  with_timeout md (v ∷ vs) = (delete_key md timeout_key, decode_timeout v)

  unfoldable pub base_context : lib.Md → lib.Md × Option ℕ
  unfolding with_timeout
  base_context md = with_timeout md (lib.get md timeout_key)

-- What the loop of `Forward` finds in its channels, in the order of its choices.
pub data Arrival : Type 0 where
  context_done : Cause → Arrival
  request_done : ForwardError → Arrival
  response_done : ForwardError → Arrival

-- The result of a call: still running, or an error, which is none for success.
pub data Outcome : Type 0 where
  running : Outcome
  returned : Option Err → Outcome

abbrev pub is_eof? : Option Err → Bool
is_eof? none = false
is_eof? (some e) = is_eof e

abbrev pub or_err : Option Err → Option Err → Option Err
or_err none f = f
or_err (some e) f = some e

unfoldable end_error : Err → Option Err
end_error e = if is_eof e then none else some e

module _ {Msg Md : Type 0} where
  -- Before what a run does next.
  abbrev pub then_run :
      {A : Type 0} → List (Call Msg Md) → List (Call Msg Md) × A → List (Call Msg Md) × A
  then_run calls r = (calls ++ r.0, r.1)

  -- `forwardIncomingToOutgoing`, with what the receives and the sends give.
  unfoldable pub forward_incoming_to_outgoing :
      List (Received Msg) → List (Option Err) → List (Call Msg Md) × Option ForwardError
  forward_incoming_to_outgoing [] sends = ([], none)
  forward_incoming_to_outgoing (failed e ∷ rs) sends = ([], some (from_incoming (some e)))
  forward_incoming_to_outgoing (message m ∷ rs) [] = (send_request m ∷ [], none)
  forward_incoming_to_outgoing (message m ∷ rs) (some e ∷ sends) =
      (send_request m ∷ [], some (from_outgoing (some e)))
  forward_incoming_to_outgoing (message m ∷ rs) (none ∷ sends) =
      then_run (send_request m ∷ []) (forward_incoming_to_outgoing rs sends)

  -- The filters, and the header and trailer of the target's stream.
  module _ (filter_response filter_trailer : Md → Md) (header trailer : Md) where
    unfoldable header_if_first : Bool → List (Call Msg Md)
    header_if_first true = set_header (filter_response header) ∷ []
    header_if_first false = []

    -- The loop of `forwardOutgoingToIncoming`.
    unfoldable pub forward_responses :
        Bool → List (Received Msg) → List (Option Err) → List (Call Msg Md) × Option ForwardError
    unfolding end_error header_if_first
    forward_responses first [] sends = ([], none)
    forward_responses first (failed e ∷ rs) sends = (
      header_if_first first ++ set_trailer (filter_trailer trailer) ∷ [],
      some (from_outgoing (end_error e)),
    )
    forward_responses first (message m ∷ rs) [] =
        (header_if_first first ++ send_response m ∷ [], none)
    forward_responses first (message m ∷ rs) (some e ∷ sends) =
        (header_if_first first ++ send_response m ∷ [], some (from_incoming (some e)))
    forward_responses first (message m ∷ rs) (none ∷ sends) =
        then_run (header_if_first first ++ send_response m ∷ []) (forward_responses false rs sends)

    -- `forwardUnaryResponse` from its calls of SetHeader on: the response that was received, whether the
    -- trailers have arrived, the error, and what Send gives.
    unfoldable trailer_if : Bool → List (Call Msg Md)
    trailer_if true = set_trailer (filter_trailer trailer) ∷ []
    trailer_if false = []

    unfoldable unary_calls : Bool → List (Call Msg Md)
    unfolding trailer_if
    unary_calls received_trailers =
        set_header (filter_response header) ∷ trailer_if received_trailers

    unfoldable send_unary_response :
        Bool → Option Msg → Option Err → List (Call Msg Md) × Option ForwardError
    unfolding unary_calls trailer_if
    send_unary_response received_trailers none sent =
        (unary_calls received_trailers, some (from_outgoing (some (status unavailable))))
    send_unary_response received_trailers (some m) none =
        (unary_calls received_trailers ++ send_response m ∷ [], some (from_outgoing none))
    send_unary_response received_trailers (some m) (some e) =
        (unary_calls received_trailers ++ send_response m ∷ [], some (from_incoming (some e)))

    unfoldable end_unary :
        Option Msg → Bool → Err → Option Err → List (Call Msg Md) × Option ForwardError
    unfolding unary_calls trailer_if
    end_unary response received_trailers e sent =
        if is_eof e
        then send_unary_response received_trailers response sent
        else (unary_calls received_trailers, some (from_outgoing (some e)))

    -- The two receives; a second message counts as the end of the stream.
    unfoldable pub forward_unary_response :
        List (Received Msg) → Option Err → List (Call Msg Md) × Option ForwardError
    unfolding end_unary send_unary_response unary_calls trailer_if
    forward_unary_response [] sent = ([], none)
    forward_unary_response (failed e ∷ rs) sent = end_unary none true e sent
    forward_unary_response (message m ∷ []) sent = ([], none)
    forward_unary_response (message m ∷ failed e ∷ rs) sent = end_unary (some m) true e sent
    forward_unary_response (message m ∷ message n ∷ rs) sent = end_unary (some m) false eof sent

  -- `stream` and `forwardUnaryRequest`: the error with which the call ends, if it does.
  unfoldable unary_sent : Msg → Option Err → List (Call Msg Md) × Option Err
  unary_sent m none = (open_stream ∷ send_request m ∷ close_send ∷ [], none)
  unary_sent m (some e) =
      if is_eof e
      then (open_stream ∷ send_request m ∷ close_send ∷ [], none)
      else (open_stream ∷ send_request m ∷ close_stream ∷ [], some e)

  unfoldable unary_opened : Msg → Option Err → Option Err → List (Call Msg Md) × Option Err
  unfolding unary_sent
  unary_opened m (some e) sent = ([], some e)
  unary_opened m none sent = unary_sent m sent

  unfoldable pub forward_unary_request :
      Received Msg → Option Err → Option Err → List (Call Msg Md) × Option Err
  unfolding unary_opened unary_sent
  forward_unary_request (failed e) opened sent =
      ([], some (if is_eof e then status unavailable else e))
  forward_unary_request (message m) opened sent = unary_opened m opened sent

  unfoldable pub select_loop : List Arrival → List (Call Msg Md) × Outcome
  select_loop [] = ([], running)
  select_loop (context_done c ∷ events) = ([], returned (some (context_error c)))
  select_loop (response_done p ∷ events) = ([], returned (or_err p.incoming_err p.outgoing_err))
  select_loop (request_done p ∷ events) =
      let rest = then_run (close_send ∷ []) (select_loop events) in
      if is_eof? p.incoming_err
      then rest
      else if is_eof? p.outgoing_err
      then rest
      else ([], returned (or_err p.incoming_err p.outgoing_err))

  -- The deferred Close of the target's stream, once the call returns.
  unfoldable close_at_end : List (Call Msg Md) × Outcome → List (Call Msg Md) × Outcome
  close_at_end (calls, running) = (calls, running)
  close_at_end (calls, returned e) = (calls ++ close_stream ∷ [], returned e)

  unfoldable start_streaming : Option Err → List Arrival → List (Call Msg Md) × Outcome
  unfolding close_at_end
  start_streaming (some e) events = ([], returned (some e))
  start_streaming none events = then_run (open_stream ∷ []) (close_at_end (select_loop events))

  unfoldable start_unary :
      List (Call Msg Md) × Option Err → List Arrival → List (Call Msg Md) × Outcome
  unfolding close_at_end
  start_unary (calls, some e) events = (calls, returned (some e))
  start_unary (calls, none) events = then_run calls (close_at_end (select_loop events))

  -- `Forward`, without the calls of its goroutines: what the receive and the send of a unary request and
  -- the opening of the stream give, and what arrives.
  unfoldable pub forward :
      Bool → Received Msg → Option Err → Option Err → List Arrival → List (Call Msg Md) × Outcome
  unfolding start_streaming start_unary close_at_end
  forward client_streaming request opened sent events =
      if client_streaming
      then start_streaming opened events
      else start_unary (forward_unary_request request opened sent) events
