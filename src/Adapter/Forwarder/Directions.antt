-- ===== src/Adapter/Forwarder/Directions.antt =====
-- grpcadapter/forwarder.go: messages keep their order, and a unary response is sent for a success only.
use grpcbridge.Base.{
  ℕ, suc, ◌≡◌, ◌≢◌, refl, ap, if◌then◌else◌, List, [], ◌∷◌, ◌++◌, Option, none, some, Bool, true,
  false, inl, inr, ◌⊎◌,
}
use grpcbridge.Rpc.{Err, eof, status, is_eof}
use grpcbridge.Adapter.Forwarder.{
  Received, message, failed, ForwardError, from_incoming, from_outgoing, Call, set_header,
  set_trailer, send_response, open_stream, send_request, close_send, close_stream, then_run,
  forward_incoming_to_outgoing, forward_responses, trailer_if, unary_calls, send_unary_response,
  end_unary, forward_unary_response,
}

-- The outcomes of successful sends, and more.
abbrev pub all_sent : {Msg : Type 0} → List Msg → List (Option Err) → List (Option Err)
all_sent [] more = more
all_sent (m ∷ ms) more = none ∷ all_sent ms more

abbrev pub messages : {Msg : Type 0} → List Msg → List (Received Msg) → List (Received Msg)
messages [] rs = rs
messages (m ∷ ms) rs = message m ∷ messages ms rs

module _ {Msg Md : Type 0} where
  abbrev pub requests : List Msg → List (Call Msg Md)
  requests [] = []
  requests (m ∷ ms) = send_request m ∷ requests ms

  abbrev pub responses : List Msg → List (Call Msg Md)
  responses [] = []
  responses (m ∷ ms) = send_response m ∷ responses ms

  -- The messages that a client sends before an error go to the target, in order, and the error is given
  -- back as the client's.
  pub forward_requests_lem :
      (ms : List Msg) (e : Err) (rs : List (Received Msg)) (more : List (Option Err))
      → forward_incoming_to_outgoing {Md = Md} (messages ms (failed e ∷ rs)) (all_sent ms more)
        ≡ (requests ms, some (from_incoming (some e)))
  unfolding forward_incoming_to_outgoing
  forward_requests_lem [] e rs more = refl
  forward_requests_lem (m ∷ ms) e rs more =
      ap (then_run (send_request m ∷ [])) (forward_requests_lem ms e rs more)

  module _ (filter_response filter_trailer : Md → Md) (header trailer : Md) where
    later_responses :
        (ms : List Msg) (e : Err) (rs : List (Received Msg)) (more : List (Option Err))
        → forward_responses filter_response filter_trailer header trailer false
            (messages ms (failed e ∷ rs))
            (all_sent ms more)
          ≡ (
            responses ms ++ set_trailer (filter_trailer trailer) ∷ [],
            some (from_outgoing (if is_eof e then none else some e)),
          )
    unfolding forward_responses
    later_responses [] e rs more = refl
    later_responses (m ∷ ms) e rs more =
        ap (then_run (send_response m ∷ [])) (later_responses ms e rs more)

    -- A streamed response begins with the filtered header, goes on with the target's messages in order,
    -- and ends with the filtered trailer; the end of the stream is a success.
    pub forward_responses_lem :
        (ms : List Msg) (e : Err) (rs : List (Received Msg)) (more : List (Option Err))
        → forward_responses filter_response filter_trailer header trailer true
            (messages ms (failed e ∷ rs))
            (all_sent ms more)
          ≡ (
            set_header (filter_response header)
                ∷ (responses ms ++ set_trailer (filter_trailer trailer) ∷ []),
            some (from_outgoing (if is_eof e then none else some e)),
          )
    unfolding forward_responses
    forward_responses_lem [] e rs more = refl
    forward_responses_lem (m ∷ ms) e rs more =
        ap (then_run (set_header (filter_response header) ∷ send_response m ∷ []))
          (later_responses ms e rs more)

    -- How often a response is sent.
    abbrev pub sent_responses : List (Call Msg Md) → ℕ
    sent_responses [] = 0
    sent_responses (send_response m ∷ calls) = suc (sent_responses calls)
    sent_responses (set_header md ∷ calls) = sent_responses calls
    sent_responses (set_trailer md ∷ calls) = sent_responses calls
    sent_responses (open_stream ∷ calls) = sent_responses calls
    sent_responses (send_request m ∷ calls) = sent_responses calls
    sent_responses (close_send ∷ calls) = sent_responses calls
    sent_responses (close_stream ∷ calls) = sent_responses calls

    -- The response is sent once and the call succeeds, or it is not sent, and the call fails or waits.
    abbrev pub SendsOnSuccess : List (Call Msg Md) × Option ForwardError → Type 0
    SendsOnSuccess r =
        ((sent_responses r.0 ≡ 1) × (r.1 ≡ some (from_outgoing none)))
        ⊎ ((sent_responses r.0 ≡ 0) × (r.1 ≢ some (from_outgoing none)))

    end_unary-SendsOnSuccess :
        (response : Option Msg) (received_trailers : Bool) (e : Err)
        → SendsOnSuccess (
            end_unary filter_response filter_trailer header trailer response received_trailers e
              none)
    unfolding end_unary send_unary_response unary_calls trailer_if
    end_unary-SendsOnSuccess none true eof = inr (refl, λ h. cc)
    end_unary-SendsOnSuccess none false eof = inr (refl, λ h. cc)
    end_unary-SendsOnSuccess (some m) true eof = inl (refl, refl)
    end_unary-SendsOnSuccess (some m) false eof = inl (refl, refl)
    end_unary-SendsOnSuccess response true (status c) = inr (refl, λ h. cc)
    end_unary-SendsOnSuccess response false (status c) = inr (refl, λ h. cc)
    end_unary-SendsOnSuccess response true Err.plain = inr (refl, λ h. cc)
    end_unary-SendsOnSuccess response false Err.plain = inr (refl, λ h. cc)

    -- Whatever the target does, a unary response whose Send would succeed is sent once if the
    -- forwarding succeeds and not at all otherwise.
    pub forward_unary_response-SendsOnSuccess :
        (rs : List (Received Msg))
        → SendsOnSuccess
            (forward_unary_response filter_response filter_trailer header trailer rs none)
    unfolding forward_unary_response
    forward_unary_response-SendsOnSuccess [] = inr (refl, λ h. cc)
    forward_unary_response-SendsOnSuccess (failed e ∷ rs) = end_unary-SendsOnSuccess none true e
    forward_unary_response-SendsOnSuccess (message m ∷ []) = inr (refl, λ h. cc)
    forward_unary_response-SendsOnSuccess (message m ∷ failed e ∷ rs) =
        end_unary-SendsOnSuccess (some m) true e
    forward_unary_response-SendsOnSuccess (message m ∷ message n ∷ rs) =
        end_unary-SendsOnSuccess (some m) false eof
