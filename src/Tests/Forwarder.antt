-- ===== src/Tests/Forwarder.antt =====
-- Runs of the forwarder and of the timeout's decoding, and their theorems there.
use grpcbridge.Base.{
  ℕ, ◌+◌, ◌*◌, ◌≡◌, refl, List, [], ◌∷◌, none, some, true, codes, arith, All, In, inl, inr,
}
use grpcbridge.Rpc.{eof}
use grpcbridge.Adapter.Timeout.{decode_timeout}
use grpcbridge.Adapter.Timeout.Exact.{saturated, unit_of, value_from, decode_timeout_exact}
use grpcbridge.Adapter.Forwarder.{
  message, failed, ForwardError, from_incoming, from_outgoing, Arrival, request_done, response_done,
  returned, select_loop, forward, forward_unary_response,
}
use grpcbridge.Adapter.Forwarder.Directions.{SendsOnSuccess, forward_unary_response-SendsOnSuccess}
use grpcbridge.Adapter.Forwarder.Calls.{IsBalanced, forward-IsBalanced, HasError, forward_success}

decode_timeout_exact_example :
    decode_timeout (codes "10S") ≡ some (saturated (unit_of b'S' * value_from 0 (codes "10")))
decode_timeout_exact_example =
    decode_timeout_exact b'1' (b'0' ∷ []) b'S'
      ((omega arith, omega arith), ((omega arith, omega arith), tt)) (omega arith)
      (inr (inr (inl refl)))

ten_seconds : saturated (unit_of b'S' * value_from 0 (codes "10")) ≡ 10000000000
ten_seconds = ground arith

-- The client's end arrives, then the target's.
abbrev half_closed : List Arrival
half_closed = request_done (from_incoming (some eof)) ∷ response_done (from_outgoing none) ∷ []

forward-IsBalanced_example :
    IsBalanced {Msg = ℕ} {Md = ℕ} (forward true (message 1) none none half_closed)
forward-IsBalanced_example = forward-IsBalanced ℕ ℕ true (message 1) none none half_closed

half_closed-HasError : All (HasError ℕ ℕ) half_closed
half_closed-HasError = ((λ e. cc), (tt, tt))

half_closed_success :
    (forward {Msg = ℕ} {Md = ℕ} true (message 1) none none half_closed).1 ≡ returned none
unfolding forward select_loop
half_closed_success = refl

forward_success_example :
    (p : ForwardError) × In (response_done p) half_closed
    × (p.incoming_err ≡ none)
    × (p.outgoing_err ≡ none)
forward_success_example =
    forward_success ℕ ℕ true (message 1) none none half_closed half_closed-HasError
      half_closed_success

abbrev add_one : ℕ → ℕ
add_one md = md + 1

forward_unary_response-SendsOnSuccess_example :
    SendsOnSuccess {Msg = ℕ} add_one add_one 5 6
      (forward_unary_response add_one add_one 5 6 (message 3 ∷ failed eof ∷ []) none)
forward_unary_response-SendsOnSuccess_example =
    forward_unary_response-SendsOnSuccess add_one add_one 5 6 (message 3 ∷ failed eof ∷ [])
