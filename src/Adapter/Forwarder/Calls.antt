-- ===== src/Adapter/Forwarder/Calls.antt =====
-- grpcadapter/forwarder.go: streams are closed, and a call succeeds by the target's word only.
use grpcbridge.Base.{
  ℕ, suc, ◌+◌, ◌≤◌, ◌≡◌, ◌≢◌, refl, List, [], ◌∷◌, ◌++◌, Option, none, some, Bool, true, false,
  arith, Bool-cases, inl, inr, All, In,
}
use grpcbridge.Rpc.{Err, is_eof}
use grpcbridge.Adapter.Forwarder.{
  Received, message, failed, ForwardError, Call, set_header, set_trailer, send_response,
  open_stream, send_request, close_send, close_stream, then_run, forward_incoming_to_outgoing,
  unary_sent, unary_opened, forward_unary_request, Arrival, context_done, request_done,
  response_done, Outcome, running, returned, is_eof?, or_err, select_loop, close_at_end,
  start_streaming, start_unary, forward,
}

module _ {Msg Md : Type 0} where
  abbrev pub opens : List (Call Msg Md) → ℕ
  opens [] = 0
  opens (open_stream ∷ calls) = suc (opens calls)
  opens (set_header md ∷ calls) = opens calls
  opens (set_trailer md ∷ calls) = opens calls
  opens (send_response m ∷ calls) = opens calls
  opens (send_request m ∷ calls) = opens calls
  opens (close_send ∷ calls) = opens calls
  opens (close_stream ∷ calls) = opens calls

  abbrev pub closes : List (Call Msg Md) → ℕ
  closes [] = 0
  closes (close_stream ∷ calls) = suc (closes calls)
  closes (set_header md ∷ calls) = closes calls
  closes (set_trailer md ∷ calls) = closes calls
  closes (send_response m ∷ calls) = closes calls
  closes (send_request m ∷ calls) = closes calls
  closes (open_stream ∷ calls) = closes calls
  closes (close_send ∷ calls) = closes calls

  -- A stream that was opened is closed once when the call returns, and open while it runs.
  abbrev pub IsBalanced : List (Call Msg Md) × Outcome → Type 0
  IsBalanced (calls, running) = (opens calls ≡ 1) × (closes calls ≡ 0)
  IsBalanced (calls, returned e) = (opens calls ≤ 1) × (closes calls ≡ opens calls)

  -- The loop only closes the sending side.
  abbrev IsQuiet : List (Call Msg Md) → Type 0
  IsQuiet calls = (opens calls ≡ 0) × (closes calls ≡ 0)

  opens-append : (xs ys : List (Call Msg Md)) → opens (xs ++ ys) ≡ opens xs + opens ys
  opens-append [] ys = omega arith
  opens-append (x ∷ xs) ys = ground (arith, opens-append xs ys)

  closes-append : (xs ys : List (Call Msg Md)) → closes (xs ++ ys) ≡ closes xs + closes ys
  closes-append [] ys = omega arith
  closes-append (x ∷ xs) ys = ground (arith, closes-append xs ys)

  after_open :
      (calls : List (Call Msg Md)) (r : List (Call Msg Md) × Outcome)
      → opens calls ≡ 1
      → closes calls ≡ 0
      → IsQuiet r.0
      → IsBalanced (then_run calls (close_at_end r))
  unfolding close_at_end
  after_open calls (loop, running) o c q =
      (omega (arith, opens-append calls loop), omega (arith, closes-append calls loop))
  after_open calls (loop, returned e) o c q = (
    omega (
      arith,
      opens-append calls (loop ++ close_stream ∷ []),
      opens-append loop (close_stream ∷ []),
    ),
    omega (
      arith,
      opens-append calls (loop ++ close_stream ∷ []),
      opens-append loop (close_stream ∷ []),
      closes-append calls (loop ++ close_stream ∷ []),
      closes-append loop (close_stream ∷ []),
    ),
  )

module _ (Msg Md : Type 0) where
  select_loop-IsQuiet :
      (events : List Arrival) → IsQuiet {Msg = Msg} {Md = Md} (select_loop events).0
  unfolding select_loop
  select_loop-IsQuiet [] = (refl, refl)
  select_loop-IsQuiet (context_done c ∷ events) = (refl, refl)
  select_loop-IsQuiet (response_done p ∷ events) = (refl, refl)
  select_loop-IsQuiet (request_done p ∷ events) =
      let ih = select_loop-IsQuiet events in
      elim (Bool-cases (is_eof? p.incoming_err)) [
        | inl y ↦ rw y ih
        | inr n ↦ elim (Bool-cases (is_eof? p.outgoing_err)) [
          | inl y ↦ rw n (rw y ih)
          | inr m ↦ rw n (rw m (refl, refl))
        ]
      ]

  start_unary-IsBalanced :
      (m : Msg) (opened sent : Option Err) (events : List Arrival)
      → IsBalanced {Msg = Msg} {Md = Md} (start_unary (unary_opened m opened sent) events)
  unfolding start_unary unary_opened unary_sent
  start_unary-IsBalanced m (some e) sent events = (omega arith, refl)
  start_unary-IsBalanced m none none events =
      after_open (open_stream ∷ send_request m ∷ close_send ∷ []) (select_loop events) refl refl
        (select_loop-IsQuiet events)
  start_unary-IsBalanced m none (some e) events = elim (Bool-cases (is_eof e)) [
    | inl y ↦ rw y (
        after_open (open_stream ∷ send_request m ∷ close_send ∷ []) (select_loop events) refl refl
          (select_loop-IsQuiet events))
    | inr n ↦ rw n (omega arith)
  ]

  -- However a call goes, its stream to the target is opened at most once, and is closed exactly once
  -- when the call returns, if it was opened; while the call runs, it is open.
  pub forward-IsBalanced :
      (client_streaming : Bool) (request : Received Msg) (opened sent : Option Err)
      (events : List Arrival)
      → IsBalanced {Msg = Msg} {Md = Md} (forward client_streaming request opened sent events)
  unfolding forward start_streaming forward_unary_request
  forward-IsBalanced true request (some e) sent events = (omega arith, refl)
  forward-IsBalanced true request none sent events =
      after_open (open_stream ∷ []) (select_loop events) refl refl (select_loop-IsQuiet events)
  forward-IsBalanced false (failed e) opened sent events = (omega arith, refl)
  forward-IsBalanced false (message m) opened sent events =
      start_unary-IsBalanced m opened sent events

  -- A result of `forwardIncomingToOutgoing` that arrived, as such results are: with an error.
  abbrev pub HasError : Arrival → Type 0
  HasError (context_done c) = Unit
  HasError (response_done p) = Unit
  HasError (request_done p) = or_err p.incoming_err p.outgoing_err ≢ none

  -- The client's direction only ever ends with an error.
  pub forward_requests_error :
      (rs : List (Received Msg)) (sends : List (Option Err)) (p : ForwardError)
      → (forward_incoming_to_outgoing {Md = Md} rs sends).1 ≡ some p
      → HasError (request_done p)
  unfolding forward_incoming_to_outgoing
  forward_requests_error [] sends p h = absurd cc
  forward_requests_error (failed e ∷ rs) sends p h = λ k. ground arith
  forward_requests_error (message m ∷ rs) [] p h = absurd cc
  forward_requests_error (message m ∷ rs) (some e ∷ sends) p h = λ k. ground arith
  forward_requests_error (message m ∷ rs) (none ∷ sends) p h = forward_requests_error rs sends p h

  or_err-none : (a b : Option Err) → or_err a b ≡ none → (a ≡ none) × (b ≡ none)
  or_err-none none b h = (refl, h)
  or_err-none (some e) b h = absurd cc

  select_loop_success :
      (events : List Arrival)
      → All HasError events
      → (select_loop {Msg = Msg} {Md = Md} events).1 ≡ returned none
      → (p : ForwardError) × In (response_done p) events
        × (p.incoming_err ≡ none)
        × (p.outgoing_err ≡ none)
  unfolding select_loop
  select_loop_success [] h k = absurd cc
  select_loop_success (context_done c ∷ events) h k = absurd cc
  select_loop_success (response_done p ∷ events) h k =
      let (i, o) = or_err-none p.incoming_err p.outgoing_err (ground arith) in (p, inl refl, i, o)
  select_loop_success (request_done p ∷ events) h k =
      let ih = λ (r : (select_loop {Msg = Msg} {Md = Md} events).1 ≡ returned none).
        select_loop_success events h.1 r in
      let later = λ (r : (select_loop {Msg = Msg} {Md = Md} events).1 ≡ returned none).
        let (q, i, a, b) = ih r in
        let found : (x : ForwardError) × In (response_done x) (request_done p ∷ events)
            × (x.incoming_err ≡ none)
            × (x.outgoing_err ≡ none) =
          (q, inr i, a, b) in
        found in
      elim (Bool-cases (is_eof? p.incoming_err)) [
        | inl y ↦ later (ground arith)
        | inr n ↦ elim (Bool-cases (is_eof? p.outgoing_err)) [
          | inl y ↦ later (ground arith)
          | inr m ↦ absurd (h.0 (ground arith))
        ]
      ]

  close_at_end_success :
      (r : List (Call Msg Md) × Outcome) → (close_at_end r).1 ≡ returned none → r.1 ≡ returned none
  unfolding close_at_end
  close_at_end_success (calls, running) h = h
  close_at_end_success (calls, returned e) h = h

  -- A call succeeds only when the target's direction has ended without an error of either side, if
  -- each result of the client's direction that arrives has an error.
  pub forward_success :
      (client_streaming : Bool) (request : Received Msg) (opened sent : Option Err)
      (events : List Arrival)
      → All HasError events
      → (forward {Md = Md} client_streaming request opened sent events).1 ≡ returned none
      → (p : ForwardError) × In (response_done p) events
        × (p.incoming_err ≡ none)
        × (p.outgoing_err ≡ none)
  unfolding forward start_streaming start_unary forward_unary_request unary_opened unary_sent
  forward_success true request (some e) sent events h k = absurd cc
  forward_success true request none sent events h k =
      select_loop_success events h (close_at_end_success (select_loop events) k)
  forward_success false (failed e) opened sent events h k = absurd cc
  forward_success false (message m) (some e) sent events h k = absurd cc
  forward_success false (message m) none none events h k =
      select_loop_success events h (close_at_end_success (select_loop events) k)
  forward_success false (message m) none (some e) events h k = elim (Bool-cases (is_eof e)) [
    | inl y ↦ select_loop_success events h (close_at_end_success (select_loop events) (rw y at k))
    | inr n ↦ absurd (eof_only n)
  ]
    where
      eof_only : is_eof e ≡ false → ⊥
      eof_only n = cc (rw n at k)
