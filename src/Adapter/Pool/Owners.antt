-- ===== src/Adapter/Pool/Owners.antt =====
-- grpcadapter/pool.go: the pool under calls of `New` that overlap, and calls of `Close`.
use grpcbridge.Base.{
  ℕ, ◌<◌, ◌≤◌, ◌==◌, ◌≡◌, ◌≢◌, refl, sym, ap, ◌∙◌, if◌then◌else◌, List, [], ◌∷◌, ◌++◌, Option, none,
  some, true, false, Bytes, arith, Bool-cases, Option-cases, subst, ◌⊎◌, inl, inr,
}
use grpcbridge.Base.Maps.{delete}
use grpcbridge.Adapter.Pool.{
  Pool, NewResult, controller, already_dialed, dial_failed, write_at, new_pool, reserve, attach,
  finish_new, new_from, new_client, get_at, get, close_client, close_controller,
}

-- The calls of `New` that wait for their connection, by their controller.
abbrev pub Calls : Type 0
Calls = ℕ → Option Bytes

abbrev pub start_call : ℕ → Bytes → Calls → Calls
start_call i t calls j = if j == i then some t else calls j

abbrev pub end_call : ℕ → Calls → Calls
end_call i calls j = if j == i then none else calls j

module _ {Conn : Type 0} where
  pub data PoolStep : Pool Conn × Calls → Pool Conn × Calls → Type 0 where
    begins :
        (p : Pool Conn) (calls : Calls) (t : Bytes)
        → p.conns t ≡ none
        → PoolStep (p, calls) (reserve t p, start_call p.next t calls)
    ends :
        (p : Pool Conn) (calls : Calls) (i : ℕ) (t : Bytes) (dialed : Option Conn)
        → calls i ≡ some t
        → PoolStep (p, calls) ((finish_new i t dialed p).1, end_call i calls)
    closes :
        (p q : Pool Conn) (calls : Calls) (i : ℕ)
        → close_controller i p ≡ some q
        → PoolStep (p, calls) (q, calls)

  pub data PoolReach : Pool Conn × Calls → Type 0 where
    starts : PoolReach (new_pool, λ i. none)
    steps : (s t : Pool Conn × Calls) → PoolReach s → PoolStep s t → PoolReach t

  -- An entry's controller waits for its connection, or is open and of this target; an open controller
  -- stands under its target; a call holds the entry of its target. No two entries have one controller.
  pub record IsPool (p : Pool Conn) (calls : Calls) : Type 0 where
    pub unused : (i : ℕ) → p.next ≤ i → ((p.controllers i).client ≡ none) × (calls i ≡ none)
    pub entries :
        (t : Bytes) (i : ℕ)
        → p.conns t ≡ some i
        → (i < p.next)
          × ((p.controllers i).closed ≡ false)
          × (((p.controllers i).client ≡ none) ⊎ ((p.controllers i).target ≡ t))
    pub apart : (t u : Bytes) (i : ℕ) → p.conns t ≡ some i → p.conns u ≡ some i → t ≡ u
    pub owners :
        (i : ℕ) (conn : Conn)
        → (p.controllers i).client ≡ some conn
        → (p.controllers i).closed ≡ false
        → p.conns (p.controllers i).target ≡ some i
    pub waiting :
        (i : ℕ) (t : Bytes)
        → calls i ≡ some t
        → (p.conns t ≡ some i) × ((p.controllers i).client ≡ none)

  -- What Close leaves.
  abbrev pub closed_pool : ℕ → Conn → Pool Conn → Pool Conn
  closed_pool i conn p = record p {
    conns = delete (p.controllers i).target p.conns;
    controllers = write_at i (record (p.controllers i) { closed = true }) p.controllers;
    closed_clients = p.closed_clients ++ conn ∷ [];
  }

  reserve-IsPool :
      (p : Pool Conn) (calls : Calls) (t : Bytes)
      → p.conns t ≡ none
      → IsPool p calls
      → IsPool (reserve t p) (start_call p.next t calls)
  unfolding reserve
  reserve-IsPool p calls t h v = record {
    unused = λ i l. ground (arith, v.unused i);
    entries = λ u i e. ground (arith, v.entries u i);
    apart = λ u w i e k. ground (arith, v.entries u i, v.entries w i, v.apart u w i);
    owners = λ i conn c o. ground (arith, v.owners i conn);
    waiting = λ i u c. ground (arith, v.waiting i u);
  }

  finish_new-IsPool :
      (p : Pool Conn) (calls : Calls) (i : ℕ) (t : Bytes) (dialed : Option Conn)
      → calls i ≡ some t
      → IsPool p calls
      → IsPool (finish_new i t dialed p).1 (end_call i calls)
  unfolding finish_new attach
  finish_new-IsPool p calls i t none h v = record {
    unused = λ j l. ground (arith, v.unused j);
    entries = λ u j e. v.entries u j e;
    apart = λ u w j e k. v.apart u w j e k;
    owners = λ j conn c o. v.owners j conn c o;
    waiting = λ j u c. ground (arith, v.waiting j u);
  }
  finish_new-IsPool p calls i t (some conn) h v = record {
    unused = λ j l. ground (arith, v.unused j, v.waiting i t);
    entries = λ u j e. ground (arith, v.entries u j, v.waiting i t, v.apart t u i);
    apart = λ u w j e k. v.apart u w j e k;
    owners = λ j c k o. ground (arith, v.owners j c, v.waiting i t);
    waiting = λ j u c. ground (arith, v.waiting j u, v.waiting i t);
  }

  close_controller_cases :
      (i : ℕ) (p q : Pool Conn)
      → close_controller i p ≡ some q
      → (conn : Conn) × ((p.controllers i).client ≡ some conn)
        × ((p.controllers i).closed ≡ false)
        × (q ≡ closed_pool i conn p)
  unfolding close_controller close_client
  close_controller_cases i p q h = elim (Bool-cases (p.controllers i).closed) [
    | inl y ↦ absurd (ground arith)
    | inr n ↦ elim (Option-cases (p.controllers i).client) [
      | inl c ↦ absurd (ground arith)
      | inr (conn, c) ↦ (conn, c, n, sym (ground (arith, h)))
    ]
  ]

  close_controller-IsPool :
      (p q : Pool Conn) (calls : Calls) (i : ℕ)
      → close_controller i p ≡ some q
      → IsPool p calls
      → IsPool q calls
  close_controller-IsPool p q calls i h v =
      let (conn, c, o, e) = close_controller_cases i p q h in
      subst (λ (r : Pool Conn). IsPool r calls) (sym e)
        (record {
          unused = λ j l. ground (arith, v.unused j);
          entries = λ u j k.
              ground (arith, v.entries u j, v.owners i conn, v.apart u (p.controllers i).target j);
          apart = λ u w j k l. ground (arith, v.apart u w j);
          owners = λ j d k l. ground (arith, v.owners j d, v.owners i conn);
          waiting = λ j u k. ground (arith, v.waiting j u, v.owners i conn);
        })

  step-IsPool : (s t : Pool Conn × Calls) → PoolStep s t → IsPool s.0 s.1 → IsPool t.0 t.1
  step-IsPool _ _ (begins p calls t h) v = reserve-IsPool p calls t h v
  step-IsPool _ _ (ends p calls i t dialed h) v = finish_new-IsPool p calls i t dialed h v
  step-IsPool _ _ (closes p q calls i h) v = close_controller-IsPool p q calls i h v

  -- In every pool that overlapping calls of New and calls of Close reach from a new one, an entry's
  -- controller is not closed and either has no client or is of the entry's target, an open
  -- controller with a client stands under its target, a running call of New holds its target's
  -- entry, and no two entries have one controller.
  pub PoolReach-IsPool : (s : Pool Conn × Calls) → PoolReach s → IsPool s.0 s.1
  PoolReach-IsPool _ starts = record {
    unused = λ i l. (refl, refl);
    entries = λ t i e. absurd cc;
    apart = λ t u i e k. absurd cc;
    owners = λ i conn c o. absurd cc;
    waiting = λ i t c. absurd cc;
  }
  PoolReach-IsPool _ (steps s t r k) = step-IsPool s t k (PoolReach-IsPool s r)

  get-closed_pool :
      (p : Pool Conn) (i : ℕ) (conn : Conn) (t : Bytes)
      → t ≢ (p.controllers i).target
      → get (closed_pool i conn p) t ≡ get p t
  unfolding get get_at
  get-closed_pool p i conn t h = elim (Option-cases (p.conns t)) [
    | inl n ↦ ground arith
    | inr (j, e) ↦ ground arith
  ]

  get_deleted :
      (p : Pool Conn) (i : ℕ) (conn : Conn)
      → get (closed_pool i conn p) (p.controllers i).target ≡ none
  unfolding get get_at
  get_deleted p i conn = ground arith

  closed_twice :
      (p : Pool Conn) (i : ℕ) (conn : Conn) → close_controller i (closed_pool i conn p) ≡ none
  unfolding close_controller
  closed_twice p i conn = ground arith

  -- In a well-formed pool, Close of an open controller with a client removes the entry of its
  -- target, whose client it was, and no other entry, closes the client, and a second Close panics.
  pub close_controller_lem :
      (p : Pool Conn) (calls : Calls) (i : ℕ) (conn : Conn)
      → IsPool p calls
      → (p.controllers i).client ≡ some conn
      → (p.controllers i).closed ≡ false
      → (get p (p.controllers i).target ≡ some (some conn))
        × ((q : Pool Conn) × (close_controller i p ≡ some q)
            × (get q (p.controllers i).target ≡ none)
            × ((t : Bytes) → t ≢ (p.controllers i).target → get q t ≡ get p t)
            × (q.closed_clients ≡ p.closed_clients ++ conn ∷ [])
            × (close_controller i q ≡ none))
  unfolding close_controller close_client get get_at
  close_controller_lem p calls i conn v c o = (
    rw (v.owners i conn c o) (rw c refl),
    (
      closed_pool i conn p,
      rw (o, close_controller) (ap (close_client i p) c),
      get_deleted p i conn,
      λ t h. get-closed_pool p i conn t h,
      refl,
      closed_twice p i conn,
    ),
  )

  new_client_free :
      {Opt : Type 0} (f : Bytes → List Opt → Option Conn) (d : List Opt) (t a : Bytes)
      (opts : List Opt) (p : Pool Conn) (o : Option Conn)
      → p.conns t ≡ none
      → f a (d ++ opts) ≡ o
      → new_client f d t a opts p ≡ finish_new p.next t o (reserve t p)
  unfolding new_client new_from
  new_client_free f d t a opts p o h e =
      ap (new_from t (f a (d ++ opts)) p) h
      ∙ ap (λ (x : Option Conn). finish_new p.next t x (reserve t p)) e

  get-reserve : (t : Bytes) (p : Pool Conn) → get (reserve t p) t ≡ some none
  unfolding get get_at reserve
  get-reserve t p = ground arith

  get-attach :
      (t : Bytes) (conn : Conn) (p : Pool Conn)
      → get (attach p.next t conn (reserve t p)) t ≡ some (some conn)
  unfolding get get_at reserve attach
  get-attach t conn p = ground arith

  -- New for a target without an entry returns a controller and Get gives the client if the client
  -- function gave one; otherwise New fails and Get gives a nil client with true.
  pub new_client_lem :
      {Opt : Type 0} (new_client_func : Bytes → List Opt → Option Conn) (defaults : List Opt)
      (t dial_target : Bytes) (opts : List Opt) (p : Pool Conn)
      → p.conns t ≡ none
      → ((conn : Conn) × (new_client_func dial_target (defaults ++ opts) ≡ some conn)
          × ((new_client new_client_func defaults t dial_target opts p).0 ≡ controller p.next)
          × (get (new_client new_client_func defaults t dial_target opts p).1 t ≡ some (some conn)))
        ⊎ ((new_client_func dial_target (defaults ++ opts) ≡ none)
            × ((new_client new_client_func defaults t dial_target opts p).0 ≡ dial_failed)
            × (get (new_client new_client_func defaults t dial_target opts p).1 t ≡ some none))
  unfolding finish_new
  new_client_lem f d t a opts p h = elim (Option-cases (f a (d ++ opts))) [
    | inl n ↦ inr (
      n,
      ap (λ (r : NewResult × Pool Conn). r.0) (new_client_free f d t a opts p none h n),
      ap (λ (r : NewResult × Pool Conn). get r.1 t) (new_client_free f d t a opts p none h n)
          ∙ get-reserve t p,
    )
    | inr (conn, e) ↦ inl (
      conn,
      e,
      ap (λ (r : NewResult × Pool Conn). r.0) (new_client_free f d t a opts p (some conn) h e),
      ap (λ (r : NewResult × Pool Conn). get r.1 t) (new_client_free f d t a opts p (some conn) h e)
          ∙ get-attach t conn p,
    )
  ]

  -- While Get finds a target, New for it is refused and changes nothing.
  pub new_client_refused :
      {Opt : Type 0} (new_client_func : Bytes → List Opt → Option Conn) (defaults : List Opt)
      (t dial_target : Bytes) (opts : List Opt) (p : Pool Conn)
      → get p t ≢ none
      → new_client new_client_func defaults t dial_target opts p ≡ (already_dialed, p)
  unfolding new_client new_from get get_at
  new_client_refused f d t a opts p h = elim (Option-cases (p.conns t)) [
    | inl n ↦ absurd (h (rw (n, get_at) refl))
    | inr (i, e) ↦ rw (e, new_from) refl
  ]
