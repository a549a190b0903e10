-- ===== src/Routing/Watchers/Live.antt =====
-- While the calls come one after another, a target has routes only while it is watched, and it is
-- watched by one open watcher at a time.
use grpcbridge.Base.{
  ℕ, zero, suc, ◌+◌, if◌then◌else◌, List, [], ◌∷◌, ◌++◌, none, some, true, false, not, ◌&&◌, Bytes,
  bytes_discrete, equals, length, ◌≡◌, ◌≢◌, refl, arith, ◌⊎◌, inl, inr, Option-cases, Bool-cases,
  subst, sym,
}
use grpcbridge.Desc.{Target}
use grpcbridge.SyncSet.{new, add, remove}
use grpcbridge.Routing.Watchers.{
  Watcher, Watched, get_elem?, close_at, start, watch, accepts, update_desc, close, watches,
  updates, closes, Reach, here, next,
}

-- What the watchers need of a router's table: `Holds x t` says that it has a route of target `t`.
pub record Table (T : Type 0) : Type 1 where
  pub update : Target → T → T
  pub remove_target : Bytes → T → T
  pub Inv : T → Type 0
  pub Holds : T → Bytes → Type 0
  pub update-Inv : (desc : Target) (x : T) → Inv x → Inv (update desc x)
  pub remove_target-Inv : (t : Bytes) (x : T) → Inv x → Inv (remove_target t x)
  pub update-Holds :
      (desc : Target) (x : T) (t : Bytes)
      → Inv x
      → Holds (update desc x) t
      → (t ≡ desc.name) ⊎ Holds x t
  pub remove_target-Holds :
      (u : Bytes) (x : T) (t : Bytes) → Inv x → Holds (remove_target u x) t → Holds x t × (t ≢ u)

abbrev open_for : Bytes → Watcher → ℕ
open_for t w = if not w.closed && equals w.target t then 1 else 0

-- How many open watchers the target has.
abbrev pub open_count : Bytes → List Watcher → ℕ
open_count t [] = 0
open_count t (w ∷ ws) = open_for t w + open_count t ws

open_count-append :
    (t : Bytes) (ws : List Watcher) (w : Watcher)
    → open_count t (ws ++ w ∷ []) ≡ open_count t ws + open_for t w
open_count-append t [] w = omega arith
open_count-append t (x ∷ ws) w = omega (arith, open_count-append t ws w)

open_count-close_at :
    (t : Bytes) (i : ℕ) (ws : List Watcher) (w : Watcher)
    → get_elem? ws i ≡ some w
    → w.closed ≡ false
    → open_count t ws ≡ open_count t (close_at i ws) + open_for t w
open_count-close_at t i [] w e o = cc
open_count-close_at t zero (x ∷ ws) w e o = ground arith
open_count-close_at t (suc i) (x ∷ ws) w e o = omega (arith, open_count-close_at t i ws w e o)

get_elem?-close_at :
    (i : ℕ) (ws : List Watcher) (w : Watcher)
    → get_elem? ws i ≡ some w
    → get_elem? (close_at i ws) i ≡ some (record w { closed = true })
get_elem?-close_at i [] w e = cc
get_elem?-close_at zero (x ∷ ws) w e = ground arith
get_elem?-close_at (suc i) (x ∷ ws) w e = get_elem?-close_at i ws w e

pub accepts-target :
    {T : Type 0} (i : ℕ) (desc : Target) (s : Watched T)
    → accepts i desc s ≡ true
    → (w : Watcher) × (get_elem? s.watchers i ≡ some w) × (w.target ≡ desc.name)
unfolding accepts
accepts-target i desc s e = elim (Option-cases (get_elem? s.watchers i)) [
  | inl n ↦ absurd (ground arith)
  | inr (w, n) ↦ (w, n, ground arith)
]

module _ {T : Type 0} (table : Table T) where
  open table use {update, remove_target, Inv, Holds}

  pub record IsLive (s : Watched T) : Type 0 where
    pub table_inv : Inv s.table
    pub watched : (t : Bytes) → Holds s.table t → s.watcher_set.set t ≡ true
    pub one_watcher : (t : Bytes) → open_count t s.watchers ≡ (if s.watcher_set.set t then 1 else 0)

  pub watch-IsLive : (target : Bytes) (s : Watched T) → IsLive s → IsLive (watch target s).0
  unfolding watch add
  watch-IsLive target s v = elim (Bool-cases (s.watcher_set.set target)) [
    | inl e ↦ rw (e, watch, add) v
    | inr e ↦
        rw (e, watch, add)
          (record {
            table_inv = v.table_inv;
            watched = λ t h. ground (arith, v.watched t h);
            one_watcher = λ t. ground (
              arith,
              v.one_watcher t,
              open_count-append t s.watchers (record { target = target; closed = false }),
            );
          })
  ]

  accepts-watched :
      (i : ℕ) (desc : Target) (s : Watched T)
      → IsLive s
      → accepts i desc s ≡ true
      → s.watcher_set.set desc.name ≡ true
  unfolding accepts
  accepts-watched i desc s v e = elim (Option-cases (get_elem? s.watchers i)) [
    | inl n ↦ absurd (ground arith)
    | inr (w, n) ↦
        ground (arith, v.one_watcher desc.name, open_count-close_at desc.name i s.watchers w n)
  ]

  update_desc-IsLive :
      (i : ℕ) (desc : Target) (s : Watched T)
      → IsLive s
      → IsLive (update_desc update remove_target i desc s)
  unfolding update_desc
  update_desc-IsLive i desc s v = elim (Bool-cases (accepts i desc s)) [
    | inr e ↦ rw e v
    | inl e ↦ rw e (record {
      table_inv = table.update-Inv desc s.table v.table_inv;
      watched = λ t h. elim (table.update-Holds desc s.table t v.table_inv h) [
        | inl own ↦ rw own (accepts-watched i desc s v e)
        | inr old ↦ v.watched t old
      ];
      one_watcher = v.one_watcher;
    })
  ]

  pub close-IsLive :
      (i : ℕ) (s u : Watched T) → close update remove_target i s ≡ some u → IsLive s → IsLive u
  unfolding close remove
  close-IsLive i s u e v = elim (Option-cases (get_elem? s.watchers i)) [
    | inl n ↦ absurd (ground arith)
    | inr (w, n) ↦ elim (Bool-cases w.closed) [
      | inl c ↦ absurd (ground arith)
      | inr c ↦
          let closed_up : Watched T = record {
            table = remove_target w.target s.table;
            watcher_set = (remove bytes_discrete w.target s.watcher_set).0;
            watchers = close_at i s.watchers;
          } in
          let same : closed_up ≡ u = ground arith in
          subst IsLive same (record {
            table_inv = table.remove_target-Inv w.target s.table v.table_inv;
            watched = λ t h.
                let kept = table.remove_target-Holds w.target s.table t v.table_inv h in
                ground (arith, v.watched t kept.0, kept.1);
            one_watcher = λ t. ground (
              arith,
              v.one_watcher t,
              v.one_watcher w.target,
              open_count-close_at t i s.watchers w n c,
            );
          })
    ]
  ]

  -- Whatever calls a program makes, one after another.
  pub Reach-IsLive : {s u : Watched T} → Reach update remove_target s u → IsLive s → IsLive u
  Reach-IsLive here v = v
  Reach-IsLive (next {u} r (watches target e)) v =
      subst IsLive (sym e) (watch-IsLive target u (Reach-IsLive r v))
  Reach-IsLive (next {u} r (updates i desc e)) v =
      subst IsLive (sym e) (update_desc-IsLive i desc u (Reach-IsLive r v))
  Reach-IsLive (next {u} r (closes i e)) v = close-IsLive i u _ e (Reach-IsLive r v)

  pub start-IsLive : (x : T) → Inv x → ((t : Bytes) → ¬ Holds x t) → IsLive (start x)
  unfolding start new
  start-IsLive x inv nothing = record {
    table_inv = inv;
    watched = λ t h. absurd (nothing t h);
    one_watcher = λ t. refl;
  }

  -- What `Close` of an open watcher leaves.
  close-eq-some :
      (i : ℕ) (s : Watched T) (w : Watcher) (u : Watched T)
      → get_elem? s.watchers i ≡ some w
      → close update remove_target i s ≡ some u
      → (w.closed ≡ false)
        × (record {
          table = remove_target w.target s.table;
          watcher_set = (remove bytes_discrete w.target s.watcher_set).0;
          watchers = close_at i s.watchers;
        }
            ≡ u)
  unfolding close
  close-eq-some i s w u e c = (ground arith, ground arith)

  pub close_lem :
      (i : ℕ) (s : Watched T) (w : Watcher) (u : Watched T)
      → IsLive s
      → get_elem? s.watchers i ≡ some w
      → close update remove_target i s ≡ some u
      → ¬ Holds u.table w.target
        × (u.watcher_set.set w.target ≡ false)
        × ((watch w.target u).1 ≡ some (length u.watchers))
        × (close update remove_target i u ≡ none)
  unfolding close watch add remove
  close_lem i s w u live e c =
      let (o, same) = close-eq-some i s w u e c in
      let live' = live.one_watcher w.target in
      subst
        (λ u'.
          ¬ Holds u'.table w.target
          × (u'.watcher_set.set w.target ≡ false)
          × ((watch w.target u').1 ≡ some (length u'.watchers))
          × (close update remove_target i u' ≡ none))
        same
        (
          λ h. (table.remove_target-Holds w.target s.table w.target live.table_inv h).1 refl,
          ground (arith, live', open_count-close_at w.target i s.watchers w e o),
          ground (arith, live', open_count-close_at w.target i s.watchers w e o),
          ground (arith, get_elem?-close_at i s.watchers w e),
        )
