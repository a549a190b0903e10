-- ===== src/Routing/Watchers.antt =====
-- The life of a watcher: `Watch`, `UpdateDesc` and `Close` of routing/pattern_router.go and
-- routing/service_router.go, which differ only in the table that they update. The table, its update
-- and its removal of a target are parameters here, and each router fills them.
-- Each call is one step on the state, and a handle is the place of its watcher in `watchers`.
pub mod Live
pub mod Races
use grpcbridge.Base.{
  ℕ, zero, suc, if◌then◌else◌, List, [], ◌∷◌, ◌++◌, Option, none, some, Bool, true, false, not,
  ◌&&◌, Bytes, bytes_discrete, equals, length, ◌≡◌,
}
use grpcbridge.Desc.{Target}
use grpcbridge.SyncSet.{SyncSet, new, add, remove}

pub record Watcher : Type 0 where
  pub target : Bytes
  pub closed : Bool

-- A router with every watcher that it ever returned.
pub record Watched (T : Type 0) : Type 0 where
  pub table : T
  pub watcher_set : SyncSet Bytes
  pub watchers : List Watcher

abbrev pub get_elem? : List Watcher → ℕ → Option Watcher
get_elem? [] i = none
get_elem? (w ∷ ws) zero = some w
get_elem? (w ∷ ws) (suc i) = get_elem? ws i

-- The `CompareAndSwap(false, true)` of watcher `i`.
abbrev pub close_at : ℕ → List Watcher → List Watcher
close_at i [] = []
close_at zero (w ∷ ws) = record w { closed = true } ∷ ws
close_at (suc i) (w ∷ ws) = w ∷ close_at i ws

unfoldable pub start : {T : Type 0} → T → Watched T
unfolding new
start table = record { table = table; watcher_set = new; watchers = [] }

module _ {T : Type 0} where
  -- `none` is ErrAlreadyWatching; otherwise the handle of the new watcher.
  unfoldable pub watch : Bytes → Watched T → Watched T × Option ℕ
  watch target s =
      let (watcher_set, added) = add bytes_discrete target s.watcher_set in
      if added
      then (
        record s {
          watcher_set = watcher_set;
          watchers = s.watchers ++ (record { target = target; closed = false }) ∷ [];
        },
        some (length s.watchers),
      )
      else (s, none)

  -- The two tests at the head of `UpdateDesc`.
  unfoldable pub accepts : ℕ → Target → Watched T → Bool
  accepts i desc s = elim (get_elem? s.watchers i) [
    | none ↦ false
    | some w ↦ not w.closed && equals desc.name w.target
  ]

  module _ (update : Target → T → T) (remove_target : Bytes → T → T) where
    -- The rest of `UpdateDesc`.
    unfoldable pub apply_update : Target → Watched T → Watched T
    apply_update desc s = record s { table = update desc s.table }

    unfoldable pub update_desc : ℕ → Target → Watched T → Watched T
    unfolding accepts apply_update
    update_desc i desc s = if accepts i desc s then apply_update desc s else s

    -- `none` is the panic of a second `Close`, or that there is no such handle.
    unfoldable pub close : ℕ → Watched T → Option (Watched T)
    close i s = elim (get_elem? s.watchers i) [
      | none ↦ none
      | some w ↦
          if w.closed
          then none
          else some (record {
            table = remove_target w.target s.table;
            watcher_set = (remove bytes_discrete w.target s.watcher_set).0;
            watchers = close_at i s.watchers;
          })
    ]

    -- The calls that a program can make on the router and its watchers.
    pub data Step (s u : Watched T) : Type 0 where
      watches : (target : Bytes) → u ≡ (watch target s).0 → Step s u
      updates : (i : ℕ) (desc : Target) → u ≡ update_desc i desc s → Step s u
      closes : (i : ℕ) → close i s ≡ some u → Step s u

    pub data Reach (s : Watched T) : Watched T → Type 0 where
      here : Reach s s
      next : {u v : Watched T} → Reach s u → Step u v → Reach s v
