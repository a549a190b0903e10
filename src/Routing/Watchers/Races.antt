-- ===== src/Routing/Watchers/Races.antt =====
-- Calls from several goroutines. `UpdateDesc` reads the closed flag and only later takes the lock of
-- the table, so another call can come between its tests and its update.
use grpcbridge.Base.{ℕ, List, [], ◌∷◌, ◌++◌, some, true, Bytes, ◌≡◌, refl}
use grpcbridge.Desc.{Target}
use grpcbridge.Routing.Watchers.{Watched, accepts, apply_update, close, Step, closes}

-- A router and the updates that have passed the tests and not yet reached the table.
pub record Running (T : Type 0) : Type 0 where
  pub router : Watched T
  pub pending : List Target

module _ {T : Type 0} (update : Target → T → T) (remove_target : Bytes → T → T) where
  pub data RaceStep (r q : Running T) : Type 0 where
    calls : Step update remove_target r.router q.router → q.pending ≡ r.pending → RaceStep r q
    begins :
        (i : ℕ) (desc : Target)
        → accepts i desc r.router ≡ true
        → q ≡ record { router = r.router; pending = desc ∷ r.pending }
        → RaceStep r q
    finishes :
        (before after : List Target) (desc : Target)
        → r.pending ≡ before ++ desc ∷ after
        → q ≡ record {
          router = apply_update update remove_target desc r.router;
          pending = before ++ after;
        }
        → RaceStep r q

  pub data RaceReach (r : Running T) : Running T → Type 0 where
    here : RaceReach r r
    next : {p q : Running T} → RaceReach r p → RaceStep p q → RaceReach r q

  -- An update that has passed its tests can reach the table after the watcher is closed.
  pub late_update :
      (i : ℕ) (desc : Target) (s u : Watched T)
      → accepts i desc s ≡ true
      → close update remove_target i s ≡ some u
      → RaceReach
          (record { router = s; pending = [] })
          (record { router = apply_update update remove_target desc u; pending = [] })
  late_update i desc s u accepted closed =
      let passed : Running T = record { router = s; pending = desc ∷ [] } in
      let shut : Running T = record { router = u; pending = desc ∷ [] } in
      next {p = shut}
        (next {p = passed} (next here (begins i desc accepted refl)) (calls (closes i closed) refl))
        (finishes [] [] desc refl refl)
