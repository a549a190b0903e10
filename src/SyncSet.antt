-- ===== src/SyncSet.antt =====
-- internal/syncset/syncset.go: a set behind a mutex. Each method holds the mutex for its whole
-- body, so it is one step on the state. A map with empty values is a Boolean function.
use grpcbridge.Base.{Bool, true, false, not, ite, ◌≡◌, refl, arith, inl, inr, Bool-cases}

pub record SyncSet (K : Type 0) : Type 0 where
  pub set : K → Bool

unfoldable pub new : {K : Type 0} → SyncSet K
new = record { set = λ _. false }

module _ {K : Type 0} (key : Discrete K) where
  abbrev with_key : K → Bool → SyncSet K → SyncSet K
  with_key k b ss = record { set = λ j. ite (key j k) b (ss.set j) }

  unfoldable pub add : K → SyncSet K → SyncSet K × Bool
  add k ss = elim (ss.set k) [ true ↦ (ss, false) | false ↦ (with_key k true ss, true) ]

  unfoldable pub remove : K → SyncSet K → SyncSet K × Bool
  remove k ss = elim (ss.set k) [ false ↦ (ss, false) | true ↦ (with_key k false ss, true) ]

  -- After `Add` exactly the key is new in the set, and the result says whether it was absent.
  pub add_lem :
      (k j : K) (ss : SyncSet K)
      → ((add k ss).0.set j ≡ ite (key j k) true (ss.set j)) × ((add k ss).1 ≡ not (ss.set k))
  unfolding add
  add_lem k j ss = elim (Bool-cases (ss.set k)) [
    | inl e ↦ rw (e, add) (ground arith, refl)
    | inr e ↦ rw (e, add) (refl, refl)
  ]

  -- After `Remove` exactly the key is gone, and the result says whether it was present.
  pub remove_lem :
      (k j : K) (ss : SyncSet K)
      → ((remove k ss).0.set j ≡ ite (key j k) false (ss.set j)) × ((remove k ss).1 ≡ ss.set k)
  unfolding remove
  remove_lem k j ss = ground arith
