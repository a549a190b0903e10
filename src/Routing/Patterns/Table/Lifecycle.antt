-- ===== src/Routing/Patterns/Table/Lifecycle.antt =====
-- `PatternRouter` behind its watchers: the routes of a target are there only while it is watched, and
-- no sequence of calls makes the table panic.
use grpcbridge.Base.{
  List, [], ◌∷◌, ◌++◌, Option, none, some, true, Bytes, ◌≡◌, ◌≢◌, refl, arith, ◌⊎◌, inl, inr,
}
use grpcbridge.Base.Maps.{or_nil}
use grpcbridge.Desc.{Target}
use grpcbridge.Routing.Patterns.{PatternLibrary, PatternRoute, TargetPatternRoutes}
use grpcbridge.Routing.Patterns.Builder.{find, build_pattern_routes}
use grpcbridge.Routing.Patterns.Builder.Candidates.{nonempty, build_pattern_routes-HasUniqueKeys}
use grpcbridge.Routing.Patterns.Table.{Table, new_table, add_target, remove_target}
use grpcbridge.Routing.Patterns.Table.Lists.{without, replace, has_target}
use grpcbridge.Routing.Patterns.Table.Invariant.{IsLinked, new_table-IsLinked}
use grpcbridge.Routing.Patterns.Table.Refinement.{
  updated_entries, add_target_lem, remove_target_lem,
}
use grpcbridge.Routing.Watchers.{Watched, start, Reach}
use grpcbridge.Routing.Watchers.Live

or_nil-nonempty : {A : Type 0} (l : List A) → or_nil (nonempty l) ≡ l
or_nil-nonempty [] = refl
or_nil-nonempty (x ∷ l) = refl

module _ {P : Type 0} where
  has_target-without :
      (u t : Bytes) (vs : List (TargetPatternRoutes P))
      → has_target u (without t vs) ≡ true
      → (has_target u vs ≡ true) × (u ≢ t)
  has_target-without u t [] h = cc
  has_target-without u t (v ∷ vs) h = ground (arith, has_target-without u t vs)

  has_target-replace :
      (u t : Bytes) (w : TargetPatternRoutes P) (vs : List (TargetPatternRoutes P))
      → has_target u (replace t w vs) ≡ true
      → (u ≡ w.target.name) ⊎ (has_target u vs ≡ true)
  has_target-replace u t w [] h = cc
  has_target-replace u t w (v ∷ vs) h = ground (arith, has_target-replace u t w vs)

  has_target-append :
      (u : Bytes) (w : TargetPatternRoutes P) (vs : List (TargetPatternRoutes P))
      → has_target u (vs ++ w ∷ []) ≡ true
      → (u ≡ w.target.name) ⊎ (has_target u vs ≡ true)
  has_target-append u w [] h = ground arith
  has_target-append u w (v ∷ vs) h = ground (arith, has_target-append u w vs)

  has_target-updated_entries :
      (u : Bytes) (target : Target) (p : Option (List (PatternRoute P)))
      (vs : List (TargetPatternRoutes P))
      → has_target u (updated_entries target p vs) ≡ true
      → (u ≡ target.name) ⊎ (has_target u vs ≡ true)
  unfolding updated_entries
  has_target-updated_entries u target none vs h = inr (has_target-without u target.name vs h).0
  has_target-updated_entries u target (some prs) vs h =
      let w : TargetPatternRoutes P = record { target = target; routes = prs } in
      ground (arith, has_target-replace u target.name w vs, has_target-append u w vs)

  -- A router whose table has panicked is no valid router.
  abbrev pub IsRouter : Option (Table P) → Type 0
  IsRouter none = ⊥
  IsRouter (some mt) = IsLinked mt

  -- The target has routes for some HTTP method.
  abbrev pub RoutesTo : Option (Table P) → Bytes → Type 0
  RoutesTo none t = ⊥
  RoutesTo (some mt) t = (m : Bytes) × (has_target t (or_nil (mt.static m)) ≡ true)

  abbrev pub remove_routes : Bytes → Option (Table P) → Option (Table P)
  remove_routes t none = none
  remove_routes t (some mt) = remove_target t mt

module _ (lib : PatternLibrary) where
  open lib use {Pattern}

  -- `UpdateDesc` behind its tests.
  abbrev pub update_routes : Target → Option (Table Pattern) → Option (Table Pattern)
  update_routes desc none = none
  update_routes desc (some mt) = add_target desc (build_pattern_routes lib desc) mt

  pub update_routes-IsRouter :
      (desc : Target) (x : Option (Table Pattern)) → IsRouter x → IsRouter (update_routes desc x)
  update_routes-IsRouter desc none v = v
  update_routes-IsRouter desc (some mt) v =
      let (mt', e, v', s) =
        add_target_lem desc (build_pattern_routes lib desc) mt
          (build_pattern_routes-HasUniqueKeys lib desc) v in
      rw e v'

  pub remove_routes-IsRouter :
      (t : Bytes) (x : Option (Table Pattern)) → IsRouter x → IsRouter (remove_routes t x)
  remove_routes-IsRouter t none v = v
  remove_routes-IsRouter t (some mt) v = let (mt', e, v', s) = remove_target_lem t mt v in rw e v'

  pub update_routes-RoutesTo :
      (desc : Target) (x : Option (Table Pattern)) (t : Bytes)
      → IsRouter x
      → RoutesTo (update_routes desc x) t
      → (t ≡ desc.name) ⊎ RoutesTo x t
  update_routes-RoutesTo desc none t v h = elim v [ ]
  update_routes-RoutesTo desc (some mt) t v h =
      let new = build_pattern_routes lib desc in
      let (mt', e, v', s) =
        add_target_lem desc new mt (build_pattern_routes-HasUniqueKeys lib desc) v in
      let (m, there) : RoutesTo (some mt') t = rw e at h in
      let entries = rw (s m, or_nil-nonempty) at there in
      elim (has_target-updated_entries t desc (find m new) (or_nil (mt.static m)) entries) [
        | inl own ↦ inl own
        | inr old ↦ inr (m, old)
      ]

  pub remove_routes-RoutesTo :
      (u : Bytes) (x : Option (Table Pattern)) (t : Bytes)
      → IsRouter x
      → RoutesTo (remove_routes u x) t
      → RoutesTo x t × (t ≢ u)
  remove_routes-RoutesTo u none t v h = elim v [ ]
  remove_routes-RoutesTo u (some mt) t v h =
      let (mt', e, v', s) = remove_target_lem u mt v in
      let (m, there) : RoutesTo (some mt') t = rw e at h in
      let old =
        has_target-without t u (or_nil (mt.static m)) (rw (s m, or_nil-nonempty) at there) in
      ((m, old.0), old.1)

  abbrev pub pattern_table : Live.Table (Option (Table Pattern))
  pattern_table = record {
    update = update_routes;
    remove_target = remove_routes;
    Inv = IsRouter;
    Holds = RoutesTo;
    update-Inv = update_routes-IsRouter;
    remove_target-Inv = remove_routes-IsRouter;
    update-Holds = update_routes-RoutesTo;
    remove_target-Holds = remove_routes-RoutesTo;
  }

  abbrev pub new_pattern_router : Watched (Option (Table Pattern))
  new_pattern_router = start (some new_table)

  -- After any sequence of Watch, UpdateDesc and Close calls on a new PatternRouter, the table has
  -- not panicked and satisfies its invariant, each target has one open watcher if it is in the
  -- watcher set and none otherwise, and every target with routes is in the watcher set.
  pub Reach-pattern-IsLive :
      {s : Watched (Option (Table Pattern))}
      → Reach update_routes remove_routes new_pattern_router s
      → Live.IsLive pattern_table s
  unfolding new_table
  Reach-pattern-IsLive r =
      Live.Reach-IsLive pattern_table r
        (Live.start-IsLive pattern_table (some new_table) new_table-IsLinked (λ t h. ground arith))
