-- ===== src/Routing/Patterns/Requests.antt =====
-- How `PatternRouter` answers a request: the first route that does not let it pass decides.
use grpcbridge.Base.{
  if◌then◌else◌, List, [], ◌∷◌, ◌++◌, Option, true, Bytes, equals, length, length-append,
  take-append, drop_after, has_suffix-append, split, last, set_last, ◌≡◌, ◌≢◌, refl, arith, inl,
  inr, Option-cases,
}
use grpcbridge.Base.Maps.{or_nil}
use grpcbridge.Desc.{Target}
use grpcbridge.Routing.{status, not_found, Request}
use grpcbridge.Routing.Patterns.{PatternLibrary, PatternRoute, TargetPatternRoutes}
use grpcbridge.Routing.Patterns.Matching.{
  Verdict, proceed, fail, found, request_path, ends_with_verb, verb_index, judge, try_route,
  iterate_routes, iterate_targets, iterate, connect, route_http,
}

length-eq-zero : (s : Bytes) → length s ≡ 0 → s ≡ []
length-eq-zero [] h = refl
length-eq-zero (x ∷ s) h = absurd (omega arith)

-- The index of the verb is the length of what stands before it.
verb_index-append : (stem verb : Bytes) → verb_index (stem ++ b':' ∷ verb) verb ≡ length stem
verb_index-append stem verb = omega (arith, length-append stem (b':' ∷ verb))

ends_with_verb-append :
    (stem verb : Bytes) → verb ≢ [] → ends_with_verb (stem ++ b':' ∷ verb) verb ≡ true
unfolding ends_with_verb
ends_with_verb-append stem verb h = ground (arith, has_suffix-append stem (b':' ∷ verb))

module _ (lib : PatternLibrary) where
  open lib use {Pattern, verb, match_and_escape}

  -- A last component that ends with a colon and the pattern's verb is matched without them, with the
  -- verb given apart; where nothing stands before the colon the request is refused.
  pub try_route_verb :
      (components : List Bytes) (target : Target) (route : PatternRoute Pattern) (stem : Bytes)
      → last components ≡ stem ++ b':' ∷ verb route.pattern_of
      → verb route.pattern_of ≢ []
      → try_route lib components target route ≡ (
          if equals stem []
          then fail (status not_found)
          else judge lib target route (
              match_and_escape route.pattern_of (set_last stem components) (verb route.pattern_of)))
  unfolding try_route
  try_route_verb components target route stem e h =
      let v = verb route.pattern_of in
      let idx = verb_index-append stem v in
      rw (e, try_route)
        (rw
          (idx, ends_with_verb-append stem v h, take-append stem (b':' ∷ v), drop_after stem v b':')
          (ground (arith, length-eq-zero stem)))

  -- The routes of a method's targets, in the order of the two loops.
  abbrev pub pairs : Target → List (PatternRoute Pattern) → List (Target × PatternRoute Pattern)
  pairs target [] = []
  pairs target (route ∷ routes) = (target, route) ∷ pairs target routes

  abbrev pub flatten : List (TargetPatternRoutes Pattern) → List (Target × PatternRoute Pattern)
  flatten [] = []
  flatten (pr ∷ prs) = pairs pr.target pr.routes ++ flatten prs

  abbrev pub attempt : List Bytes → Target × PatternRoute Pattern → Verdict
  attempt components (target, route) = try_route lib components target route

  -- The verdict of the list: that of the first route that does not let the request pass.
  pub data Decides (components : List Bytes) (v : Verdict)
      : List (Target × PatternRoute Pattern) → Type 0 where
    none_left : v ≡ proceed → Decides components v []
    stops :
        (c : Target × PatternRoute Pattern) (cs : List (Target × PatternRoute Pattern))
        → attempt components c ≡ v
        → v ≢ proceed
        → Decides components v (c ∷ cs)
    passes :
        (c : Target × PatternRoute Pattern) (cs : List (Target × PatternRoute Pattern))
        → attempt components c ≡ proceed
        → Decides components v cs
        → Decides components v (c ∷ cs)

  abbrev then_else : Verdict → Verdict → Verdict
  then_else proceed rest = rest
  then_else (fail e) rest = fail e
  then_else (found r) rest = found r

  -- A verdict of a first list, and where that lets the request pass, one of a second.
  Decides-append :
      (components : List Bytes) (v w : Verdict) (xs ys : List (Target × PatternRoute Pattern))
      → Decides components v xs
      → Decides components w ys
      → Decides components (then_else v w) (xs ++ ys)
  Decides-append components v w [] ys (none_left e) d = rw e d
  Decides-append components proceed w (c ∷ xs) ys (stops _ _ e h) d = absurd (h refl)
  Decides-append components (fail x) w (c ∷ xs) ys (stops _ _ e h) d = stops c (xs ++ ys) e h
  Decides-append components (found x) w (c ∷ xs) ys (stops _ _ e h) d = stops c (xs ++ ys) e h
  Decides-append components v w (c ∷ xs) ys (passes _ _ e r) d =
      passes c (xs ++ ys) e (Decides-append components v w xs ys r d)

  iterate_routes-Decides :
      (components : List Bytes) (target : Target) (routes : List (PatternRoute Pattern))
      → Decides components
          (iterate_routes lib (try_route lib components) target routes)
          (pairs target routes)
  unfolding iterate_routes
  iterate_routes-Decides components target [] = none_left refl
  iterate_routes-Decides components target (route ∷ routes) =
      Decides-step (try_route lib components target route) refl
        (iterate_routes-Decides components target routes)
    where
      Decides-step :
          (x : Verdict)
          → try_route lib components target route ≡ x
          → Decides components
              (iterate_routes lib (try_route lib components) target routes)
              (pairs target routes)
          → Decides components
              (iterate_routes lib (try_route lib components) target (route ∷ routes))
              ((target, route) ∷ pairs target routes)
      Decides-step proceed e d = rw (e, iterate_routes) (passes _ _ e d)
      Decides-step (fail x) e d = rw (e, iterate_routes) (stops _ _ e (λ n. cc))
      Decides-step (found x) e d = rw (e, iterate_routes) (stops _ _ e (λ n. cc))

  iterate_targets-then_else :
      (fn : Target → PatternRoute Pattern → Verdict) (pr : TargetPatternRoutes Pattern)
      (prs : List (TargetPatternRoutes Pattern))
      → iterate_targets lib fn (pr ∷ prs)
        ≡ then_else (iterate_routes lib fn pr.target pr.routes) (iterate_targets lib fn prs)
  unfolding iterate_targets
  iterate_targets-then_else fn pr prs = ground arith

  iterate_targets-Decides :
      (components : List Bytes) (prs : List (TargetPatternRoutes Pattern))
      → Decides components (iterate_targets lib (try_route lib components) prs) (flatten prs)
  unfolding iterate_targets
  iterate_targets-Decides components [] = none_left refl
  iterate_targets-Decides components (pr ∷ prs) =
      rw (iterate_targets-then_else (try_route lib components) pr prs) (
        Decides-append components _ _ _ _ (iterate_routes-Decides components pr.target pr.routes)
          (iterate_targets-Decides components prs))

  pub iterate-Decides :
      (table : Bytes → Option (List (TargetPatternRoutes Pattern))) (k : Bytes)
      (components : List Bytes)
      → Decides components
          (iterate lib table k (try_route lib components))
          (flatten (or_nil (table k)))
  unfolding iterate
  iterate-Decides table k components = elim (Option-cases (table k)) [
    | inl e ↦ rw (e, iterate) (none_left refl)
    | inr (prs, e) ↦ rw (e, iterate) (iterate_targets-Decides components prs)
  ]

  module _ {Conn : Type 0} (pool_get : Bytes → Option Conn) where
    -- A request whose path begins with a slash gets the answer for the verdict of the first route of
    -- its HTTP method, target after target, that does not let it pass, or for no verdict if there is
    -- none.
    pub route_http-Decides :
        (table : Bytes → Option (List (TargetPatternRoutes Pattern))) (r : Request) (path : Bytes)
        → request_path r ≡ b'/' ∷ path
        → (v : Verdict) × Decides (split b'/' path) v (flatten (or_nil (table r.http_method)))
          × (route_http lib pool_get table r ≡ connect lib pool_get v)
    unfolding route_http
    route_http-Decides table r path e = (
      iterate lib table r.http_method (try_route lib (split b'/' path)),
      iterate-Decides table r.http_method (split b'/' path),
      rw (e, route_http),
    )
