-- ===== src/Routing/Patterns/Matching.antt =====
-- `PatternRouter.RouteHTTP` over the routes of the request's HTTP method.
use grpcbridge.Base.{
  ℕ, ◌+◌, ◌-◌, ◌==◌, if◌then◌else◌, List, [], ◌∷◌, Option, none, some, Bool, not, ◌&&◌, Bytes,
  equals, length, take, drop, has_suffix, split, last, set_last,
}
use grpcbridge.Desc.{Target}
use grpcbridge.Routing.{
  RouteError, status, invalid_argument, not_found, unavailable, Result, ok, err, ◌>>=◌, or_fail,
  Request, HttpRoute,
}
use grpcbridge.Routing.Patterns.{
  MatchResult, matches, not_match, malformed_sequence, PatternLibrary, PatternRoute,
  TargetPatternRoutes,
}

-- What the callback of `iterate` leaves: it goes on, or stops with an error or a match.
pub data Verdict : Type 0 where
  proceed : Verdict
  fail : RouteError → Verdict
  found : HttpRoute → Verdict

abbrev pub request_path : Request → Bytes
request_path r = if equals r.raw_path [] then r.path else r.raw_path

-- Avoid returning empty maps.
abbrev pub nil_if_empty : List (Bytes × Bytes) → Option (List (Bytes × Bytes))
nil_if_empty [] = none
nil_if_empty (p ∷ ps) = some (p ∷ ps)

-- The pattern's verb stands at the end of the last component, behind a colon.
unfoldable pub ends_with_verb : Bytes → Bytes → Bool
ends_with_verb last_component pattern_verb =
    not (equals pattern_verb []) && has_suffix last_component (b':' ∷ pattern_verb)

-- `verbIdx` of a component that ends with the verb
abbrev pub verb_index : Bytes → Bytes → ℕ
verb_index last_component pattern_verb = length last_component - length pattern_verb - 1

module _ (lib : PatternLibrary) where
  open lib use {Pattern, verb, match_and_escape}

  unfoldable pub judge : Target → PatternRoute Pattern → MatchResult → Verdict
  judge target route malformed_sequence = fail (status invalid_argument)
  judge target route not_match = proceed
  judge target route (matches params) = found (record {
    target = target;
    service = route.service;
    method = route.method;
    binding = route.binding;
    path_params = nil_if_empty params;
  })

  -- The callback. Without a verb `verbIdx` is -1, which neither test accepts.
  unfoldable pub try_route : List Bytes → Target → PatternRoute Pattern → Verdict
  unfolding ends_with_verb judge
  try_route components target route =
      let last_component = last components in
      let pattern_verb = verb route.pattern_of in
      let verb_idx = verb_index last_component pattern_verb in
      if ends_with_verb last_component pattern_verb
      then (if verb_idx == 0
          then fail (status not_found)
          else judge target route (
              match_and_escape route.pattern_of (set_last (take verb_idx last_component) components)
                (drop (verb_idx + 1) last_component)))
      else judge target route (match_and_escape route.pattern_of components [])

  -- `staticPatternRoutingTable.iterate`: the inner loop over the routes of a target, and the loop
  -- over the targets of the HTTP method. The verdict is that of the call that stopped it.
  unfoldable pub iterate_routes :
      (Target → PatternRoute Pattern → Verdict) → Target → List (PatternRoute Pattern) → Verdict
  iterate_routes fn target [] = proceed
  iterate_routes fn target (route ∷ routes) =
      let rest = iterate_routes fn target routes in
      elim (fn target route) [ proceed ↦ rest | fail e ↦ fail e | found r ↦ found r ]

  unfoldable pub iterate_targets :
      (Target → PatternRoute Pattern → Verdict) → List (TargetPatternRoutes Pattern) → Verdict
  iterate_targets fn [] = proceed
  iterate_targets fn (pr ∷ prs) =
      let rest = iterate_targets fn prs in
      elim (iterate_routes fn pr.target pr.routes) [
        | proceed ↦ rest
        | fail e ↦ fail e
        | found r ↦ found r
      ]

  unfoldable pub iterate :
      (Bytes → Option (List (TargetPatternRoutes Pattern)))
      → Bytes
      → (Target → PatternRoute Pattern → Verdict)
      → Verdict
  iterate table http_method fn = elim (table http_method) [
    | none ↦ proceed
    | some list ↦ iterate_targets fn list
  ]

  module _ {Conn : Type 0} (pool_get : Bytes → Option Conn) where
    -- What follows the iteration.
    unfoldable pub connect : Verdict → Result (Conn × HttpRoute)
    connect (fail e) = err e
    connect proceed = err (status not_found)
    connect (found r) = do
      conn ← or_fail (pool_get r.target.name) (status unavailable)
      ok (conn, r)

    unfoldable pub route_path :
        (Bytes → Option (List (TargetPatternRoutes Pattern)))
        → Bytes
        → Bytes
        → Result (Conn × HttpRoute)
    unfolding connect iterate iterate_targets iterate_routes
    route_path table http_method [] = err (status invalid_argument)
    route_path table http_method (c ∷ path) =
        if c == b'/'
        then connect (iterate table http_method (try_route (split b'/' path)))
        else err (status invalid_argument)

    unfoldable pub route_http :
        (Bytes → Option (List (TargetPatternRoutes Pattern))) → Request → Result (Conn × HttpRoute)
    unfolding route_path
    route_http table r = route_path table r.http_method (request_path r)
