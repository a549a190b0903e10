-- ===== src/Routing/Patterns/Errors.antt =====
-- Which errors `PatternRouter.RouteHTTP` returns.
use grpcbridge.Base.{
  ◌==◌, List, [], ◌∷◌, Option, Bytes, Bool-cases, split, ◌≡◌, refl, arith, ◌⊎◌, inl, inr,
}
use grpcbridge.Base.Maps.{or_nil}
use grpcbridge.Desc.{Target}
use grpcbridge.Routing.{RouteError, status, invalid_argument, not_found, unavailable, err, Request}
use grpcbridge.Routing.Patterns.{
  MatchResult, matches, not_match, malformed_sequence, PatternLibrary, PatternRoute,
  TargetPatternRoutes,
}
use grpcbridge.Routing.Patterns.Matching.{
  Verdict, proceed, fail, found, request_path, judge, try_route, iterate, connect, route_path,
  route_http,
}
use grpcbridge.Routing.Patterns.Requests.{
  flatten, Decides, none_left, stops, passes, iterate-Decides,
}

-- The errors that end an iteration.
abbrev IsVerdictError : RouteError → Type 0
IsVerdictError e = (e ≡ status invalid_argument) ⊎ (e ≡ status not_found)

module _ (lib : PatternLibrary) where
  open lib use {Pattern}

  judge_fails :
      (target : Target) (route : PatternRoute Pattern) (m : MatchResult) (e : RouteError)
      → judge lib target route m ≡ fail e
      → IsVerdictError e
  unfolding judge
  judge_fails target route (matches ps) e h = cc
  judge_fails target route not_match e h = cc
  judge_fails target route malformed_sequence e h = ground arith

  try_route_fails :
      (components : List Bytes) (target : Target) (route : PatternRoute Pattern) (e : RouteError)
      → try_route lib components target route ≡ fail e
      → IsVerdictError e
  unfolding try_route
  try_route_fails components target route e h = ground arith

  Decides-fails :
      (components : List Bytes) (e : RouteError) (cs : List (Target × PatternRoute Pattern))
      → Decides lib components (fail e) cs
      → IsVerdictError e
  Decides-fails components e [] (none_left h) = cc
  Decides-fails components e (c ∷ cs) (stops _ _ h _) = try_route_fails components c.0 c.1 e h
  Decides-fails components e (c ∷ cs) (passes _ _ h d) = Decides-fails components e cs d

  module _ {Conn : Type 0} (pool_get : Bytes → Option Conn) where
    connect_errors :
        (v : Verdict) (e : RouteError)
        → ((x : RouteError) → v ≡ fail x → IsVerdictError x)
        → connect lib pool_get v ≡ err e
        → (e ≡ status invalid_argument) ⊎ (e ≡ status not_found) ⊎ (e ≡ status unavailable)
    unfolding connect
    connect_errors (fail x) e h c = ground (arith, h x refl)
    connect_errors proceed e h c = ground arith
    connect_errors (found r) e h c = ground arith

    route_path_errors :
        (table : Bytes → Option (List (TargetPatternRoutes Pattern))) (k path : Bytes)
        (e : RouteError)
        → route_path lib pool_get table k path ≡ err e
        → (e ≡ status invalid_argument) ⊎ (e ≡ status not_found) ⊎ (e ≡ status unavailable)
    unfolding route_path
    route_path_errors table k [] e h = ground arith
    route_path_errors table k (c ∷ path) e h = elim (Bool-cases (c == b'/')) [
      | inr n ↦ inl (ground arith)
      | inl y ↦
          let rest = split b'/' path in
          let v = iterate lib table k (try_route lib rest) in
          connect_errors v e
            (λ x f.
              Decides-fails rest x (flatten lib (or_nil (table k)))
                (rw f at (iterate-Decides lib table k rest)))
            (rw y at h)
    ]

    -- An error of `RouteHTTP` has one of the three documented codes.
    pub route_http_errors :
        (table : Bytes → Option (List (TargetPatternRoutes Pattern))) (r : Request) (e : RouteError)
        → route_http lib pool_get table r ≡ err e
        → (e ≡ status invalid_argument) ⊎ (e ≡ status not_found) ⊎ (e ≡ status unavailable)
    unfolding route_http
    route_http_errors table r e h = route_path_errors table r.http_method (request_path r) e h
