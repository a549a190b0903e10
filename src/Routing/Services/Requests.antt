-- ===== src/Routing/Services/Requests.antt =====
-- How `ServiceRouter` answers a request, and how updates change the answers.
use grpcbridge.Base.{
  [], ◌∷◌, ◌++◌, Option, none, some, Bytes, ◌≡◌, ◌≢◌, refl, arith, cut, cut_found, cut_cases, Lacks,
  codes, inl, inr, ◌⊎◌, Option-cases, ◌∙◌, ap,
}
use grpcbridge.Desc.{Target, Service, canonical_rpc_name, dummy_method, default_binding}
use grpcbridge.Routing.{
  status, not_found, unimplemented, unavailable, Result, ok, err, Request, GrpcRoute, HttpRoute,
}
use grpcbridge.Routing.Services.{
  ServiceRoute, ServiceRouter, update_routes, remove_target, trim_slash, parse_rpc_name, route_grpc,
  route_http,
}
use grpcbridge.Routing.Services.Owners.{
  IsConsistent, find_service, assigned, routes-update_routes, routes-remove_target,
}

-- A method name in either form names its service and method, when the service has no slash.
pub parse_rpc_name-canonical_rpc_name :
    (svc method : Bytes)
    → Lacks b'/' svc
    → parse_rpc_name (canonical_rpc_name svc method) ≡ some (svc, method)
unfolding parse_rpc_name canonical_rpc_name
parse_rpc_name-canonical_rpc_name svc method h = cut_found b'/' svc method h

trim_slash_cases : (s : Bytes) → (s ≡ b'/' ∷ trim_slash s) ⊎ (s ≡ trim_slash s)
unfolding trim_slash
trim_slash_cases [] = inr refl
trim_slash_cases (c ∷ s) = ground arith

-- Whatever is accepted is a method name in one of the two forms, and no slash stands in its service.
pub parse_rpc_name_sound :
    (rpc_name svc method : Bytes)
    → parse_rpc_name rpc_name ≡ some (svc, method)
    → Lacks b'/' svc
      × ((rpc_name ≡ canonical_rpc_name svc method) ⊎ (rpc_name ≡ svc ++ b'/' ∷ method))
unfolding parse_rpc_name canonical_rpc_name
parse_rpc_name_sound rpc_name svc method h = elim (cut_cases b'/' (trim_slash rpc_name)) [
  | inl (n, l) ↦ cc
  | inr (a, b, n, p, l) ↦
      let ea : svc ≡ a = ground arith in
      let eb : method ≡ b = ground arith in
      rw (ea, eb) (l, ground (arith, trim_slash_cases rpc_name))
]

module _ {Conn : Type 0} (pool_get : Bytes → Option Conn) where
  -- What a request for a method of the service gets, by the table and the pool.
  pub answer : ServiceRouter → Bytes → Bytes → Result (Conn × GrpcRoute)
  answer sr svc method = elim (sr.routes svc) [
    | none ↦ err (status unimplemented)
    | some route ↦ elim (pool_get route.target.name) [
      | none ↦ err (status unavailable)
      | some conn ↦ ok (
        conn,
        record { target = route.target; service = route.service; method = dummy_method svc method },
      )
    ]
  ]

  route_grpc-parsed :
      (sr : ServiceRouter) (rpc svc method : Bytes)
      → parse_rpc_name rpc ≡ some (svc, method)
      → route_grpc pool_get sr (some rpc) ≡ answer sr svc method
  unfolding route_grpc answer
  route_grpc-parsed sr rpc svc method h = ground arith

  pub route_grpc-update_routes :
      (sr : ServiceRouter) (desc : Target) (svc method : Bytes) (s : Service) (conn : Conn)
      → IsConsistent sr
      → Lacks b'/' svc
      → sr.routes svc ≡ none
      → find_service svc desc.services ≡ some s
      → pool_get desc.name ≡ some conn
      → route_grpc pool_get (update_routes desc sr) (some (canonical_rpc_name svc method))
        ≡ ok (conn, record { target = desc; service = s; method = dummy_method svc method })
  unfolding answer assigned
  route_grpc-update_routes sr desc svc method s conn inv l free found pooled =
      route_grpc-parsed (update_routes desc sr) _ svc method
        (parse_rpc_name-canonical_rpc_name svc method l)
      ∙ ground (arith, routes-update_routes desc sr svc inv)

  -- In a consistent router, after an update a request for a listed service that the target already
  -- had is still answered with the earlier target and service descriptions.
  pub route_grpc-update_routes_stale :
      (sr : ServiceRouter) (desc : Target) (svc method : Bytes) (old : ServiceRoute) (s : Service)
      (conn : Conn)
      → IsConsistent sr
      → Lacks b'/' svc
      → sr.routes svc ≡ some old
      → old.target.name ≡ desc.name
      → find_service svc desc.services ≡ some s
      → pool_get desc.name ≡ some conn
      → route_grpc pool_get (update_routes desc sr) (some (canonical_rpc_name svc method))
        ≡ ok (
          conn,
          record { target = old.target; service = old.service; method = dummy_method svc method },
        )
  unfolding answer assigned
  route_grpc-update_routes_stale sr desc svc method old s conn inv l has same found pooled =
      route_grpc-parsed (update_routes desc sr) _ svc method
        (parse_rpc_name-canonical_rpc_name svc method l)
      ∙ ground (arith, routes-update_routes desc sr svc inv, ap pool_get same)

  -- In a consistent router, a request that is routed after the removal of a target goes to another
  -- target, exactly as it did before.
  pub route_grpc-remove_target :
      (sr : ServiceRouter) (t : Bytes) (context_method : Option Bytes) (conn : Conn)
      (route : GrpcRoute)
      → IsConsistent sr
      → route_grpc pool_get (remove_target t sr) context_method ≡ ok (conn, route)
      → (route.target.name ≢ t) × (route_grpc pool_get sr context_method ≡ ok (conn, route))
  unfolding route_grpc
  route_grpc-remove_target sr t none conn route inv h = cc
  route_grpc-remove_target sr t (some rpc) conn route inv h =
      elim (Option-cases (parse_rpc_name rpc)) [
        | inl e ↦ absurd (ground arith)
        | inr ((svc, method), e) ↦ ground (arith, routes-remove_target t sr svc inv)
      ]

  -- The HTTP answer that corresponds to a gRPC answer.
  pub as_http : Result (Conn × GrpcRoute) → Result (Conn × HttpRoute)
  as_http (ok (conn, r)) = ok (
    conn,
    record {
      target = r.target;
      service = r.service;
      method = r.method;
      binding = default_binding r.method;
      path_params = none;
    },
  )
  as_http (err (status unavailable)) = err (status unavailable)
  as_http (err _) = err (status not_found)

  pub route_http-route_grpc :
      (sr : ServiceRouter) (r : Request)
      → r.http_method ≡ codes "POST"
      → route_http pool_get sr r ≡ as_http (route_grpc pool_get sr (some r.raw_path))
  unfolding route_http route_grpc as_http
  route_http-route_grpc sr r post = ground arith

  -- A request whose URL has no raw path is never routed, whatever its path.
  pub route_http_no_raw_path :
      (sr : ServiceRouter) (r : Request)
      → r.http_method ≡ codes "POST"
      → r.raw_path ≡ []
      → route_http pool_get sr r ≡ err (status not_found)
  unfolding route_http parse_rpc_name cut
  route_http_no_raw_path sr r post raw = ground arith
