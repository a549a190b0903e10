-- ===== src/Routing/Services.antt =====
-- routing/service_router.go: routing by service name. The router's state is a value; an update
-- holds the mutex for its whole body. The pool's `Get` is an argument, and the watcher set is part of
-- the state in Watchers.
pub mod Owners
pub mod Requests
pub mod Lifecycle
use grpcbridge.Base.{
  ℕ, ◌==◌, if◌then◌else◌, List, [], ◌∷◌, ◌++◌, Option, none, some, true, false, Bool, ite, Bytes,
  codes, bytes_discrete, cut, equals,
}
use grpcbridge.Base.Maps.{Map, empty, put, delete, or_nil}
use grpcbridge.Desc.{Target, Service, dummy_method, default_binding}
use grpcbridge.Routing.{
  status, http_status, not_found, unimplemented, internal, unavailable, Result, ok, err, ◌>>=◌,
  or_fail, Request, GrpcRoute, HttpRoute,
}

pub record ServiceRoute : Type 0 where
  pub target : Target
  pub service : Service

pub record ServiceRouter : Type 0 where
  pub routes : Map ServiceRoute
  pub svc_routes : Map (List Bytes)

unfoldable pub new_service_router : ServiceRouter
new_service_router = record { routes = empty; svc_routes = empty }

-- The variables of the first loop of `updateRoutes`.
pub record Pass : Type 0 where
  pub routes : Map ServiceRoute
  pub present : Bytes → Bool
  pub new_svc_routes : List Bytes

-- The end of a round: the route is present and belongs to the target.
mark_present : Bytes → Pass → Pass
mark_present svc p = record p {
  present = λ s. ite (bytes_discrete s svc) true (p.present s);
  new_svc_routes = p.new_svc_routes ++ svc ∷ [];
}

-- One round of the first loop; the last argument is what `LoadOrStore` found.
visit_found : Target → Service → Pass → Option ServiceRoute → Pass
unfolding mark_present
visit_found desc svc p none =
    mark_present svc.name
      (record p { routes = put svc.name (record { target = desc; service = svc }) p.routes })
visit_found desc svc p (some route) =
    ite (bytes_discrete route.target.name desc.name) (mark_present svc.name p) p

unfoldable pub visit : Target → Service → Pass → Pass
unfolding visit_found
visit desc svc p = visit_found desc svc p (p.routes svc.name)

unfoldable pub visit_services : Target → List Service → Pass → Pass
visit_services desc [] p = p
visit_services desc (svc ∷ services) p = visit_services desc services (visit desc svc p)

-- The second loop: the routes of the last update that are no longer present go.
unfoldable pub remove_outdated : (Bytes → Bool) → List Bytes → Map ServiceRoute → Map ServiceRoute
remove_outdated present [] routes = routes
remove_outdated present (svc ∷ svcs) routes =
    remove_outdated present svcs (if present svc then routes else delete svc routes)

unfoldable pub first_pass : Target → ServiceRouter → Pass
first_pass desc sr =
    visit_services desc desc.services
      (record { routes = sr.routes; present = λ _. false; new_svc_routes = [] })

unfoldable pub update_routes : Target → ServiceRouter → ServiceRouter
unfolding first_pass
update_routes desc sr =
    let p = first_pass desc sr in
    record sr {
      routes = remove_outdated p.present (or_nil (sr.svc_routes desc.name)) p.routes;
      svc_routes = put desc.name p.new_svc_routes sr.svc_routes;
    }

unfoldable pub delete_all : List Bytes → Map ServiceRoute → Map ServiceRoute
delete_all [] routes = routes
delete_all (svc ∷ svcs) routes = delete_all svcs (delete svc routes)

unfoldable pub remove_target : Bytes → ServiceRouter → ServiceRouter
remove_target target sr = record sr {
  routes = delete_all (or_nil (sr.svc_routes target)) sr.routes;
  svc_routes = delete target sr.svc_routes;
}

-- `rpcName[1:]` after a leading slash
unfoldable pub trim_slash : Bytes → Bytes
trim_slash [] = []
trim_slash (c ∷ s) = if c == b'/' then s else c ∷ s

-- `none` stands for the result with `ok` false, whose names no caller reads.
unfoldable pub parse_rpc_name : Bytes → Option (Bytes × Bytes)
unfolding trim_slash
parse_rpc_name rpc_name = cut b'/' (trim_slash rpc_name)

module _ {Conn : Type 0} (pool_get : Bytes → Option Conn) where
  -- The argument is the method of the request's context, where it holds one.
  unfoldable pub route_grpc : ServiceRouter → Option Bytes → Result (Conn × GrpcRoute)
  route_grpc sr context_method = do
    rpc_name ← or_fail context_method (status internal)
    (svc, method) ← or_fail (parse_rpc_name rpc_name) (status unimplemented)
    route ← or_fail (sr.routes svc) (status unimplemented)
    conn ← or_fail (pool_get route.target.name) (status unavailable)
    ok (
      conn,
      record { target = route.target; service = route.service; method = dummy_method svc method },
    )

  route_post : ServiceRouter → Bytes → Result (Conn × HttpRoute)
  route_post sr rpc_name = do
    (svc, method) ← or_fail (parse_rpc_name rpc_name) (status not_found)
    route ← or_fail (sr.routes svc) (status not_found)
    conn ← or_fail (pool_get route.target.name) (status unavailable)
    let method_desc = dummy_method svc method
    ok (
      conn,
      record {
        target = route.target;
        service = route.service;
        method = method_desc;
        binding = default_binding method_desc;
        path_params = none;
      },
    )

  unfoldable pub route_http : ServiceRouter → Request → Result (Conn × HttpRoute)
  unfolding route_post
  route_http sr r =
      if equals r.http_method (codes "POST")
      then route_post sr r.raw_path
      else err (http_status 405 unimplemented)
