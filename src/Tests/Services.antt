-- ===== src/Tests/Services.antt =====
-- `ServiceRouter` with two targets.
use grpcbridge.Base.{
  ℕ, [], ◌∷◌, Option, none, some, true, false, Bytes, codes, bytes_discrete, ite, contains, cut,
  Lacks, ◌≡◌, ◌≢◌, refl, arith,
}
use grpcbridge.Desc.{Target, Service, canonical_rpc_name, dummy_method}
use grpcbridge.SyncSet.{new, add, remove}
use grpcbridge.Routing.{ok, Request}
use grpcbridge.Routing.Watchers.{
  Watched, Watcher, start, watch, accepts, close, watches, Reach, here, next,
}
use grpcbridge.Routing.Watchers.Live.{IsLive}
use grpcbridge.Routing.Watchers.Races.{Running, RaceReach}
use grpcbridge.Routing.Services.{
  ServiceRoute, ServiceRouter, new_service_router, update_routes, remove_target, visit,
  visit_services, delete_all, remove_outdated, first_pass, trim_slash, parse_rpc_name, route_grpc,
}
use grpcbridge.Routing.Services.Owners.{
  IsConsistent, find_service, assigned, routes-update_routes, update_routes-IsConsistent,
}
use grpcbridge.Routing.Services.Requests.{route_grpc-update_routes_stale, route_grpc-remove_target}
use grpcbridge.Routing.Services.Lifecycle.{
  new_watched_router, service_table, service_watch, service_close, Routes, Reach-service-IsLive,
  service_close_lem, service_late_update,
}

abbrev users : Service
users = record { name = codes "shop.Users"; methods = [] }

abbrev orders : Service
orders = record { name = codes "shop.Orders"; methods = [] }

abbrev shop : Target
shop = record { name = codes "shop"; services = users ∷ [] }

abbrev bigger_shop : Target
bigger_shop = record { name = codes "shop"; services = users ∷ orders ∷ [] }

abbrev pool : Bytes → Option ℕ
pool t = ite (bytes_discrete t (codes "shop")) (some 7) none

abbrev routed : ServiceRouter
routed = update_routes shop new_service_router

new_service_router-IsConsistent : IsConsistent new_service_router
unfolding new_service_router contains
new_service_router-IsConsistent t svc = refl

routed-IsConsistent : IsConsistent routed
routed-IsConsistent =
    update_routes-IsConsistent shop new_service_router new_service_router-IsConsistent

shop_route : ServiceRoute
shop_route = record { target = shop; service = users }

routed_users : routed.routes (codes "shop.Users") ≡ some (record { target = shop; service = users })
unfolding update_routes new_service_router bytes_discrete visit visit_services remove_outdated
    first_pass contains
routed_users = refl

users-Lacks_slash : Lacks b'/' (codes "shop.Users")
users-Lacks_slash = ground arith

routes-update_routes_example :
    (update_routes bigger_shop routed).routes (codes "shop.Users")
    ≡ assigned bigger_shop
        (find_service (codes "shop.Users") bigger_shop.services)
        (routed.routes (codes "shop.Users"))
routes-update_routes_example =
    routes-update_routes bigger_shop routed (codes "shop.Users") routed-IsConsistent

abbrev shop_again : Target
shop_again = record {
  name = codes "shop";
  services = record users { methods = dummy_method (codes "shop.Users") (codes "Get") ∷ [] } ∷ [];
}

route_grpc-update_routes_stale_example :
    route_grpc pool
      (update_routes shop_again routed)
      (some (canonical_rpc_name (codes "shop.Users") (codes "Get")))
    ≡ ok (
      7,
      record {
        target = shop;
        service = users;
        method = dummy_method (codes "shop.Users") (codes "Get");
      },
    )
unfolding bytes_discrete
route_grpc-update_routes_stale_example =
    route_grpc-update_routes_stale pool routed shop_again (codes "shop.Users") (codes "Get")
      (record { target = shop; service = users })
      (record users { methods = dummy_method (codes "shop.Users") (codes "Get") ∷ [] }) 7
      routed-IsConsistent users-Lacks_slash routed_users refl refl refl

users_answer_without_crm :
    route_grpc pool
      (remove_target (codes "crm") routed)
      (some (canonical_rpc_name (codes "shop.Users") (codes "Get")))
    ≡ ok (
      7,
      record {
        target = shop;
        service = users;
        method = dummy_method (codes "shop.Users") (codes "Get");
      },
    )
unfolding route_grpc parse_rpc_name cut canonical_rpc_name trim_slash remove_target delete_all
    update_routes new_service_router bytes_discrete visit visit_services remove_outdated first_pass
    contains
users_answer_without_crm = refl

route_grpc-remove_target_example :
    ((let t : Target = shop in t.name) ≢ codes "crm")
    × (route_grpc pool routed (some (canonical_rpc_name (codes "shop.Users") (codes "Get")))
        ≡ ok (
          7,
          record {
            target = shop;
            service = users;
            method = dummy_method (codes "shop.Users") (codes "Get");
          },
        ))
route_grpc-remove_target_example =
    route_grpc-remove_target pool routed (codes "crm")
      (some (canonical_rpc_name (codes "shop.Users") (codes "Get"))) 7
      (record {
        target = shop;
        service = users;
        method = dummy_method (codes "shop.Users") (codes "Get");
      })
      routed-IsConsistent users_answer_without_crm

abbrev post : Request
post = record { http_method = codes "POST"; path = codes "/shop.Users/Get"; raw_path = [] }

abbrev watching : Watched ServiceRouter
watching = (service_watch (codes "shop") new_watched_router).0

Reach-watching : Reach update_routes remove_target new_watched_router watching
Reach-watching = next here (watches (codes "shop") refl)

watching-IsLive : IsLive service_table watching
watching-IsLive = Reach-service-IsLive Reach-watching

Reach-service-IsLive_example : IsLive service_table watching
Reach-service-IsLive_example = Reach-service-IsLive Reach-watching

abbrev shop_watcher : Watcher
shop_watcher = record { target = codes "shop"; closed = false }

abbrev closed_shop : Watched ServiceRouter
closed_shop = record {
  table = remove_target (codes "shop") new_service_router;
  watcher_set = (remove bytes_discrete (codes "shop") watching.watcher_set).0;
  watchers = record { target = codes "shop"; closed = true } ∷ [];
}

service_close_lem_example :
    ¬ Routes closed_shop.table (codes "shop")
    × (closed_shop.watcher_set.set (codes "shop") ≡ false)
    × ((service_watch (codes "shop") closed_shop).1 ≡ some 1)
    × (service_close 0 closed_shop ≡ none)
unfolding watch start new add close bytes_discrete
service_close_lem_example =
    service_close_lem 0 watching shop_watcher closed_shop watching-IsLive refl refl

service_late_update_example :
    (q : Running ServiceRouter) × RaceReach update_routes remove_target
      (record { router = watching; pending = [] })
      q
    × (q.router.table.routes (codes "shop.Users")
        ≡ some (record { target = shop; service = users }))
    × (q.router.watcher_set.set (codes "shop") ≡ false)
unfolding watch start new add close bytes_discrete accepts remove_target delete_all
    new_service_router
service_late_update_example =
    service_late_update 0 shop watching closed_shop (codes "shop.Users") users watching-IsLive refl
      refl refl refl
