-- ===== src/Routing/Services/Lifecycle.antt =====
-- `ServiceRouter` behind its watchers: `Watch`, and `UpdateDesc` and `Close` of
-- `ServiceRouterWatcher`, as calls on the router's table.
use grpcbridge.Base.{
  ℕ, [], Option, none, some, true, false, Bytes, length, ◌≡◌, ◌≢◌, refl, arith, ◌⊎◌, inl, inr,
  Bool-cases, contains,
}
use grpcbridge.Desc.{Target, Service}
use grpcbridge.Routing.Watchers.{
  Watcher, get_elem?, Watched, start, watch, accepts, apply_update, update_desc, close, Reach,
}
use grpcbridge.Routing.Watchers.Live.{
  Table, IsLive, Reach-IsLive, start-IsLive, close_lem, close-IsLive, accepts-target,
}
use grpcbridge.Routing.Watchers.Races.{Running, RaceReach, late_update}
use grpcbridge.Routing.Services.{ServiceRouter, new_service_router, update_routes, remove_target}
use grpcbridge.Routing.Services.Owners.{
  owned_by, IsConsistent, find_service, assigned, routes-update_routes, routes-remove_target,
  update_routes-IsConsistent, remove_target-IsConsistent,
}

-- Some service is routed to the target.
abbrev pub Routes : ServiceRouter → Bytes → Type 0
Routes sr t = (svc : Bytes) × (owned_by t (sr.routes svc) ≡ true)

pub update_routes-Routes :
    (desc : Target) (sr : ServiceRouter) (t : Bytes)
    → IsConsistent sr
    → Routes (update_routes desc sr) t
    → (t ≡ desc.name) ⊎ Routes sr t
unfolding assigned
update_routes-Routes desc sr t inv (svc, h) = elim (Bool-cases (owned_by t (sr.routes svc))) [
  | inl old ↦ inr (svc, old)
  | inr fresh ↦ inl (ground (arith, routes-update_routes desc sr svc inv))
]

pub remove_target-Routes :
    (u : Bytes) (sr : ServiceRouter) (t : Bytes)
    → IsConsistent sr
    → Routes (remove_target u sr) t
    → Routes sr t × (t ≢ u)
remove_target-Routes u sr t inv (svc, h) = (
  (svc, ground (arith, routes-remove_target u sr svc inv)),
  ground (arith, routes-remove_target u sr svc inv),
)

abbrev pub service_table : Table ServiceRouter
service_table = record {
  update = update_routes;
  remove_target = remove_target;
  Inv = IsConsistent;
  Holds = Routes;
  update-Inv = update_routes-IsConsistent;
  remove_target-Inv = remove_target-IsConsistent;
  update-Holds = update_routes-Routes;
  remove_target-Holds = remove_target-Routes;
}

-- The methods of `ServiceRouter` and `ServiceRouterWatcher`.
abbrev pub service_watch : Bytes → Watched ServiceRouter → Watched ServiceRouter × Option ℕ
service_watch = watch

abbrev pub service_update_desc : ℕ → Target → Watched ServiceRouter → Watched ServiceRouter
service_update_desc = update_desc update_routes remove_target

abbrev pub service_close : ℕ → Watched ServiceRouter → Option (Watched ServiceRouter)
service_close = close update_routes remove_target

abbrev pub new_watched_router : Watched ServiceRouter
new_watched_router = start new_service_router

new_watched_router-IsLive : IsLive service_table new_watched_router
unfolding new_service_router contains
new_watched_router-IsLive =
    start-IsLive service_table new_service_router (λ t svc. refl) (λ t h. ground arith)

-- After any sequence of Watch, UpdateDesc and Close calls on a new ServiceRouter, its two maps
-- agree, each target has one open watcher if it is in the watcher set and none otherwise, and
-- services are routed only to targets in the watcher set.
pub Reach-service-IsLive :
    {s : Watched ServiceRouter}
    → Reach update_routes remove_target new_watched_router s
    → IsLive service_table s
Reach-service-IsLive r = Reach-IsLive service_table r new_watched_router-IsLive

-- After Close of an open watcher in a router that satisfies the invariant, no service is routed to
-- its target, the target is not in the watcher set, it can be watched again, and a second Close
-- panics.
pub service_close_lem :
    (i : ℕ) (s : Watched ServiceRouter) (w : Watcher) (u : Watched ServiceRouter)
    → IsLive service_table s
    → get_elem? s.watchers i ≡ some w
    → service_close i s ≡ some u
    → ¬ Routes u.table w.target
      × (u.watcher_set.set w.target ≡ false)
      × ((service_watch w.target u).1 ≡ some (length u.watchers))
      × (service_close i u ≡ none)
service_close_lem i s w u live e c = close_lem service_table i s w u live e c

-- If an UpdateDesc has passed its tests when its watcher is closed, and the description lists a
-- service that is then free, there is a schedule after which the service is routed to the target
-- although the target is not in the watcher set.
pub service_late_update :
    (i : ℕ) (desc : Target) (s u : Watched ServiceRouter) (svc : Bytes) (found : Service)
    → IsLive service_table s
    → accepts i desc s ≡ true
    → service_close i s ≡ some u
    → find_service svc desc.services ≡ some found
    → u.table.routes svc ≡ none
    → (q : Running ServiceRouter) × RaceReach update_routes remove_target
        (record { router = s; pending = [] })
        q
      × (q.router.table.routes svc ≡ some (record { target = desc; service = found }))
      × (q.router.watcher_set.set desc.name ≡ false)
unfolding assigned apply_update
service_late_update i desc s u svc found live accepted closed listed free =
    let (w, e, named) = accepts-target i desc s accepted in
    let after = close-IsLive service_table i s u closed live in
    let left = close_lem service_table i s w u live e closed in
    (
      record { router = apply_update update_routes remove_target desc u; pending = [] },
      late_update update_routes remove_target i desc s u accepted closed,
      ground (arith, routes-update_routes desc u.table svc after.table_inv),
      rw (← named) left.1,
    )
