-- ===== src/Routing/Services/Owners.antt =====
-- What an update or the removal of a target does to the table of `ServiceRouter`, service by
-- service, and that the two maps of the router agree.
use grpcbridge.Base.{
  if◌then◌else◌, List, [], ◌∷◌, Option, none, some, Bool, true, false, not, ◌&&◌, ◌||◌, Bytes, ite,
  ◌≡◌, refl, arith, bytes_discrete, equals, contains, contains-append,
}
use grpcbridge.Base.Maps.{or_nil, Map, delete}
use grpcbridge.Desc.{Target, Service}
use grpcbridge.Routing.Services.{
  ServiceRoute, ServiceRouter, Pass, visit, visit_services, first_pass, remove_outdated,
  update_routes, delete_all, remove_target,
}

-- The route belongs to the target.
abbrev pub owned_by : Bytes → Option ServiceRoute → Bool
owned_by t none = false
owned_by t (some route) = equals route.target.name t

-- `svcRoutes[t]` lists exactly the services that `routes` sends to `t`.
abbrev pub IsConsistent : ServiceRouter → Type 0
IsConsistent sr =
    (t svc : Bytes) → contains svc (or_nil (sr.svc_routes t)) ≡ owned_by t (sr.routes svc)

-- The target may take the service: nobody has it, or the target itself.
abbrev claimable : Bytes → Option ServiceRoute → Bool
claimable t none = true
claimable t (some route) = equals route.target.name t

-- The first service of the name.
abbrev pub find_service : Bytes → List Service → Option Service
find_service j [] = none
find_service j (svc ∷ services) =
    ite (bytes_discrete j svc.name) (some svc) (find_service j services)

abbrev listed : Bytes → List Service → Bool
listed j services = elim (find_service j services) [ none ↦ false | some _ ↦ true ]

abbrev claimed : Target → Option Service → Option ServiceRoute → Option ServiceRoute
claimed desc svc (some route) = some route
claimed desc none none = none
claimed desc (some svc) none = some (record { target = desc; service = svc })

record Visited (desc : Target) (services : List Service) (j : Bytes) (p q : Pass) : Type 0 where
  routes_eq : q.routes j ≡ claimed desc (find_service j services) (p.routes j)
  present_eq : q.present j ≡ p.present j || (claimable desc.name (p.routes j) && listed j services)
  contains_eq :
      contains j q.new_svc_routes
      ≡ contains j p.new_svc_routes || (claimable desc.name (p.routes j) && listed j services)

visit-Visited :
    (desc : Target) (svc : Service) (j : Bytes) (p : Pass)
    → Visited desc (svc ∷ []) j p (visit desc svc p)
unfolding visit contains
visit-Visited desc svc j p = ground (arith, contains-append j p.new_svc_routes (svc.name ∷ []))

visit_services-Visited :
    (desc : Target) (services : List Service) (j : Bytes) (p : Pass)
    → Visited desc services j p (visit_services desc services p)
unfolding visit_services
visit_services-Visited desc [] j p = ground arith
visit_services-Visited desc (svc ∷ services) j p =
    let one = visit-Visited desc svc j p in
    let rest = visit_services-Visited desc services j (visit desc svc p) in
    ground (
      arith, one.routes_eq, one.present_eq, one.contains_eq, rest.routes_eq, rest.present_eq,
      rest.contains_eq,
    )

remove_outdated_lem :
    (present : Bytes → Bool) (svcs : List Bytes) (routes : Map ServiceRoute) (j : Bytes)
    → remove_outdated present svcs routes j
      ≡ (if contains j svcs && not (present j) then none else routes j)
unfolding remove_outdated contains
remove_outdated_lem present [] routes j = refl
remove_outdated_lem present (svc ∷ svcs) routes j =
    ground (
      arith,
      remove_outdated_lem present svcs (if present svc then routes else delete svc routes) j,
    )

delete_all_lem :
    (svcs : List Bytes) (routes : Map ServiceRoute) (j : Bytes)
    → delete_all svcs routes j ≡ (if contains j svcs then none else routes j)
unfolding delete_all contains
delete_all_lem [] routes j = refl
delete_all_lem (svc ∷ svcs) routes j = ground (arith, delete_all_lem svcs (delete svc routes) j)

-- The route of a service after an update by `desc`: another target keeps it, `desc` keeps or takes
-- it when it lists the service, and otherwise loses it.
unfoldable pub assigned : Target → Option Service → Option ServiceRoute → Option ServiceRoute
assigned desc found none = claimed desc found none
assigned desc none (some route) = if equals route.target.name desc.name then none else some route
assigned desc (some svc) (some route) = some route

first_pass-Visited :
    (desc : Target) (sr : ServiceRouter) (j : Bytes)
    → Visited desc desc.services j
        (record { routes = sr.routes; present = λ _. false; new_svc_routes = [] })
        (first_pass desc sr)
unfolding first_pass
first_pass-Visited desc sr j = visit_services-Visited desc desc.services j _

-- In a consistent ServiceRouter, updateRoutes leaves the services of other targets alone, keeps a
-- service of the target exactly if the new description lists it, and gives a free service to the
-- target exactly if it lists it.
pub routes-update_routes :
    (desc : Target) (sr : ServiceRouter) (j : Bytes)
    → IsConsistent sr
    → (update_routes desc sr).routes j ≡ assigned desc (find_service j desc.services) (sr.routes j)
unfolding update_routes assigned
routes-update_routes desc sr j inv =
    let v = first_pass-Visited desc sr j in
    let e = inv desc.name j in
    ground (
      arith,
      v.routes_eq,
      v.present_eq,
      e,
      remove_outdated_lem (first_pass desc sr).present (or_nil (sr.svc_routes desc.name))
          (first_pass desc sr).routes j,
    )

pub update_routes-IsConsistent :
    (desc : Target) (sr : ServiceRouter) → IsConsistent sr → IsConsistent (update_routes desc sr)
unfolding update_routes assigned contains
update_routes-IsConsistent desc sr inv t svc =
    let v = first_pass-Visited desc sr svc in
    ground
      (arith, routes-update_routes desc sr svc inv, v.contains_eq, inv t svc, inv desc.name svc)

pub routes-remove_target :
    (t : Bytes) (sr : ServiceRouter) (j : Bytes)
    → IsConsistent sr
    → (remove_target t sr).routes j ≡ (if owned_by t (sr.routes j) then none else sr.routes j)
unfolding remove_target
routes-remove_target t sr j inv =
    ground (arith, inv t j, delete_all_lem (or_nil (sr.svc_routes t)) sr.routes j)

pub remove_target-IsConsistent :
    (t : Bytes) (sr : ServiceRouter) → IsConsistent sr → IsConsistent (remove_target t sr)
unfolding remove_target contains
remove_target-IsConsistent t sr inv u svc =
    ground (arith, routes-remove_target t sr svc inv, inv t svc, inv u svc)
