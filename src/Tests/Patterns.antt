-- ===== src/Tests/Patterns.antt =====
-- `PatternRouter` with patterns that are literal paths, whose verb stands behind the first colon.
use grpcbridge.Base.{
  ℕ, List, [], ◌∷◌, Option, none, some, Bool, true, false, ◌&&◌, if◌then◌else◌, Bytes, codes,
  bytes_discrete, ite, cut, equals, split, has_suffix, ◌≡◌, refl,
}
use grpcbridge.Base.Maps.{or_nil}
use grpcbridge.Desc.{Target, Service, Method, Binding, dummy_method}
use grpcbridge.Routing.{status, invalid_argument, ok, err, Request}
use grpcbridge.Routing.Watchers.{Watched, watch, watches, here, next}
use grpcbridge.Routing.Watchers.Live.{IsLive}
use grpcbridge.Routing.Patterns.{
  matches, not_match, PatternLibrary, PatternRoute, TargetPatternRoutes,
}
use grpcbridge.Routing.Patterns.Builder.{find, build_pattern_routes}
use grpcbridge.Routing.Patterns.Builder.Candidates.{
  nonempty, of_services, routes_for, find-build_pattern_routes, build_pattern_routes-HasUniqueKeys,
}
use grpcbridge.Routing.Patterns.Matching.{Verdict, try_route, connect, route_http}
use grpcbridge.Routing.Patterns.Requests.{Decides, flatten, route_http-Decides}
use grpcbridge.Routing.Patterns.Table.{Table, new_table, add_target, remove_target}
use grpcbridge.Routing.Patterns.Table.Lists.{without}
use grpcbridge.Routing.Patterns.Table.Invariant.{IsLinked, new_table-IsLinked}
use grpcbridge.Routing.Patterns.Table.Refinement.{
  updated_entries, add_target_lem, remove_target_lem,
}
use grpcbridge.Routing.Patterns.Table.Lifecycle.{
  pattern_table, new_pattern_router, Reach-pattern-IsLive,
}

abbrev verb_part : Option (Bytes × Bytes) → Bytes
verb_part none = []
verb_part (some (path, verb)) = verb

abbrev path_part : Bytes → Option (Bytes × Bytes) → Bytes
path_part s none = s
path_part s (some (path, verb)) = path

abbrev same_parts : List Bytes → List Bytes → Bool
same_parts [] [] = true
same_parts (a ∷ as') (b ∷ bs) = ite (bytes_discrete a b) (same_parts as' bs) false
same_parts _ _ = false

abbrev literal_patterns : PatternLibrary
literal_patterns = record {
  Template = Bytes;
  Compiled = Bytes;
  Pattern = Bytes;
  parse = λ s. if equals s [] then none else some s;
  compile = λ s. s;
  new_pattern = λ s. some s;
  verb = λ s. verb_part (cut b':' s);
  match_and_escape = λ s components verb.
      if same_parts ([] ∷ components) (split b'/' (path_part s (cut b':' s)))
        && equals verb (verb_part (cut b':' s))
      then matches []
      else not_match;
}

abbrev watch_binding : Binding
watch_binding = record {
  http_method = codes "GET";
  pattern_text = codes "/users:watch";
  request_body_path = [];
  response_body_path = [];
}

abbrev watch_method : Method
watch_method = record (dummy_method (codes "Users") (codes "Watch")) {
  bindings = watch_binding ∷ [];
}

abbrev users : Service
users = record {
  name = codes "Users";
  methods = watch_method ∷ dummy_method (codes "Users") (codes "Get") ∷ [];
}

abbrev shop : Target
shop = record { name = codes "shop"; services = users ∷ [] }

abbrev watch_route : PatternRoute Bytes
watch_route = record {
  service = users;
  method = watch_method;
  binding = watch_binding;
  pattern_of = codes "/users:watch";
}

abbrev shop_entry : TargetPatternRoutes Bytes
shop_entry = record { target = shop; routes = watch_route ∷ [] }

abbrev static_table : Bytes → Option (List (TargetPatternRoutes Bytes))
static_table m = ite (bytes_discrete m (codes "GET")) (some (shop_entry ∷ [])) none

abbrev pool : Bytes → Option ℕ
pool t = ite (bytes_discrete t (codes "shop")) (some 7) none

abbrev get_users : Request
get_users = record { http_method = codes "GET"; path = codes "/users:watch"; raw_path = [] }

find-build_pattern_routes_example :
    find (codes "GET") (build_pattern_routes literal_patterns shop)
    ≡ nonempty (routes_for literal_patterns (codes "GET") (of_services shop.services))
find-build_pattern_routes_example = find-build_pattern_routes literal_patterns shop (codes "GET")

route_http-Decides_example :
    (v : Verdict) × Decides literal_patterns
      (split b'/' (codes "users:watch"))
      v
      (flatten literal_patterns (or_nil (static_table (codes "GET"))))
    × (route_http literal_patterns pool static_table get_users ≡ connect literal_patterns pool v)
unfolding bytes_discrete
route_http-Decides_example =
    route_http-Decides literal_patterns pool static_table get_users (codes "users:watch") refl

no_slash : Request
no_slash = record { http_method = codes "GET"; path = codes "users"; raw_path = [] }

no_slash_refused :
    route_http literal_patterns pool static_table no_slash ≡ err (status invalid_argument)
unfolding no_slash route_http bytes_discrete
no_slash_refused = refl

abbrev first_table : Table Bytes
first_table = new_table

add_target_lem_example :
    (mt : Table Bytes) × (add_target shop (build_pattern_routes literal_patterns shop) first_table
      ≡ some mt)
    × IsLinked mt
    × ((m : Bytes)
        → mt.static m
          ≡ nonempty (
              updated_entries shop
                (find m (build_pattern_routes literal_patterns shop))
                (or_nil (first_table.static m))))
add_target_lem_example =
    add_target_lem shop (build_pattern_routes literal_patterns shop) first_table
      (build_pattern_routes-HasUniqueKeys literal_patterns shop) new_table-IsLinked

shop_added :
    (mt : Table Bytes) × (add_target shop (build_pattern_routes literal_patterns shop) first_table
      ≡ some mt)
    × IsLinked mt
    × ((m : Bytes)
        → mt.static m
          ≡ nonempty (
              updated_entries shop
                (find m (build_pattern_routes literal_patterns shop))
                (or_nil (first_table.static m))))
shop_added =
    add_target_lem shop (build_pattern_routes literal_patterns shop) first_table
      (build_pattern_routes-HasUniqueKeys literal_patterns shop) new_table-IsLinked

remove_target_lem_example :
    (mt : Table Bytes) × (remove_target (codes "shop") shop_added.0 ≡ some mt)
    × IsLinked mt
    × ((m : Bytes)
        → mt.static m ≡ nonempty (without (codes "shop") (or_nil (shop_added.0.static m))))
remove_target_lem_example = remove_target_lem (codes "shop") shop_added.0 shop_added.2

abbrev watching : Watched (Option (Table Bytes))
watching = (watch (codes "shop") (new_pattern_router literal_patterns)).0

Reach-pattern-IsLive_example : IsLive (pattern_table literal_patterns) watching
Reach-pattern-IsLive_example =
    Reach-pattern-IsLive literal_patterns (next here (watches (codes "shop") refl))

routes_request :
    route_http literal_patterns pool static_table get_users
    ≡ ok (
      7,
      record {
        target = shop;
        service = users;
        method = watch_method;
        binding = watch_binding;
        path_params = none;
      },
    )
unfolding route_http try_route bytes_discrete split cut has_suffix
routes_request = refl
