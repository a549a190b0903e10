-- ===== src/Routing/Patterns/Table.antt =====
-- `mutablePatternRoutingTable` and the static table that it commits. A `*list.Element` is a number:
-- an element carries its own, a link holds the number of the element that it points to, and a write
-- through a link reaches that element in whatever list it stands. `none` is a panic. Each method
-- holds the mutex for its whole body.
pub mod Lists
pub mod Relink
pub mod RelinkAll
pub mod LinkNew
pub mod Invariant
pub mod Preserve
pub mod Refinement
pub mod Lifecycle
use grpcbridge.Base.{
  ℕ, zero, suc, ◌+◌, ◌==◌, if◌then◌else◌, List, [], ◌∷◌, ◌++◌, Option, none, some, Bool, true,
  false, Bytes, map,
}
use grpcbridge.Base.Maps.{or_nil, Map, empty, put, delete}
use grpcbridge.Desc.{Target}
use grpcbridge.Routing.Patterns.{PatternRoute, TargetPatternRoutes}
use grpcbridge.Routing.Patterns.Builder.{MethodMap, find, erase}

pub record Element (P : Type 0) : Type 0 where
  pub id : ℕ
  pub value : TargetPatternRoutes P

pub record MethodLink : Type 0 where
  pub method : Bytes
  pub link : ℕ

pub record Table (P : Type 0) : Type 0 where
  pub static : Map (List (TargetPatternRoutes P))
  pub routes : Map (List (Element P))
  pub target_links : Map (List MethodLink)
  pub next_id : ℕ

unfoldable pub new_table : {P : Type 0} → Table P
new_table = record { static = empty; routes = empty; target_links = empty; next_id = 0 }

-- The variables of the first loop of `addTarget`; `left` is its argument `routes`.
pub record Linking (P : Type 0) : Type 0 where
  pub routes : Map (List (Element P))
  pub left : MethodMap (List (PatternRoute P))
  pub new_links : List MethodLink

abbrev pub on_some : {A B : Type 0} → (A → B) → Option A → Option B
on_some f none = none
on_some f (some a) = some (f a)

module _ {P : Type 0} where
  -- `lst.Remove(link)`
  unfoldable pub remove_element : ℕ → List (Element P) → List (Element P)
  remove_element id [] = []
  remove_element id (e ∷ es) =
      let rest = remove_element id es in if e.id == id then es else e ∷ rest

  -- `link.link.Value = v`, in one list
  unfoldable pub set_value : ℕ → TargetPatternRoutes P → List (Element P) → List (Element P)
  set_value id v [] = []
  set_value id v (e ∷ es) = (if e.id == id then record e { value = v } else e) ∷ set_value id v es

  -- The list of a method after a removal: an empty list is deleted from the map.
  unfoldable pub store_rest :
      Bytes → List (Element P) → Map (List (Element P)) → Map (List (Element P))
  store_rest method [] routes = delete method routes
  store_rest method (e ∷ es) routes = put method (e ∷ es) routes

  -- `lst.Len()` of a missing list is a panic.
  unfoldable pub remove_route : Bytes → ℕ → Map (List (Element P)) → Option (Map (List (Element P)))
  unfolding store_rest
  remove_route method link routes = elim (routes method) [
    | none ↦ none
    | some lst ↦ some (store_rest method (remove_element link lst) routes)
  ]

  -- `lst.PushBack(route)` on the list of the method, which is made where it is missing.
  unfoldable pub add_route :
      Bytes → ℕ → TargetPatternRoutes P → Map (List (Element P)) → Map (List (Element P))
  add_route method id v routes =
      put method (or_nil (routes method) ++ record { id = id; value = v } ∷ []) routes

  unfoldable pub relink : Target → MethodLink → Linking P → Option (Linking P)
  relink target l st = elim (find l.method st.left) [
    | none ↦
        on_some (λ routes. record st { routes = routes }) (remove_route l.method l.link st.routes)
    | some pattern_routes ↦ some (record {
      routes = λ m.
          on_some (set_value l.link (record { target = target; routes = pattern_routes }))
            (st.routes m);
      left = erase l.method st.left;
      new_links = st.new_links ++ l ∷ [];
    })
  ]

  unfoldable pub relink_all : Target → List MethodLink → Linking P → Option (Linking P)
  relink_all target [] st = some st
  relink_all target (l ∷ ls) st = elim (relink target l st) [
    | none ↦ none
    | some st' ↦ relink_all target ls st'
  ]

  -- The second loop: a new element for each method that is left.
  unfoldable pub link_new :
      Target
      → MethodMap (List (PatternRoute P))
      → Table P
      → List MethodLink
      → Table P × List MethodLink
  link_new target [] mt new_links = (mt, new_links)
  link_new target ((method, pattern_routes) ∷ left) mt new_links =
      link_new target left
        (record mt {
          routes =
              add_route method mt.next_id (record { target = target; routes = pattern_routes })
                mt.routes;
          next_id = mt.next_id + 1;
        })
        (new_links ++ record { method = method; link = mt.next_id } ∷ [])

  unfoldable pub values : List (Element P) → List (TargetPatternRoutes P)
  values [] = []
  values (e ∷ es) = e.value ∷ values es

  unfoldable pub commit : Map (List (Element P)) → Map (List (TargetPatternRoutes P))
  unfolding values
  commit routes method = on_some values (routes method)

  finish_add : Target → Table P × List MethodLink → Table P
  finish_add target (mt, new_links) = record mt {
    target_links = put target.name new_links mt.target_links;
    static = commit mt.routes;
  }

  unfoldable pub add_target :
      Target → MethodMap (List (PatternRoute P)) → Table P → Option (Table P)
  unfolding finish_add
  add_target target routes mt =
      elim (relink_all target (or_nil (mt.target_links target.name))
        (record { routes = mt.routes; left = routes; new_links = [] })) [
          | none ↦ none
          | some st ↦ some (
              finish_add target
                (link_new target st.left (record mt { routes = st.routes }) st.new_links))
        ]

  unfoldable pub remove_links :
      List MethodLink → Map (List (Element P)) → Option (Map (List (Element P)))
  remove_links [] routes = some routes
  remove_links (l ∷ ls) routes = elim (remove_route l.method l.link routes) [
    | none ↦ none
    | some routes' ↦ remove_links ls routes'
  ]

  unfoldable pub remove_target : Bytes → Table P → Option (Table P)
  remove_target target mt =
      on_some
        (λ routes. record mt {
          routes = routes;
          target_links = delete target mt.target_links;
          static = commit routes;
        })
        (remove_links (or_nil (mt.target_links target)) mt.routes)
