-- ===== src/Routing/Patterns/Table/LinkNew.antt =====
-- The second loop of `addTarget`: a new element for each method that is left, in any order.
use grpcbridge.Base.{
  ℕ, suc, ◌+◌, ◌<◌, List, [], ◌∷◌, ◌++◌, Option, none, some, Bytes, bytes_discrete, ite, length,
  ◌≡◌, ◌≢◌, refl, sym, arith, append-nil,
}
use mathlib.Core.List.{concat-ne-nil}
use grpcbridge.Base.Maps.{or_nil, Map}
use grpcbridge.Desc.{Target}
use grpcbridge.Routing.Patterns.{PatternRoute, TargetPatternRoutes}
use grpcbridge.Routing.Patterns.Builder.{MethodMap, find, HasUniqueKeys}
use grpcbridge.Routing.Patterns.Table.{Element, MethodLink, Table, add_route, link_new}
use grpcbridge.Routing.Patterns.Table.Lists.{links_for, links_for-append}

-- The round in which a method has its turn.
abbrev pub place : {V : Type 0} → Bytes → MethodMap V → ℕ
place m [] = 0
place m ((k, v) ∷ left) = ite (bytes_discrete m k) 0 (suc (place m left))

module _ {P : Type 0} where
  abbrev pub added : Target → Option (List (PatternRoute P)) → ℕ → List (Element P)
  added target none id = []
  added target (some prs) id =
      record { id = id; value = record { target = target; routes = prs } } ∷ []

  abbrev pub added_id : Option (List (PatternRoute P)) → ℕ → List ℕ
  added_id none id = []
  added_id (some prs) id = id ∷ []

  pub place-lt :
      (m : Bytes) (left : MethodMap (List (PatternRoute P)))
      → find m left ≢ none
      → place m left < length left
  unfolding find
  place-lt m [] h = absurd (h refl)
  place-lt m ((k, v) ∷ left) h = ground (arith, place-lt m left)

  pub place-injective :
      (m n : Bytes) (left : MethodMap (List (PatternRoute P)))
      → find m left ≢ none
      → find n left ≢ none
      → place m left ≡ place n left
      → m ≡ n
  unfolding find
  place-injective m n [] h k e = absurd (h refl)
  place-injective m n ((j, v) ∷ left) h k e = ground (arith, place-injective m n left)

  pub add_route_lem :
      (k m : Bytes) (id : ℕ) (v : TargetPatternRoutes P) (routes : Map (List (Element P)))
      → or_nil (add_route k id v routes m)
        ≡ ite
            (bytes_discrete m k)
            (or_nil (routes m) ++ record { id = id; value = v } ∷ [])
            (or_nil (routes m))
  unfolding add_route
  add_route_lem k m id v routes = ground arith

  add_route_filled :
      (k m : Bytes) (id : ℕ) (v : TargetPatternRoutes P) (routes : Map (List (Element P)))
      → routes m ≢ some []
      → add_route k id v routes m ≢ some []
  unfolding add_route
  add_route_filled k m id v routes h e = ground (
    arith,
    concat-ne-nil (let x : Element P = record { id = id; value = v } in x) (or_nil (routes k)),
  )

  pub record NewLinks (target : Target) (left : MethodMap (List (PatternRoute P))) (mt : Table P)
      (new_links : List MethodLink) (mt' : Table P) (new_links' : List MethodLink) : Type 0 where
    pub routes_eq :
        (m : Bytes)
        → or_nil (mt'.routes m)
          ≡ or_nil (mt.routes m) ++ added target (find m left) (mt.next_id + place m left)
    pub links_eq :
        (m : Bytes)
        → links_for m new_links'
          ≡ links_for m new_links ++ added_id (find m left) (mt.next_id + place m left)
    pub next_eq : mt'.next_id ≡ mt.next_id + length left
    pub filled : (m : Bytes) → mt.routes m ≢ some [] → mt'.routes m ≢ some []
    pub same_links : mt'.target_links ≡ mt.target_links

  pub link_new_lem :
      (target : Target) (left : MethodMap (List (PatternRoute P))) (mt : Table P)
      (new_links : List MethodLink)
      → HasUniqueKeys left
      → NewLinks target left mt new_links
          (link_new target left mt new_links).0
          (link_new target left mt new_links).1
  unfolding link_new find
  link_new_lem target [] mt new_links u = record {
    routes_eq = λ m. sym (append-nil _);
    links_eq = λ m. sym (append-nil _);
    next_eq = omega arith;
    filled = λ m h. h;
    same_links = refl;
  }
  link_new_lem target ((k, prs) ∷ left) mt new_links u =
      let v : TargetPatternRoutes P = record { target = target; routes = prs } in
      let mt₁ : Table P = record mt {
        routes = add_route k mt.next_id v mt.routes;
        next_id = mt.next_id + 1;
      } in
      let links₁ : List MethodLink = new_links ++ record { method = k; link = mt.next_id } ∷ [] in
      let rest = link_new_lem target left mt₁ links₁ u.1 in
      record {
        routes_eq = λ m. ground (
          arith,
          rest.routes_eq m,
          u.0,
          add_route_lem k m mt.next_id v mt.routes,
          append-nil (or_nil (mt.routes m)),
          append-nil (or_nil (mt.routes m) ++ record { id = mt.next_id; value = v } ∷ []),
        );
        links_eq = λ m. ground (
          arith,
          rest.links_eq m,
          u.0,
          links_for-append m new_links (record { method = k; link = mt.next_id } ∷ []),
          append-nil (links_for m new_links),
          append-nil (links_for m new_links ++ mt.next_id ∷ []),
        );
        next_eq = omega (arith, rest.next_eq);
        filled = λ m h. rest.filled m (add_route_filled k m mt.next_id v mt.routes h);
        same_links = rest.same_links;
      }
