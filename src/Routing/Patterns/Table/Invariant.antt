-- ===== src/Routing/Patterns/Table/Invariant.antt =====
-- The invariant of the table: every target's links lead to exactly its elements, one at most for a
-- method, no number is used twice, no list is empty, and the static table is the committed one.
use grpcbridge.Base.{
  ℕ, ◌+◌, List, [], ◌∷◌, ◌++◌, some, Bytes, equals, length, ◌≡◌, ◌≢◌, refl, sym, arith, inl, ap,
  ◌∙◌,
}
use grpcbridge.Base.Maps.{or_nil, Map, put}
use grpcbridge.Desc.{Target}
use grpcbridge.Routing.Patterns.{PatternRoute}
use grpcbridge.Routing.Patterns.Builder.{MethodMap, find, HasUniqueKeys}
use grpcbridge.Routing.Patterns.Table.{
  Element, MethodLink, Table, Linking, link_new, commit, add_target, new_table,
}
use grpcbridge.Routing.Patterns.Table.Lists.{links_for, ids_for, Marks, Below}
use grpcbridge.Routing.Patterns.Table.RelinkAll.{
  AtMostOne, Linked, relinked_by, left_by, kept_by, relink_all_lem,
}
use grpcbridge.Routing.Patterns.Table.LinkNew.{place, added, added_id, link_new_lem}

module _ {P : Type 0} where
  -- The elements of a method.
  abbrev pub elements : Table P → Bytes → List (Element P)
  elements mt m = or_nil (mt.routes m)

  pub record IsLinked (mt : Table P) : Type 0 where
    pub links_eq :
        (t m : Bytes) → links_for m (or_nil (mt.target_links t)) ≡ ids_for t (elements mt m)
    pub single : (t m : Bytes) → AtMostOne (ids_for t (elements mt m))
    pub marks :
        (t m n : Bytes) (id : ℕ)
        → ids_for t (elements mt m) ≡ id ∷ []
        → Marks id t (equals n m) (elements mt n)
    pub fresh : (m : Bytes) → Below mt.next_id (elements mt m)
    pub filled : (m : Bytes) → mt.routes m ≢ some []
    pub committed : (m : Bytes) → mt.static m ≡ commit mt.routes m

  pub new_table-IsLinked : IsLinked new_table
  unfolding new_table commit
  new_table-IsLinked = record {
    links_eq = λ t m. refl;
    single = λ t m. inl refl;
    marks = λ t m n id e. cc;
    fresh = λ m. tt;
    filled = λ m e. cc;
    committed = λ m. refl;
  }

  pub links-Linked :
      (t : Bytes) (mt : Table P) → IsLinked mt → Linked t (or_nil (mt.target_links t)) mt.routes
  links-Linked t mt v = record {
    single = λ m. rw (v.links_eq t m) (v.single t m);
    ids = λ m id e. sym (v.links_eq t m) ∙ e;
    marks = λ m n id e. v.marks t m n id (sym (v.links_eq t m) ∙ e);
  }

  -- What both loops of `addTarget` do together, method by method.
  pub record Updated (target : Target) (new : MethodMap (List (PatternRoute P))) (mt mt' : Table P)
      : Type 0 where
    pub left : MethodMap (List (PatternRoute P))
    pub left_eq :
        (m : Bytes) → find m left ≡ left_by (ids_for target.name (elements mt m)) (find m new)
    pub routes_eq :
        (m : Bytes)
        → elements mt' m
          ≡ relinked_by target (ids_for target.name (elements mt m)) (find m new) (elements mt m)
            ++ added target (find m left) (mt.next_id + place m left)
    pub links_eq :
        (m : Bytes)
        → links_for m (or_nil (mt'.target_links target.name))
          ≡ kept_by (ids_for target.name (elements mt m)) (find m new)
            ++ added_id (find m left) (mt.next_id + place m left)
    pub other_links : (u : Bytes) → u ≢ target.name → mt'.target_links u ≡ mt.target_links u
    pub next_eq : mt'.next_id ≡ mt.next_id + length left
    pub filled : (m : Bytes) → mt'.routes m ≢ some []
    pub committed : (m : Bytes) → mt'.static m ≡ commit mt'.routes m

  pub add_target-Updated :
      (target : Target) (new : MethodMap (List (PatternRoute P))) (mt : Table P)
      → HasUniqueKeys new
      → IsLinked mt
      → (mt' : Table P) × (add_target target new mt ≡ some mt') × Updated target new mt mt'
  unfolding add_target
  add_target-Updated target new mt u v =
      let ls = or_nil (mt.target_links target.name) in
      let st : Linking P = record { routes = mt.routes; left = new; new_links = [] } in
      let (st₁, e₁, r₁) = relink_all_lem target ls st (links-Linked target.name mt v) in
      let mt₁ : Table P = record mt { routes = st₁.routes } in
      let r₂ = link_new_lem target st₁.left mt₁ st₁.new_links (r₁.unique u) in
      let out = link_new target st₁.left mt₁ st₁.new_links in
      (
        record out.0 {
          target_links = put target.name out.1 out.0.target_links;
          static = commit out.0.routes;
        },
        rw (e₁, add_target) refl,
        record {
          left = st₁.left;
          left_eq = λ m. rw (← v.links_eq target.name m) (r₁.left_eq m);
          routes_eq = λ m. ground (arith, r₂.routes_eq m, r₁.routes_eq m, v.links_eq target.name m);
          links_eq = λ m. ground (arith, r₂.links_eq m, r₁.links_eq m, v.links_eq target.name m);
          other_links = λ u h.
              ground (arith, r₂.same_links, ap (λ (f : Map (List MethodLink)). f u) r₂.same_links);
          next_eq = r₂.next_eq;
          filled = λ m. r₂.filled m (r₁.filled m (v.filled m));
          committed = λ m. refl;
        },
      )
