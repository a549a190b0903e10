-- ===== src/Routing/Patterns/Table/Refinement.antt =====
-- The table refines its abstract view: for each HTTP method the list of the targets' routes, in the
-- order in which the targets came, with one entry at most for a target.
use grpcbridge.Base.{
  ℕ, ◌+◌, if◌then◌else◌, List, [], ◌∷◌, ◌++◌, Option, none, some, true, Bytes, ◌≡◌, ◌≢◌, refl, sym,
  arith, inl, inr, ap, ◌∙◌, append-nil, Option-cases,
}
use grpcbridge.Base.Maps.{or_nil, Map, delete}
use grpcbridge.Desc.{Target}
use grpcbridge.Routing.Patterns.{PatternRoute, TargetPatternRoutes}
use grpcbridge.Routing.Patterns.Builder.{MethodMap, find, HasUniqueKeys}
use grpcbridge.Routing.Patterns.Builder.Candidates.{nonempty}
use grpcbridge.Routing.Patterns.Table.{
  Element, MethodLink, Table, on_some, values, commit, remove_element, set_value, add_target,
  relink, relink_all, remove_route, remove_links, remove_target,
}
use grpcbridge.Routing.Patterns.Table.Lists.{
  ids_for, Marks, without, replace, has_target, has_target-values, without-values, values-set_value,
  values-remove_element,
}
use grpcbridge.Routing.Patterns.Table.RelinkAll.{AtMostOne, relinked_by, left_by, relink_all_lem}
use grpcbridge.Routing.Patterns.Table.LinkNew.{added, place}
use grpcbridge.Routing.Patterns.Table.Invariant.{
  elements, IsLinked, Updated, add_target-Updated, links-Linked,
}
use grpcbridge.Routing.Patterns.Table.Preserve.{Updated-IsLinked, equals_self}

module _ {P : Type 0} where
  -- The entries of a method after an update of a target: where the target has routes for the method,
  -- its entry is replaced in its place, or put at the end if there is none; else it is dropped.
  unfoldable pub updated_entries :
      Target
      → Option (List (PatternRoute P))
      → List (TargetPatternRoutes P)
      → List (TargetPatternRoutes P)
  updated_entries target none vs = without target.name vs
  updated_entries target (some prs) vs =
      let v : TargetPatternRoutes P = record { target = target; routes = prs } in
      if has_target target.name vs then replace target.name v vs else vs ++ v ∷ []

  values-append : (xs ys : List (Element P)) → values (xs ++ ys) ≡ values xs ++ values ys
  unfolding values
  values-append [] ys = refl
  values-append (x ∷ xs) ys = ap (◌∷◌ x.value) (values-append xs ys)

  values_updated :
      (target : Target) (p : Option (List (PatternRoute P))) (es : List (Element P)) (ids : List ℕ)
      (n : ℕ)
      → ids_for target.name es ≡ ids
      → AtMostOne ids
      → ((id : ℕ) → ids ≡ id ∷ [] → Marks id target.name true es)
      → values (relinked_by target ids p es ++ added target (left_by ids p) n)
        ≡ updated_entries target p (values es)
  unfolding updated_entries values
  values_updated target none es ids n e (inl z) marks =
      ground (arith, append-nil es, without-values target.name es)
  values_updated target (some prs) es ids n e (inl z) marks =
      ground
        (arith, values-append es (added target (some prs) n), has_target-values target.name es 0 [])
  values_updated target none es ids n e (inr (id, z)) marks = ground (
    arith,
    append-nil (remove_element id es),
    values-remove_element id target.name es (marks id z),
  )
  values_updated target (some prs) es ids n e (inr (id, z)) marks =
      let v : TargetPatternRoutes P = record { target = target; routes = prs } in
      ground (
        arith,
        append-nil (set_value id v es),
        values-set_value id target.name v es (marks id z),
        has_target-values target.name es id [],
      )

  -- A list that is never stored empty is the list of the entries, or missing.
  commit_filled :
      (routes : Map (List (Element P))) (m : Bytes)
      → routes m ≢ some []
      → commit routes m ≡ nonempty (values (or_nil (routes m)))
  unfolding commit values
  commit_filled routes m h = elim (Option-cases (routes m)) [
    | inl e ↦ rw (e, commit) refl
    | inr (es, e) ↦ commit_some es e
  ]
    where
      commit_some :
          (es : List (Element P))
          → routes m ≡ some es
          → commit routes m ≡ nonempty (values (or_nil (routes m)))
      commit_some [] e = absurd (h e)
      commit_some (x ∷ es) e = rw (e, commit) refl

  static_values :
      (mt : Table P) (m : Bytes) → IsLinked mt → or_nil (mt.static m) ≡ values (elements mt m)
  unfolding commit values
  static_values mt m v = elim (Option-cases (mt.routes m)) [
    | inl e ↦ rw (v.committed m) (rw (e, commit) refl)
    | inr (es, e) ↦ rw (v.committed m) (rw (e, commit) refl)
  ]

  Updated-static :
      (target : Target) (new : MethodMap (List (PatternRoute P))) (mt mt' : Table P)
      → IsLinked mt
      → Updated target new mt mt'
      → (m : Bytes)
      → mt'.static m ≡ nonempty (updated_entries target (find m new) (or_nil (mt.static m)))
  Updated-static target new mt mt' v r m =
      let ids = ids_for target.name (elements mt m) in
      let n = mt.next_id + place m r.left in
      let put_in = λ (q : Option (List (PatternRoute P))).
        relinked_by target ids (find m new) (elements mt m) ++ added target q n in
      r.committed m
      ∙ commit_filled mt'.routes m (r.filled m)
      ∙ ap (λ (vs : List (TargetPatternRoutes P)). nonempty vs)
          (ap (λ (es : List (Element P)). values es) (r.routes_eq m ∙ ap put_in (r.left_eq m))
            ∙ values_updated target (find m new) (elements mt m) ids n refl (v.single target.name m)
                (λ id z. rw (equals_self m) at (v.marks target.name m m id z))
            ∙ ap (updated_entries target (find m new)) (sym (static_values mt m v)))

  -- For a map with one entry per HTTP method and a table that satisfies the invariant, addTarget
  -- does not panic, keeps the invariant, and the new static table holds for each method the old
  -- entries with the target's entry replaced in place, appended or dropped, and no empty list.
  pub add_target_lem :
      (target : Target) (new : MethodMap (List (PatternRoute P))) (mt : Table P)
      → HasUniqueKeys new
      → IsLinked mt
      → (mt' : Table P) × (add_target target new mt ≡ some mt')
        × IsLinked mt'
        × ((m : Bytes)
            → mt'.static m ≡ nonempty (updated_entries target (find m new) (or_nil (mt.static m))))
  add_target_lem target new mt u v =
      let (mt', e, r) = add_target-Updated target new mt u v in
      (mt', e, Updated-IsLinked target new mt mt' v r, Updated-static target new mt mt' v r)

  remove_links-relink_all :
      (target : Target) (ls : List MethodLink) (routes : Map (List (Element P)))
      → relink_all target ls (record { routes = routes; left = []; new_links = [] })
        ≡ on_some
            (λ routes. record { routes = routes; left = []; new_links = [] })
            (remove_links ls routes)
  unfolding relink_all relink remove_links find
  remove_links-relink_all target [] routes = refl
  remove_links-relink_all target (l ∷ ls) routes =
      elim (Option-cases (remove_route l.method l.link routes)) [
        | inl e ↦ rw (e, relink_all, relink, remove_links) refl
        | inr (routes', e) ↦
            rw (e, relink_all, relink, remove_links) (remove_links-relink_all target ls routes')
      ]

  remove_target-Updated :
      (t : Bytes) (mt : Table P)
      → IsLinked mt
      → (mt' : Table P) × (remove_target t mt ≡ some mt')
        × Updated (record { name = t; services = [] }) [] mt mt'
  unfolding remove_target find
  remove_target-Updated t mt v =
      let target : Target = record { name = t; services = [] } in
      let ls = or_nil (mt.target_links t) in
      let (st, e, r) =
        relink_all_lem target ls (record { routes = mt.routes; left = []; new_links = [] })
          (links-Linked t mt v) in
      let removed : remove_links ls mt.routes ≡ some st.routes =
        ground (arith, remove_links-relink_all target ls mt.routes) in
      (
        record mt {
          routes = st.routes;
          target_links = delete t mt.target_links;
          static = commit st.routes;
        },
        rw (removed, remove_target) refl,
        record {
          left = [];
          left_eq = λ m. none_left (ids_for t (elements mt m));
          routes_eq = λ m. ground (
            arith,
            r.routes_eq m,
            v.links_eq t m,
            append-nil (relinked_by target (ids_for t (elements mt m)) none (elements mt m)),
          );
          links_eq = λ m. ground (arith, v.single t m);
          other_links = λ u h. ground arith;
          next_eq = omega arith;
          filled = λ m. r.filled m (v.filled m);
          committed = λ m. refl;
        },
      )
    where
      none_left : (ids : List ℕ) → none ≡ left_by {P = P} ids none
      none_left [] = refl
      none_left (id ∷ ids) = refl

  -- For a table that satisfies the invariant, removeTarget does not panic, keeps the invariant, and
  -- takes exactly the target's entries out of every list of the static table.
  pub remove_target_lem :
      (t : Bytes) (mt : Table P)
      → IsLinked mt
      → (mt' : Table P) × (remove_target t mt ≡ some mt')
        × IsLinked mt'
        × ((m : Bytes) → mt'.static m ≡ nonempty (without t (or_nil (mt.static m))))
  unfolding updated_entries find
  remove_target_lem t mt v =
      let target : Target = record { name = t; services = [] } in
      let (mt', e, r) = remove_target-Updated t mt v in
      (mt', e, Updated-IsLinked target [] mt mt' v r, Updated-static target [] mt mt' v r)
