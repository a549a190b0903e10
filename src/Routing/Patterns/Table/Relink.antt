-- ===== src/Routing/Patterns/Table/Relink.antt =====
-- The first loop of `addTarget`: what it does to the list of each method.
use grpcbridge.Base.{
  ℕ, List, [], ◌∷◌, ◌++◌, Option, none, some, Bytes, bytes_discrete, equals, ite, ◌≡◌, ◌≢◌, refl,
  arith, inl, inr, Option-cases, append-nil,
}
use grpcbridge.Base.Maps.{or_nil, Map}
use grpcbridge.Desc.{Target}
use grpcbridge.Routing.Patterns.{PatternRoute, TargetPatternRoutes}
use grpcbridge.Routing.Patterns.Builder.{
  find, erase, find-erase, HasUniqueKeys, erase-HasUniqueKeys,
}
use grpcbridge.Routing.Patterns.Table.{
  Element, MethodLink, Linking, on_some, remove_element, set_value, store_rest, remove_route,
  relink,
}
use grpcbridge.Routing.Patterns.Table.Lists.{
  links_for, links_for-append, ids_for, Marks, set_value_missing,
}

module _ {P : Type 0} where
  pub or_nil-store_rest :
      (k m : Bytes) (es : List (Element P)) (routes : Map (List (Element P)))
      → or_nil (store_rest k es routes m) ≡ ite (bytes_discrete m k) es (or_nil (routes m))
  unfolding store_rest
  or_nil-store_rest k m [] routes = ground arith
  or_nil-store_rest k m (e ∷ es) routes = ground arith

  pub store_rest_filled :
      (k m : Bytes) (es : List (Element P)) (routes : Map (List (Element P)))
      → routes m ≢ some []
      → store_rest k es routes m ≢ some []
  unfolding store_rest
  store_rest_filled k m [] routes h e = ground arith
  store_rest_filled k m (x ∷ es) routes h e = ground arith

  -- What becomes of the list of a method with one link of the target, and of that link.
  abbrev pub relinked :
      Target → Option (List (PatternRoute P)) → ℕ → List (Element P) → List (Element P)
  relinked target none id es = remove_element id es
  relinked target (some prs) id es = set_value id (record { target = target; routes = prs }) es

  abbrev pub kept : Option (List (PatternRoute P)) → ℕ → List ℕ
  kept none id = []
  kept (some prs) id = id ∷ []

  pub record Relinked (target : Target) (l : MethodLink) (st st' : Linking P) : Type 0 where
    pub routes_eq :
        (m : Bytes)
        → or_nil (st'.routes m)
          ≡ ite
              (bytes_discrete m l.method)
              (relinked target (find l.method st.left) l.link (or_nil (st.routes m)))
              (or_nil (st.routes m))
    pub left_eq :
        (m : Bytes) → find m st'.left ≡ ite (bytes_discrete m l.method) none (find m st.left)
    pub links_eq :
        (m : Bytes)
        → links_for m st'.new_links
          ≡ links_for m st.new_links
            ++ ite (bytes_discrete m l.method) (kept (find l.method st.left) l.link) []
    pub filled : (m : Bytes) → st.routes m ≢ some [] → st'.routes m ≢ some []
    pub unique : HasUniqueKeys st.left → HasUniqueKeys st'.left

  relink_present :
      (target : Target) (l : MethodLink) (st : Linking P)
      → ids_for target.name (or_nil (st.routes l.method)) ≡ l.link ∷ []
      → (lst : List (Element P)) × (st.routes l.method ≡ some lst)
  relink_present target l st h = elim (Option-cases (st.routes l.method)) [
    | inl e ↦ absurd (ground arith)
    | inr found ↦ found
  ]

  on_some-set_value_filled :
      (id : ℕ) (v : TargetPatternRoutes P) (o : Option (List (Element P)))
      → o ≢ some []
      → on_some (set_value id v) o ≢ some []
  unfolding set_value
  on_some-set_value_filled id v none h e = cc
  on_some-set_value_filled id v (some []) h e = h refl
  on_some-set_value_filled id v (some (x ∷ es)) h e = cc

  or_nil-on_some :
      (id : ℕ) (v : TargetPatternRoutes P) (o : Option (List (Element P)))
      → or_nil (on_some (set_value id v) o) ≡ set_value id v (or_nil o)
  unfolding set_value
  or_nil-on_some id v none = refl
  or_nil-on_some id v (some es) = refl

  pub relink_lem :
      (target : Target) (l : MethodLink) (st : Linking P)
      → ids_for target.name (or_nil (st.routes l.method)) ≡ l.link ∷ []
      → ((m : Bytes) → Marks l.link target.name (equals m l.method) (or_nil (st.routes m)))
      → (st' : Linking P) × (relink target l st ≡ some st') × Relinked target l st st'
  unfolding relink remove_route
  relink_lem target l st one marks = elim (Option-cases (find l.method st.left)) [
    | inl gone ↦
        let (lst, e) = relink_present target l st one in
        let routes : Map (List (Element P)) =
          store_rest l.method (remove_element l.link lst) st.routes in
        (
          record st { routes = routes },
          rw (gone, relink) (rw (e, remove_route) refl),
          record {
            routes_eq = λ m.
                ground (arith, or_nil-store_rest l.method m (remove_element l.link lst) st.routes);
            left_eq = λ m. ground arith;
            links_eq = λ m. ground (arith, append-nil (links_for m st.new_links));
            filled = λ m h. store_rest_filled l.method m (remove_element l.link lst) st.routes h;
            unique = λ h. h;
          },
        )
    | inr (prs, e) ↦
        let v : TargetPatternRoutes P = record { target = target; routes = prs } in
        (
          record {
            routes = λ m. on_some (set_value l.link v) (st.routes m);
            left = erase l.method st.left;
            new_links = st.new_links ++ l ∷ [];
          },
          rw (e, relink) refl,
          record {
            routes_eq = λ m. ground (
              arith,
              or_nil-on_some l.link v (st.routes m),
              set_value_missing l.link target.name v (or_nil (st.routes m)),
              marks m,
            );
            left_eq = λ m. find-erase l.method m st.left;
            links_eq = λ m. ground (arith, links_for-append m st.new_links (l ∷ []));
            filled = λ m h. on_some-set_value_filled l.link v (st.routes m) h;
            unique = λ h. erase-HasUniqueKeys l.method st.left h;
          },
        )
  ]
