-- ===== src/Routing/Patterns/Table/RelinkAll.antt =====
-- The whole first loop of `addTarget`, method by method, and that it never panics.
use grpcbridge.Base.{
  ℕ, List, [], ◌∷◌, ◌++◌, Option, none, some, Bool, true, Bytes, bytes_discrete, equals, ◌≡◌, ◌≢◌,
  refl, sym, arith, ◌⊎◌, if_pos, if_neg, append-nil,
}
use grpcbridge.Base.Maps.{or_nil, Map}
use grpcbridge.Desc.{Target}
use grpcbridge.Routing.Patterns.{PatternRoute}
use grpcbridge.Routing.Patterns.Builder.{find, HasUniqueKeys}
use grpcbridge.Routing.Patterns.Table.{Element, MethodLink, Linking, relink_all}
use grpcbridge.Routing.Patterns.Table.Lists.{
  links_for, ids_for, Marks, Marks-remove_element, Marks-set_value,
}
use grpcbridge.Routing.Patterns.Table.Relink.{relinked, kept, Relinked, relink_lem}

abbrev pub AtMostOne : List ℕ → Type 0
AtMostOne ids = (ids ≡ []) ⊎ ((id : ℕ) × (ids ≡ id ∷ []))

equals-true : (a b : Bytes) → a ≡ b → equals a b ≡ true
equals-true a b e = ground arith

module _ {P : Type 0} where
  -- The links of target `t` lead to its elements: one at most for a method.
  pub record Linked (t : Bytes) (ls : List MethodLink) (routes : Map (List (Element P)))
      : Type 0 where
    pub single : (m : Bytes) → AtMostOne (links_for m ls)
    pub ids :
        (m : Bytes) (id : ℕ) → links_for m ls ≡ id ∷ [] → ids_for t (or_nil (routes m)) ≡ id ∷ []
    pub marks :
        (m n : Bytes) (id : ℕ)
        → links_for m ls ≡ id ∷ []
        → Marks id t (equals n m) (or_nil (routes n))

  abbrev pub relinked_by :
      Target → List ℕ → Option (List (PatternRoute P)) → List (Element P) → List (Element P)
  relinked_by target [] p es = es
  relinked_by target (id ∷ _) p es = relinked target p id es

  abbrev pub left_by : List ℕ → Option (List (PatternRoute P)) → Option (List (PatternRoute P))
  left_by [] p = p
  left_by (_ ∷ _) p = none

  abbrev pub kept_by : List ℕ → Option (List (PatternRoute P)) → List ℕ
  kept_by [] p = []
  kept_by (id ∷ _) p = kept p id

  pub record RelinkedAll (target : Target) (ls : List MethodLink) (st st' : Linking P)
      : Type 0 where
    pub routes_eq :
        (m : Bytes)
        → or_nil (st'.routes m)
          ≡ relinked_by target (links_for m ls) (find m st.left) (or_nil (st.routes m))
    pub left_eq : (m : Bytes) → find m st'.left ≡ left_by (links_for m ls) (find m st.left)
    pub links_eq :
        (m : Bytes)
        → links_for m st'.new_links
          ≡ links_for m st.new_links ++ kept_by (links_for m ls) (find m st.left)
    pub filled : (m : Bytes) → st.routes m ≢ some [] → st'.routes m ≢ some []
    pub unique : HasUniqueKeys st.left → HasUniqueKeys st'.left

  pub Marks-relinked :
      (i : ℕ) (u : Bytes) (here : Bool) (target : Target) (p : Option (List (PatternRoute P)))
      (id : ℕ) (es : List (Element P))
      → Marks id target.name true es
      → Marks i u here es
      → Marks i u here (relinked target p id es)
  Marks-relinked i u here target none id es h k = Marks-remove_element i u here id es k
  Marks-relinked i u here target (some prs) id es h k =
      Marks-set_value i u here id target.name (record { target = target; routes = prs }) es refl h k

  head_link :
      (t : Bytes) (l : MethodLink) (ls : List MethodLink) (routes : Map (List (Element P)))
      → Linked t (l ∷ ls) routes
      → links_for l.method (l ∷ ls) ≡ l.link ∷ []
  head_link t l ls routes v = ground (arith, v.single l.method)

  head_Marks :
      (t : Bytes) (l : MethodLink) (ls : List MethodLink) (routes : Map (List (Element P)))
      → Linked t (l ∷ ls) routes
      → (n : Bytes) → Marks l.link t (equals n l.method) (or_nil (routes n))
  head_Marks t l ls routes v n = v.marks l.method n l.link (head_link t l ls routes v)

  -- What is known before a round is known of the remaining links after it.
  relink-Linked :
      (target : Target) (l : MethodLink) (ls : List MethodLink) (st st' : Linking P)
      → Linked target.name (l ∷ ls) st.routes
      → Relinked target l st st'
      → Linked target.name ls st'.routes
  relink-Linked target l ls st st' v r = record {
    single = λ m. ground (arith, v.single m);
    ids = λ m id e. ground (arith, v.single m, v.ids m id, r.routes_eq m);
    marks = λ m n id e.
        let whole : links_for m (l ∷ ls) ≡ id ∷ [] =
          ground (arith, head_link target.name l ls st.routes v) in
        let before = v.marks m n id whole in
        rw (r.routes_eq n) (elim (bytes_discrete n l.method) [
          | no other ↦ rw (if_neg _ other) before
          | yes same ↦ rw (if_pos _ same) (
              Marks-relinked id target.name (equals n m) target (find l.method st.left) l.link
                (or_nil (st.routes n))
                (rw (equals-true n l.method same) at (head_Marks target.name l ls st.routes v n))
                before)
        ]);
  }

  pub relink_all_lem :
      (target : Target) (ls : List MethodLink) (st : Linking P)
      → Linked target.name ls st.routes
      → (st' : Linking P) × (relink_all target ls st ≡ some st') × RelinkedAll target ls st st'
  unfolding relink_all
  relink_all_lem target [] st v = (
    st,
    refl,
    record {
      routes_eq = λ m. refl;
      left_eq = λ m. refl;
      links_eq = λ m. sym (append-nil _);
      filled = λ m h. h;
      unique = λ h. h;
    },
  )
  relink_all_lem target (l ∷ ls) st v =
      let head = head_link target.name l ls st.routes v in
      let (st₁, e₁, r₁) =
        relink_lem target l st (v.ids l.method l.link head)
          (head_Marks target.name l ls st.routes v) in
      let (st₂, e₂, r₂) = relink_all_lem target ls st₁ (relink-Linked target l ls st st₁ v r₁) in
      (
        st₂,
        rw (e₁, relink_all) e₂,
        record {
          routes_eq = λ m. ground (arith, head, r₁.routes_eq m, r₁.left_eq m, r₂.routes_eq m);
          left_eq = λ m. ground (arith, head, r₁.left_eq m, r₂.left_eq m);
          links_eq = λ m. ground (
            arith,
            head,
            r₁.links_eq m,
            r₁.left_eq m,
            r₂.links_eq m,
            append-nil (links_for m st.new_links),
            append-nil
                (links_for m st.new_links ++ kept_by (links_for m (l ∷ ls)) (find m st.left)),
          );
          filled = λ m h. r₂.filled m (r₁.filled m h);
          unique = λ h. r₂.unique (r₁.unique h);
        },
      )
