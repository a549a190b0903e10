-- ===== src/Routing/Patterns/Table/Preserve.antt =====
-- An update keeps the invariant of the table.
use grpcbridge.Base.{
  ℕ, ◌+◌, ◌==◌, List, [], ◌∷◌, ◌++◌, Option, none, some, Bool, true, ◌&&◌, Bytes, bytes_discrete,
  equals, ite, ◌≡◌, ◌≢◌, refl, arith, inl, inr, append-nil, if_pos, if_neg,
}
use grpcbridge.Base.Maps.{or_nil}
use grpcbridge.Desc.{Target}
use grpcbridge.Routing.Patterns.{PatternRoute}
use grpcbridge.Routing.Patterns.Builder.{MethodMap, find}
use grpcbridge.Routing.Patterns.Table.{Element, Table}
use grpcbridge.Routing.Patterns.Table.Lists.{
  links_for, ids_for, ids_for-append, Marks, Below, ids_for-set_value, ids_for-remove_element,
  Marks-append, Below-append, Below-mono, ids_for-lt, Marks-above, Below-remove_element,
  Below-set_value,
}
use grpcbridge.Routing.Patterns.Table.RelinkAll.{AtMostOne, relinked_by, kept_by, Marks-relinked}
use grpcbridge.Routing.Patterns.Table.LinkNew.{added, added_id, place, place-lt, place-injective}
use grpcbridge.Routing.Patterns.Table.Invariant.{elements, IsLinked, Updated}

pub equals_self : (a : Bytes) → equals a a ≡ true
equals_self a = ground arith

module _ {P : Type 0} where
  ids_for-relinked_by :
      (u : Bytes) (target : Target) (p : Option (List (PatternRoute P))) (es : List (Element P))
      (ids : List ℕ)
      → ids_for target.name es ≡ ids
      → AtMostOne ids
      → ((id : ℕ) → ids ≡ id ∷ [] → Marks id target.name true es)
      → ids_for u (relinked_by target ids p es)
        ≡ ite (bytes_discrete u target.name) (kept_by ids p) (ids_for u es)
  ids_for-relinked_by u target p es ids e (inl z) marks = ground arith
  ids_for-relinked_by u target none es ids e (inr (id, z)) marks =
      ground (arith, ids_for-remove_element u id target.name es (marks id z))
  ids_for-relinked_by u target (some prs) es ids e (inr (id, z)) marks = ground (
    arith,
    ids_for-set_value u id target.name (record { target = target; routes = prs }) es refl
        (marks id z),
  )

  ids_for-added :
      (u : Bytes) (target : Target) (q : Option (List (PatternRoute P))) (n : ℕ)
      → ids_for u (added target q n) ≡ ite (bytes_discrete u target.name) (added_id q n) []
  ids_for-added u target none n = ground arith
  ids_for-added u target (some prs) n = ground arith

  Below-relinked_by :
      (n : ℕ) (target : Target) (p : Option (List (PatternRoute P))) (es : List (Element P))
      (ids : List ℕ)
      → Below n es
      → Below n (relinked_by target ids p es)
  Below-relinked_by n target p es [] b = b
  Below-relinked_by n target none es (id ∷ ids) b = Below-remove_element n id es b
  Below-relinked_by n target (some prs) es (id ∷ ids) b = Below-set_value n id _ es b

  Marks-relinked_by :
      (i : ℕ) (u : Bytes) (here : Bool) (target : Target) (p : Option (List (PatternRoute P)))
      (es : List (Element P)) (ids : List ℕ)
      → AtMostOne ids
      → ((id : ℕ) → ids ≡ id ∷ [] → Marks id target.name true es)
      → Marks i u here es
      → Marks i u here (relinked_by target ids p es)
  Marks-relinked_by i u here target p es [] one marks h = h
  Marks-relinked_by i u here target p es (id ∷ ids) one marks h =
      Marks-relinked i u here target p id es (marks id (ground arith)) h

  module _ (target : Target) (new : MethodMap (List (PatternRoute P))) (mt mt' : Table P)
      (v : IsLinked mt) (r : Updated target new mt mt') where
    own_Marks :
        (m : Bytes) (id : ℕ)
        → ids_for target.name (elements mt m) ≡ id ∷ []
        → Marks id target.name true (elements mt m)
    own_Marks m id e = rw (equals_self m) at (v.marks target.name m m id e)

    -- The elements of a target after the update.
    ids_after :
        (u m : Bytes)
        → ids_for u (elements mt' m)
          ≡ ite
              (bytes_discrete u target.name)
              (kept_by (ids_for target.name (elements mt m)) (find m new)
                ++ added_id (find m r.left) (mt.next_id + place m r.left))
              (ids_for u (elements mt m))
    ids_after u m =
        let ids = ids_for target.name (elements mt m) in
        ground (
          arith,
          r.routes_eq m,
          ids_for-append u (relinked_by target ids (find m new) (elements mt m))
              (added target (find m r.left) (mt.next_id + place m r.left)),
          ids_for-relinked_by u target (find m new) (elements mt m) ids refl
              (v.single target.name m) (own_Marks m),
          ids_for-added u target (find m r.left) (mt.next_id + place m r.left),
          append-nil (ids_for u (elements mt m)),
        )

    links_eq_after :
        (t m : Bytes) → links_for m (or_nil (mt'.target_links t)) ≡ ids_for t (elements mt' m)
    links_eq_after t m = elim (bytes_discrete t target.name) [
      | yes e ↦ rw e (rw (ids_after target.name m) (rw (if_pos _ refl) (r.links_eq m)))
      | no n ↦ rw (r.other_links t n) (rw (ids_after t m) (rw (if_neg _ n) (v.links_eq t m)))
    ]

    single_after : (t m : Bytes) → AtMostOne (ids_for t (elements mt' m))
    single_after t m =
        ground (arith, ids_after t m, v.single t m, v.single target.name m, r.left_eq m)

    fresh_after : (m : Bytes) → Below mt'.next_id (elements mt' m)
    fresh_after m = rw (r.routes_eq m) (
        Below-append mt'.next_id _ _
          (Below-mono mt.next_id mt'.next_id _ (omega (arith, r.next_eq))
            (Below-relinked_by mt.next_id target (find m new) (elements mt m) _ (v.fresh m)))
          (added_below (find m r.left) refl))
      where
        added_below :
            (q : Option (List (PatternRoute P)))
            → find m r.left ≡ q
            → Below mt'.next_id (added target q (mt.next_id + place m r.left))
        added_below none e = tt
        added_below (some prs) e =
            (omega (arith, r.next_eq, place-lt m r.left (λ n. ground arith)), tt)

    -- Marks on both parts of the list of `n` after the update.
    Marks-parts :
        (u n : Bytes) (id : ℕ) (here : Bool)
        → Marks id u here (elements mt n)
        → (find n r.left ≢ none
            → (mt.next_id + place n r.left == id) ≡ (equals target.name u && here))
        → Marks id u here (elements mt' n)
    Marks-parts u n id here old new_mark = rw (r.routes_eq n) (
        Marks-append id u here _ _
          (Marks-relinked_by id u here target (find n new) (elements mt n) _
            (v.single target.name n) (own_Marks n) old)
          (added_marks (find n r.left) refl))
      where
        added_marks :
            (q : Option (List (PatternRoute P)))
            → find n r.left ≡ q
            → Marks id u here (added target q (mt.next_id + place n r.left))
        added_marks none e = tt
        added_marks (some prs) e = (new_mark (λ z. ground arith), tt)

    Marks-old :
        (u m n : Bytes) (id : ℕ)
        → ids_for u (elements mt m) ≡ id ∷ []
        → (u ≡ target.name → find m r.left ≡ none)
        → Marks id u (equals n m) (elements mt' n)
    Marks-old u m n id e free = Marks-parts u n id (equals n m) (v.marks u m n id e) λ some_left.
        ground (arith, ids_for-lt mt.next_id u (elements mt m) id [] (v.fresh m) e, free)

    Marks-new :
        (m n : Bytes) (id : ℕ)
        → ids_for target.name (elements mt m) ≡ []
        → find m r.left ≢ none
        → id ≡ mt.next_id + place m r.left
        → Marks id target.name (equals n m) (elements mt' n)
    Marks-new m n id none_old added_m e =
        Marks-parts target.name n id (equals n m)
          (Marks-above mt.next_id id target.name (equals n m) (elements mt n) (v.fresh n)
            (omega arith) (ground arith))
          λ some_left. ground (arith, place-injective n m r.left some_left added_m)

    Marks-after :
        (u m n : Bytes) (id : ℕ)
        → ids_for u (elements mt' m) ≡ id ∷ []
        → Marks id u (equals n m) (elements mt' n)
    Marks-after u m n id e = elim (bytes_discrete u target.name) [
      | no other ↦ Marks-old u m n id (ground (arith, ids_after u m)) (λ z. absurd (other z))
      | yes same ↦ rw same (marks_own (rw same at e) (v.single target.name m))
    ]
      where
        marks_own :
            ids_for target.name (elements mt' m) ≡ id ∷ []
            → AtMostOne (ids_for target.name (elements mt m))
            → Marks id target.name (equals n m) (elements mt' n)
        marks_own own (inl z) =
            Marks-new m n id z (λ q. ground (arith, ids_after target.name m))
              (ground (arith, ids_after target.name m))
        marks_own own (inr (old, z)) =
            Marks-old target.name m n id (ground (arith, ids_after target.name m, r.left_eq m))
              (λ q. ground (arith, r.left_eq m))

    pub Updated-IsLinked : IsLinked mt'
    Updated-IsLinked = record {
      links_eq = links_eq_after;
      single = single_after;
      marks = Marks-after;
      fresh = fresh_after;
      filled = r.filled;
      committed = r.committed;
    }
