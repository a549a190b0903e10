-- ===== src/Routing/Patterns/Table/Lists.antt =====
-- One list of elements: what a removal or a write through a link does to it, by the targets' names.
use grpcbridge.Base.{
  ℕ, ◌==◌, List, [], ◌∷◌, ◌++◌, Bool, true, false, ◌&&◌, Bytes, bytes_discrete, equals, ite, ◌≡◌,
  refl, arith, ◌⊎◌, ◌<◌, ◌≤◌,
}
use grpcbridge.Routing.Patterns.{TargetPatternRoutes}
use grpcbridge.Routing.Patterns.Table.{Element, MethodLink, remove_element, set_value, values}

-- The elements that the links of one target have in the list of a method.
abbrev pub links_for : Bytes → List MethodLink → List ℕ
links_for m [] = []
links_for m (l ∷ ls) = ite (bytes_discrete l.method m) (l.link ∷ links_for m ls) (links_for m ls)

pub links_for-append :
    (m : Bytes) (xs ys : List MethodLink)
    → links_for m (xs ++ ys) ≡ links_for m xs ++ links_for m ys
links_for-append m [] ys = refl
links_for-append m (l ∷ xs) ys = ground (arith, links_for-append m xs ys)

module _ {P : Type 0} where
  -- The elements of a target.
  abbrev pub ids_for : Bytes → List (Element P) → List ℕ
  ids_for t [] = []
  ids_for t (e ∷ es) =
      ite (bytes_discrete e.value.target.name t) (e.id ∷ ids_for t es) (ids_for t es)

  pub ids_for-append :
      (t : Bytes) (xs ys : List (Element P)) → ids_for t (xs ++ ys) ≡ ids_for t xs ++ ids_for t ys
  ids_for-append t [] ys = refl
  ids_for-append t (e ∷ xs) ys = ground (arith, ids_for-append t xs ys)

  -- If the list is the right one, the number is that of exactly the target's elements, and
  -- otherwise that of none.
  abbrev pub Marks : ℕ → Bytes → Bool → List (Element P) → Type 0
  Marks id t here [] = Unit
  Marks id t here (e ∷ es) =
      ((e.id == id) ≡ (equals e.value.target.name t && here)) × Marks id t here es

  -- All numbers are below the next one.
  abbrev pub Below : ℕ → List (Element P) → Type 0
  Below n [] = Unit
  Below n (e ∷ es) = (e.id < n) × Below n es

  -- The abstract view of a list: its values, without or with another value for a target.
  abbrev pub without : Bytes → List (TargetPatternRoutes P) → List (TargetPatternRoutes P)
  without t [] = []
  without t (v ∷ vs) = ite (bytes_discrete v.target.name t) (without t vs) (v ∷ without t vs)

  abbrev pub replace :
      Bytes → TargetPatternRoutes P → List (TargetPatternRoutes P) → List (TargetPatternRoutes P)
  replace t w [] = []
  replace t w (v ∷ vs) = ite (bytes_discrete v.target.name t) w v ∷ replace t w vs

  abbrev pub has_target : Bytes → List (TargetPatternRoutes P) → Bool
  has_target t [] = false
  has_target t (v ∷ vs) = ite (bytes_discrete v.target.name t) true (has_target t vs)

  pub has_target-values :
      (t : Bytes) (es : List (Element P)) (id : ℕ) (ids : List ℕ)
      → (ids_for t es ≡ [] → has_target t (values es) ≡ false)
        × (ids_for t es ≡ id ∷ ids → has_target t (values es) ≡ true)
  unfolding values
  has_target-values t [] id ids = (λ h. refl, λ h. cc)
  has_target-values t (e ∷ es) id ids =
      let rest = has_target-values t es id ids in ground (arith, rest.0, rest.1)

  pub without-values :
      (t : Bytes) (es : List (Element P)) → ids_for t es ≡ [] → without t (values es) ≡ values es
  unfolding values
  without-values t [] h = refl
  without-values t (e ∷ es) h = ground (arith, without-values t es)

  pub set_value_missing :
      (id : ℕ) (t : Bytes) (v : TargetPatternRoutes P) (es : List (Element P))
      → Marks id t false es
      → set_value id v es ≡ es
  unfolding set_value
  set_value_missing id t v [] h = refl
  set_value_missing id t v (e ∷ es) h = ground (arith, set_value_missing id t v es h.1)

  pub values-set_value :
      (id : ℕ) (t : Bytes) (v : TargetPatternRoutes P) (es : List (Element P))
      → Marks id t true es
      → values (set_value id v es) ≡ replace t v (values es)
  unfolding set_value values
  values-set_value id t v [] h = refl
  values-set_value id t v (e ∷ es) h = ground (arith, values-set_value id t v es h.1)

  pub ids_for-set_value :
      (u : Bytes) (id : ℕ) (t : Bytes) (v : TargetPatternRoutes P) (es : List (Element P))
      → v.target.name ≡ t
      → Marks id t true es
      → ids_for u (set_value id v es) ≡ ids_for u es
  unfolding set_value
  ids_for-set_value u id t v [] e h = refl
  ids_for-set_value u id t v (x ∷ es) e h = ground (arith, ids_for-set_value u id t v es e h.1)

  pub values-remove_element :
      (id : ℕ) (t : Bytes) (es : List (Element P))
      → Marks id t true es
      → ids_for t es ≡ id ∷ []
      → values (remove_element id es) ≡ without t (values es)
  unfolding remove_element values
  values-remove_element id t [] h e = cc
  values-remove_element id t (x ∷ es) h e =
      ground (arith, values-remove_element id t es h.1, without-values t es)

  pub ids_for-remove_element :
      (u : Bytes) (id : ℕ) (t : Bytes) (es : List (Element P))
      → Marks id t true es
      → ids_for t es ≡ id ∷ []
      → ids_for u (remove_element id es) ≡ ite (bytes_discrete u t) [] (ids_for u es)
  unfolding remove_element
  ids_for-remove_element u id t [] h e = cc
  ids_for-remove_element u id t (x ∷ es) h e = ground (arith, ids_for-remove_element u id t es h.1)

  pub Marks-remove_element :
      (i : ℕ) (t : Bytes) (here : Bool) (id : ℕ) (es : List (Element P))
      → Marks i t here es
      → Marks i t here (remove_element id es)
  unfolding remove_element
  Marks-remove_element i t here id [] h = tt
  Marks-remove_element i t here id (e ∷ es) h =
      ground (arith, Marks-remove_element i t here id es h.1)

  -- A write keeps the marks of another number; `v` is the new value of the elements of target `t`.
  pub Marks-set_value :
      (i : ℕ) (u : Bytes) (here : Bool) (id : ℕ) (t : Bytes) (v : TargetPatternRoutes P)
      (es : List (Element P))
      → v.target.name ≡ t
      → Marks id t true es
      → Marks i u here es
      → Marks i u here (set_value id v es)
  unfolding set_value
  Marks-set_value i u here id t v [] e h k = tt
  Marks-set_value i u here id t v (x ∷ es) e h k =
      ground (arith, Marks-set_value i u here id t v es e h.1 k.1)

  pub Below-remove_element :
      (n id : ℕ) (es : List (Element P)) → Below n es → Below n (remove_element id es)
  unfolding remove_element
  Below-remove_element n id [] h = tt
  Below-remove_element n id (e ∷ es) h = ground (arith, Below-remove_element n id es h.1)

  pub Below-set_value :
      (n id : ℕ) (v : TargetPatternRoutes P) (es : List (Element P))
      → Below n es
      → Below n (set_value id v es)
  unfolding set_value
  Below-set_value n id v [] h = tt
  Below-set_value n id v (e ∷ es) h = ground (arith, Below-set_value n id v es h.1)

  pub Marks-append :
      (i : ℕ) (t : Bytes) (here : Bool) (xs ys : List (Element P))
      → Marks i t here xs
      → Marks i t here ys
      → Marks i t here (xs ++ ys)
  Marks-append i t here [] ys h k = k
  Marks-append i t here (x ∷ xs) ys h k = (h.0, Marks-append i t here xs ys h.1 k)

  pub Below-append :
      (n : ℕ) (xs ys : List (Element P)) → Below n xs → Below n ys → Below n (xs ++ ys)
  Below-append n [] ys h k = k
  Below-append n (x ∷ xs) ys h k = (h.0, Below-append n xs ys h.1 k)

  pub Below-mono : (m n : ℕ) (xs : List (Element P)) → m ≤ n → Below m xs → Below n xs
  Below-mono m n [] h b = tt
  Below-mono m n (x ∷ xs) h b = (omega arith, Below-mono m n xs h b.1)

  pub ids_for-lt :
      (n : ℕ) (t : Bytes) (xs : List (Element P)) (id : ℕ) (ids : List ℕ)
      → Below n xs
      → ids_for t xs ≡ id ∷ ids
      → id < n
  ids_for-lt n t [] id ids b e = absurd (ground arith)
  ids_for-lt n t (x ∷ xs) id ids b e = ground (arith, ids_for-lt n t xs id ids b.1)

  -- A number above all of the list marks nothing in it.
  pub Marks-above :
      (n i : ℕ) (t : Bytes) (here : Bool) (xs : List (Element P))
      → Below n xs
      → n ≤ i
      → (here ≡ false) ⊎ (ids_for t xs ≡ [])
      → Marks i t here xs
  Marks-above n i t here [] b h c = tt
  Marks-above n i t here (x ∷ xs) b h c = ground (arith, Marks-above n i t here xs b.1 h)
