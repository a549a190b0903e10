-- ===== src/Transcoding/Paths/Chains.antt =====
-- transcoding/http.go: the paths that can be traversed.
use grpcbridge.Base.{
  ◌≡◌, ◌≢◌, refl, sym, ap, ◌∙◌, subst, if◌then◌else◌, List, [], ◌∷◌, ◌++◌, append_assoc, append-nil,
  none, some, Bool, true, false, Bytes, equals, split, arith, inl, inr, Lacks, All, Option-cases,
  Bool-cases,
}
use grpcbridge.Transcoding.Paths.{
  Field, message_field, other_field, Schema, Traversed, traversed, invalid_path, wildcard_path,
  is_last, traverse_elements, traverse_field_path,
}

-- Pieces with dots between them.
abbrev pub dotted : List Bytes → Bytes
dotted [] = []
dotted (p ∷ []) = p
dotted (p ∷ q ∷ ps) = p ++ b'.' ∷ dotted (q ∷ ps)

-- An element of a path: not empty, without a dot.
abbrev pub IsElement : Bytes → Type 0
IsElement p = (p ≢ []) × Lacks b'.' p

split_piece : (p s : Bytes) → Lacks b'.' p → split b'.' (p ++ b'.' ∷ s) ≡ p ∷ split b'.' s
unfolding split
split_piece [] s h = refl
split_piece (x ∷ p) s h = rw (h.0, split) (rw (split_piece p s h.1, split) refl)

split_whole : (p : Bytes) → Lacks b'.' p → split b'.' p ≡ p ∷ []
unfolding split
split_whole [] h = refl
split_whole (x ∷ p) h = rw (h.0, split) (rw (split_whole p h.1, split) refl)

split-dotted :
    (p : Bytes) (ps : List Bytes) → All IsElement (p ∷ ps) → split b'.' (dotted (p ∷ ps)) ≡ p ∷ ps
split-dotted p [] h = split_whole p h.0.1
split-dotted p (q ∷ ps) h =
    split_piece p (dotted (q ∷ ps)) h.0.1 ∙ ap (◌∷◌ p) (split-dotted q ps h.1)

split_trailing :
    (p : Bytes) (ps : List Bytes)
    → All IsElement (p ∷ ps)
    → split b'.' (dotted (p ∷ ps) ++ b'.' ∷ []) ≡ (p ∷ ps) ++ [] ∷ []
unfolding split
split_trailing p [] h = split_piece p [] h.0.1
split_trailing p (q ∷ ps) h =
    ap (split b'.') (append_assoc p (b'.' ∷ dotted (q ∷ ps)) (b'.' ∷ []))
    ∙ split_piece p (dotted (q ∷ ps) ++ b'.' ∷ []) h.0.1
    ∙ ap (◌∷◌ p) (split_trailing q ps h.1)

module _ (schema : Schema) where
  open schema use {Descriptor, by_name}

  -- The names lead from a message to a field of a message, by message fields.
  pub data LeadsTo : Descriptor → List Bytes → Bytes → Type 0 where
    ends :
        (d : Descriptor) (f : Field Descriptor) (name : Bytes)
        → by_name d name ≡ some f
        → LeadsTo d [] name
    goes_on :
        (d e : Descriptor) (p : Bytes) (ps : List Bytes) (name : Bytes)
        → by_name d p ≡ some (message_field e)
        → LeadsTo e ps name
        → LeadsTo d (p ∷ ps) name

  last_found :
      (d : Descriptor) (above : List Bytes) (f : Field Descriptor) (name : Bytes)
      (rest : List Bytes)
      → by_name d name ≡ some f
      → name ≢ []
      → is_last schema rest ≡ true
      → traverse_elements schema d above (name ∷ rest) ≡ traversed above (some name)
  unfolding traverse_elements
  last_found d above f [] rest h n l = absurd (n refl)
  last_found d above other_field (c ∷ name) rest h n l = rw (h, traverse_elements) (rw l refl)
  last_found d above (message_field e) (c ∷ name) rest h n l = rw (h, traverse_elements) (rw l refl)

  descends :
      (d e : Descriptor) (above : List Bytes) (p q : Bytes) (rest : List Bytes)
      → by_name d p ≡ some (message_field e)
      → p ≢ []
      → q ≢ []
      → traverse_elements schema d above (p ∷ q ∷ rest)
        ≡ traverse_elements schema e (above ++ p ∷ []) (q ∷ rest)
  unfolding traverse_elements
  descends d e above [] q rest h n m = absurd (n refl)
  descends d e above (c ∷ p) [] rest h n m = absurd (m refl)
  descends d e above (c ∷ p) (k ∷ q) rest h n m = rw (h, traverse_elements) refl

  -- Along a chain, with something behind it that ends the path.
  traverse_chain :
      (d : Descriptor) (above ps : List Bytes) (name : Bytes) (rest : List Bytes)
      → LeadsTo d ps name
      → All IsElement (ps ++ name ∷ [])
      → is_last schema rest ≡ true
      → traverse_elements schema d above (ps ++ name ∷ rest) ≡ traversed (above ++ ps) (some name)
  traverse_chain d above _ name rest (ends _ f _ h) es l =
      last_found d above f name rest h es.0.0 l
      ∙ ap (λ (x : List Bytes). traversed x (some name)) (sym (append-nil above))
  traverse_chain d above _ name rest (goes_on _ e p [] _ h t) es l =
      descends d e above p name rest h es.0.0 es.1.0.0
      ∙ traverse_chain e (above ++ p ∷ []) [] name rest t es.1 l
      ∙ ap (λ (x : List Bytes). traversed x (some name)) (append_assoc above (p ∷ []) [])
  traverse_chain d above _ name rest (goes_on _ e p (q ∷ ps) _ h t) es l =
      descends d e above p q (ps ++ name ∷ rest) h es.0.0 es.1.0.0
      ∙ traverse_chain e (above ++ p ∷ []) (q ∷ ps) name rest t es.1 l
      ∙ ap (λ (x : List Bytes). traversed x (some name)) (append_assoc above (p ∷ []) (q ∷ ps))

  traverse_split :
      (d : Descriptor) (path : Bytes)
      → path ≢ []
      → path ≢ wildcard_path
      → traverse_field_path schema d path ≡ traverse_elements schema d [] (split b'.' path)
  unfolding traverse_field_path
  traverse_split d [] n m = absurd (n refl)
  traverse_split d (c ∷ path) n m =
      ap
        (λ (b : Bool).
          if b then traversed [] none else traverse_elements schema d [] (split b'.' (c ∷ path)))
        (not-wildcard (c ∷ path) m)
    where
      not-wildcard : (s : Bytes) → s ≢ wildcard_path → equals s wildcard_path ≡ false
      not-wildcard s m = ground arith

  split_elements :
      (ps : List Bytes) (name : Bytes)
      → All IsElement (ps ++ name ∷ [])
      → split b'.' (dotted (ps ++ name ∷ [])) ≡ ps ++ name ∷ []
  split_elements [] name es = split-dotted name [] es
  split_elements (p ∷ ps) name es = split-dotted p (ps ++ name ∷ []) es

  split_elements_trailing :
      (ps : List Bytes) (name : Bytes)
      → All IsElement (ps ++ name ∷ [])
      → split b'.' (dotted (ps ++ name ∷ []) ++ b'.' ∷ []) ≡ ps ++ name ∷ [] ∷ []
  split_elements_trailing [] name es = split_trailing name [] es
  split_elements_trailing (p ∷ ps) name es =
      split_trailing p (ps ++ name ∷ []) es ∙ append_assoc (p ∷ ps) (name ∷ []) ([] ∷ [])

  -- A path of names without dots, each a field of the message that the names before it lead to, is
  -- traversed to its last field, also with a dot behind it, unless it is the star.
  pub traverse_field_path_chain :
      (d : Descriptor) (ps : List Bytes) (name : Bytes)
      → LeadsTo d ps name
      → All IsElement (ps ++ name ∷ [])
      → dotted (ps ++ name ∷ []) ≢ []
      → dotted (ps ++ name ∷ []) ≢ wildcard_path
      → (traverse_field_path schema d (dotted (ps ++ name ∷ [])) ≡ traversed ps (some name))
        × (traverse_field_path schema d (dotted (ps ++ name ∷ []) ++ b'.' ∷ [])
            ≡ traversed ps (some name))
  traverse_field_path_chain d ps name t es n m = (
    traverse_split d (dotted (ps ++ name ∷ [])) n m
        ∙ ap (traverse_elements schema d []) (split_elements ps name es)
        ∙ traverse_chain d [] ps name [] t es refl,
    traverse_split d (dotted (ps ++ name ∷ []) ++ b'.' ∷ []) (longer (dotted (ps ++ name ∷ [])))
          (ends_with_dot (dotted (ps ++ name ∷ [])))
        ∙ ap (traverse_elements schema d []) (split_elements_trailing ps name es)
        ∙ traverse_chain d [] ps name ([] ∷ []) t es refl,
  )
    where
      longer : (s : Bytes) → (s ++ b'.' ∷ []) ≢ []
      longer [] h = absurd cc
      longer (c ∷ s) h = absurd cc

      ends_with_dot : (s : Bytes) → (s ++ b'.' ∷ []) ≢ wildcard_path
      ends_with_dot [] h = ground arith
      ends_with_dot (c ∷ []) h = absurd cc
      ends_with_dot (c ∷ x ∷ s) h = absurd cc

  -- The chain that a traversal has followed.
  abbrev pub Follows : Descriptor → List Bytes → List Bytes → Bytes → Type 0
  Follows d above full name = (ps : List Bytes) × (full ≡ above ++ ps) × LeadsTo d ps name

  abbrev Sound : Descriptor → List Bytes → Traversed → Type 0
  Sound d above (traversed full (some name)) = Follows d above full name
  Sound d above (traversed full none) = Unit
  Sound d above invalid_path = Unit

  at_last :
      (d : Descriptor) (above : List Bytes) (f : Field Descriptor) (p : Bytes)
      → by_name d p ≡ some f
      → Sound d above (traversed above (some p))
  at_last d above f p h = ([], sym (append-nil above), ends d f p h)

  below :
      (d e : Descriptor) (above : List Bytes) (p : Bytes) (t : Traversed)
      → by_name d p ≡ some (message_field e)
      → Sound e (above ++ p ∷ []) t
      → Sound d above t
  below d e above p (traversed full (some name)) h (ps, same, leads) =
      (p ∷ ps, same ∙ append_assoc above (p ∷ []) ps, goes_on d e p ps name h leads)
  below d e above p (traversed full none) h s = tt
  below d e above p invalid_path h s = tt

  traverse_elements-Sound :
      (d : Descriptor) (above elements : List Bytes)
      → Sound d above (traverse_elements schema d above elements)
  unfolding traverse_elements
  traverse_elements-Sound d above [] = tt
  traverse_elements-Sound d above ([] ∷ []) = tt
  traverse_elements-Sound d above ([] ∷ q ∷ rest) = tt
  traverse_elements-Sound d above ((c ∷ p) ∷ rest) = elim (Option-cases (by_name d (c ∷ p))) [
    | inl n ↦ rw (n, traverse_elements) tt
    | inr (other_field, h) ↦ elim (Bool-cases (is_last schema rest)) [
      | inl y ↦ rw (h, traverse_elements) (rw y (at_last d above other_field (c ∷ p) h))
      | inr n ↦ rw (h, traverse_elements) (rw n tt)
    ]
    | inr (message_field e, h) ↦ elim (Bool-cases (is_last schema rest)) [
      | inl y ↦ rw (h, traverse_elements) (rw y (at_last d above (message_field e) (c ∷ p) h))
      | inr n ↦
          rw (h, traverse_elements)
            (rw n (
              below d e above (c ∷ p) _ h (traverse_elements-Sound e (above ++ (c ∷ p) ∷ []) rest)))
    ]
  ]

  traverse_field_path-Sound :
      (d : Descriptor) (path : Bytes) → Sound d [] (traverse_field_path schema d path)
  unfolding traverse_field_path
  traverse_field_path-Sound d [] = tt
  traverse_field_path-Sound d (c ∷ path) = elim (Bool-cases (equals (c ∷ path) wildcard_path)) [
    | inl y ↦ rw y tt
    | inr n ↦ rw n (traverse_elements-Sound d [] (split b'.' (c ∷ path)))
  ]

  -- A traversal that ends with a field has followed message fields from the message to it.
  pub traverse_field_path-LeadsTo :
      (d : Descriptor) (path : Bytes) (ps : List Bytes) (name : Bytes)
      → traverse_field_path schema d path ≡ traversed ps (some name)
      → LeadsTo d ps name
  traverse_field_path-LeadsTo d path ps name h =
      let (qs, same, leads) = subst (Sound d []) h (traverse_field_path-Sound d path) in
      subst (λ (x : List Bytes). LeadsTo d x name) (sym same) leads
