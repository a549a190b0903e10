-- ===== src/HttpRule/Trie/Fuel.antt =====
-- internal/httprule/trie.go: the loop over colons ends within its fuel.
use grpcbridge.Base.{
  ℕ, zero, suc, ◌<◌, ◌≡◌, refl, [], ◌∷◌, Option, none, some, Bytes, length, arith, Option-cases,
  Bool-cases, subst, ◌==◌, inl, inr,
}
use grpcbridge.HttpRule.Parse.{cut_last_colon, later_or}
use grpcbridge.HttpRule.Trie.{Children, child_at, verb_of_pointer, literal_with_verb}

-- A cut shortens the text.
abbrev IsShorter : Bytes → Option (Bytes × Bytes) → Type 0
IsShorter s none = Unit
IsShorter s (some (before, verb)) = length before < length s

later_or-IsShorter :
    (c : ℕ) (o : Option (Bytes × Bytes)) (s : Bytes)
    → IsShorter s o
    → IsShorter (c ∷ s) (later_or c o s)
later_or-IsShorter c none s h = elim (Bool-cases (c == b':')) [
  | inl y ↦ rw y (omega arith)
  | inr n ↦ rw n tt
]
later_or-IsShorter c (some (before, verb)) s h = omega arith

cut_last_colon-IsShorter : (s : Bytes) → IsShorter s (cut_last_colon s)
unfolding cut_last_colon
cut_last_colon-IsShorter [] = tt
cut_last_colon-IsShorter (c ∷ s) =
    later_or-IsShorter c (cut_last_colon s) s (cut_last_colon-IsShorter s)

-- More fuel than the length of the component changes nothing.
pub literal_with_verb_enough :
    (f g : ℕ) (cs : Children) (component : Bytes)
    → length component < f
    → length component < g
    → literal_with_verb f cs component ≡ literal_with_verb g cs component
unfolding literal_with_verb
literal_with_verb_enough zero g cs component h k = absurd (omega arith)
literal_with_verb_enough (suc f) zero cs component h k = absurd (omega arith)
literal_with_verb_enough (suc f) (suc g) cs component h k =
    elim (Option-cases (cut_last_colon component)) [
      | inl n ↦ rw (n, literal_with_verb) refl
      | inr ((before, verb), e) ↦ elim (Option-cases (verb_of_pointer verb (child_at before cs))) [
        | inr (t, o) ↦ rw (e, literal_with_verb) (rw (o, literal_with_verb) refl)
        | inl n ↦
            let shorter : length before < length component =
              subst (IsShorter component) e (cut_last_colon-IsShorter component) in
            rw (e, literal_with_verb)
              (rw (n, literal_with_verb)
                (literal_with_verb_enough f g cs before (omega arith) (omega arith)))
      ]
    ]
