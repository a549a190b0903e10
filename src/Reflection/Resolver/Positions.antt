-- ===== src/Reflection/Resolver/Positions.antt =====
-- reflection/resolver.go: the positions of the methods in their order of priority.
use grpcbridge.Base.{
  ℕ, zero, suc, ◌==◌, ◌≡◌, ◌≢◌, refl, if◌then◌else◌, List, [], ◌∷◌, ◌++◌, Option, none, some, sym,
  ap, ◌∙◌, eq_of_test, Bytes, length, arith, Bool-cases, inl, inr,
}
use grpcbridge.Reflection.Resolver.{prioritized}

abbrev pub get_elem? : {A : Type 0} → List A → ℕ → Option A
get_elem? [] i = none
get_elem? (x ∷ xs) zero = some x
get_elem? (x ∷ xs) (suc i) = get_elem? xs i

-- The position that changes places with `i`, where the first one and the one at `n` do.
abbrev pub exchange : ℕ → ℕ → ℕ
exchange n i = if i == 0 then n else if i == n then 0 else i

get_elem?-append_at :
    {A : Type 0} (xs ys : List A) (y : A) → get_elem? (xs ++ y ∷ ys) (length xs) ≡ some y
get_elem?-append_at [] ys y = refl
get_elem?-append_at (x ∷ xs) ys y = get_elem?-append_at xs ys y

get_elem?-append_other :
    {A : Type 0} (xs ys : List A) (y z : A) (i : ℕ)
    → i ≢ length xs
    → get_elem? (xs ++ y ∷ ys) i ≡ get_elem? (xs ++ z ∷ ys) i
get_elem?-append_other [] ys y z zero h = absurd (h refl)
get_elem?-append_other [] ys y z (suc i) h = refl
get_elem?-append_other (x ∷ xs) ys y z zero h = refl
get_elem?-append_other (x ∷ xs) ys y z (suc i) h = get_elem?-append_other xs ys y z i (ground arith)

exchange_first : (i : ℕ) → exchange 0 i ≡ i
exchange_first zero = refl
exchange_first (suc i) = ground arith

exchange_at : (n i : ℕ) → i ≡ n → exchange (suc n) (suc i) ≡ 0
exchange_at n i e = ground arith

exchange_other : (n i : ℕ) → i ≢ n → exchange (suc n) (suc i) ≡ suc i
exchange_other n i h = ground arith

pub get_elem?-prioritized :
    (tried : List Bytes) (m : Bytes) (rest : List Bytes) (i : ℕ)
    → get_elem? (prioritized tried m rest) i
      ≡ get_elem? (tried ++ m ∷ rest) (exchange (length tried) i)
unfolding prioritized
get_elem?-prioritized [] m rest i = sym (ap (get_elem? (m ∷ rest)) (exchange_first i))
get_elem?-prioritized (f ∷ tried) m rest zero = sym (get_elem?-append_at tried rest m)
get_elem?-prioritized (f ∷ tried) m rest (suc i) = elim (Bool-cases (i == length tried)) [
  | inl y ↦
      ap (get_elem? (tried ++ f ∷ rest)) (eq_of_test i (length tried) y)
      ∙ get_elem?-append_at tried rest f
      ∙ sym (
          ap (get_elem? (f ∷ (tried ++ m ∷ rest)))
            (exchange_at (length tried) i (eq_of_test i (length tried) y)))
  | inr n ↦
      get_elem?-append_other tried rest f m i (ground arith)
      ∙ sym (
          ap (get_elem? (f ∷ (tried ++ m ∷ rest))) (exchange_other (length tried) i (ground arith)))
]
