-- ===== src/Base/Strings.antt =====
-- What the code uses of Go's package strings, over byte strings.
use grpcbridge.Base.Tests.{◌==◌, ltb, if◌then◌else◌, Bool-cases}
use grpcbridge.Base.Lists.{Bytes, length, length-append, bytes_discrete}
use Prim.Native.Nat.{ℕ, zero, suc, ◌+◌, ◌-◌}
use mathlib.Core.Path.{◌≡◌, refl, ap}
use mathlib.Core.Logic.{◌⊎◌, ◌≢◌, inl, inr, ite}
use mathlib.Core.Bool.{Bool, true, false, ◌||◌}
use mathlib.Core.Option.{Option, none, some}
use mathlib.Core.List.{List, [], ◌∷◌, ◌++◌}
use native.Mathlib.Omega.{arith}
use native.Mathlib.Numerals.{add-one}

-- `s[:n]` and `s[n:]`, for n at most the length
abbrev pub take {ℓ} : {A : Type ℓ} → ℕ → List A → List A
take zero s = []
take (suc n) [] = []
take (suc n) (c ∷ s) = c ∷ take n s

abbrev pub drop {ℓ} : {A : Type ℓ} → ℕ → List A → List A
drop zero s = s
drop (suc n) [] = []
drop (suc n) (c ∷ s) = drop n s

abbrev pub equals : Bytes → Bytes → Bool
equals s t = ite (bytes_discrete s t) true false

-- `strings.HasSuffix(s, t)`
unfoldable pub has_suffix : Bytes → Bytes → Bool
has_suffix s t =
    if ltb (length s) (length t) then false else equals (drop (length s - length t) s) t

-- The byte does not occur.
abbrev pub Lacks : ℕ → Bytes → Type 0
Lacks c [] = Unit
Lacks c (x ∷ s) = ((x == c) ≡ false) × Lacks c s

abbrev prepend : ℕ → Option (Bytes × Bytes) → Option (Bytes × Bytes)
prepend x none = none
prepend x (some (before, after)) = some (x ∷ before, after)

-- `strings.Cut(s, string(c))`: the parts around the first `c`
unfoldable pub cut : ℕ → Bytes → Option (Bytes × Bytes)
cut c [] = none
cut c (x ∷ s) = if x == c then some ([], s) else prepend x (cut c s)

pub cut_found : (c : ℕ) (a b : Bytes) → Lacks c a → cut c (a ++ c ∷ b) ≡ some (a, b)
unfolding cut
cut_found c [] b h = ground arith
cut_found c (x ∷ a) b h = rw h.0 (rw (cut_found c a b h.1) refl)

pub cut_missing : (c : ℕ) (s : Bytes) → Lacks c s → cut c s ≡ none
unfolding cut
cut_missing c [] h = refl
cut_missing c (x ∷ s) h = rw h.0 (rw (cut_missing c s h.1) refl)

-- The outcomes of `cut`, with what they say of the text.
pub cut_cases :
    (c : ℕ) (s : Bytes)
    → ((cut c s ≡ none) × Lacks c s)
      ⊎ ((a : Bytes) × (b : Bytes) × (cut c s ≡ some (a, b)) × (s ≡ a ++ c ∷ b) × Lacks c a)
unfolding cut
cut_cases c [] = inl (refl, tt)
cut_cases c (x ∷ s) = elim (Bool-cases (x == c)) [
  | inl e ↦ inr ([], s, rw e, ground arith, tt)
  | inr e ↦ elim (cut_cases c s) [
    | inl (n, l) ↦ inl (rw e (rw n), (e, l))
    | inr (a, b, n, p, l) ↦ inr (x ∷ a, b, rw e (rw n), ap (◌∷◌ x) p, (e, l))
  ]
]

-- `slices.Contains`
unfoldable pub contains : Bytes → List Bytes → Bool
contains a [] = false
contains a (x ∷ xs) = ite (bytes_discrete a x) true (contains a xs)

pub contains-append :
    (a : Bytes) (xs ys : List Bytes) → contains a (xs ++ ys) ≡ contains a xs || contains a ys
unfolding contains
contains-append a [] ys = refl
contains-append a (x ∷ xs) ys = ground (arith, contains-append a xs ys)

-- Put before the first piece.
extend_first : ℕ → List Bytes → List Bytes
extend_first x [] = (x ∷ []) ∷ []
extend_first x (p ∷ ps) = (x ∷ p) ∷ ps

-- `strings.Split(s, string(c))`
unfoldable pub split : ℕ → Bytes → List Bytes
unfolding extend_first
split c [] = [] ∷ []
split c (x ∷ s) = if x == c then [] ∷ split c s else extend_first x (split c s)

-- The last element and those before it, `[]` where there is none.
abbrev pub last : List Bytes → Bytes
last [] = []
last (x ∷ []) = x
last (x ∷ y ∷ xs) = last (y ∷ xs)

abbrev pub set_last : Bytes → List Bytes → List Bytes
set_last v [] = []
set_last v (x ∷ []) = v ∷ []
set_last v (x ∷ y ∷ xs) = x ∷ set_last v (y ∷ xs)

abbrev pub join : ℕ → List Bytes → Bytes
join c [] = []
join c (x ∷ []) = x
join c (x ∷ y ∷ xs) = x ++ c ∷ join c (y ∷ xs)

-- Joining what was split gives the text back.
join-extend_first :
    (c x : ℕ) (ps : List Bytes) → ps ≢ [] → join c (extend_first x ps) ≡ x ∷ join c ps
unfolding extend_first
join-extend_first c x [] h = absurd (h refl)
join-extend_first c x (p ∷ []) h = refl
join-extend_first c x (p ∷ q ∷ ps) h = refl

extend_first-ne-nil : (x : ℕ) (ps : List Bytes) → extend_first x ps ≢ []
unfolding extend_first
extend_first-ne-nil x [] = λ e. cc
extend_first-ne-nil x (p ∷ ps) = λ e. cc

join_nil_first : (c : ℕ) (ps : List Bytes) → ps ≢ [] → join c ([] ∷ ps) ≡ c ∷ join c ps
join_nil_first c [] h = absurd (h refl)
join_nil_first c (p ∷ ps) h = refl

pub eq_of_test : (a b : ℕ) → (a == b) ≡ true → a ≡ b
eq_of_test a b h = ground arith

split-ne-nil : (c : ℕ) (s : Bytes) → split c s ≢ []
unfolding split
split-ne-nil c [] e = cc
split-ne-nil c (x ∷ s) e = ground (arith, extend_first-ne-nil x (split c s))

pub join-split : (c : ℕ) (s : Bytes) → join c (split c s) ≡ s
unfolding split
join-split c [] = refl
join-split c (x ∷ s) = ground (
  arith,
  join-split c s,
  join-extend_first c x (split c s),
  split-ne-nil c s,
  join_nil_first c (split c s),
  eq_of_test x c,
)

pub take-append : (s t : Bytes) → take (length s) (s ++ t) ≡ s
take-append [] t = refl
take-append (x ∷ s) t = ap (◌∷◌ x) (take-append s t)

pub drop-append : (s t : Bytes) → drop (length s) (s ++ t) ≡ t
drop-append [] t = refl
drop-append (x ∷ s) t = drop-append s t

length_stem : (s t : Bytes) → length (s ++ t) - length t ≡ length s
length_stem s t = omega (arith, length-append s t)

-- A text split before a suffix.
pub has_suffix-append : (s t : Bytes) → has_suffix (s ++ t) t ≡ true
unfolding has_suffix
has_suffix-append s t =
    ground (arith, length-append s t, rw (← length_stem s t) at (drop-append s t))

pub drop_after : (s t : Bytes) (c : ℕ) → drop (length s + 1) (s ++ c ∷ t) ≡ t
drop_after [] t c = refl
drop_after (x ∷ s) t c = rw add-one (rw add-one at (drop_after s t c))
