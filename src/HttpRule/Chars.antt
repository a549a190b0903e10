-- ===== src/HttpRule/Chars.antt =====
-- internal/httprule/parse.go: the checks of identifiers and literals, byte by byte. A byte of a
-- non-ASCII character is refused like the character.
use grpcbridge.Base.{
  ℕ, zero, suc, ◌≤◌, ◌==◌, leb, ◌≡◌, refl, ◌↔◌, if◌then◌else◌, [], ◌∷◌, Option, none, some, Bool,
  true, false, ◌&&◌, ◌||◌, Bytes, codes, length, arith, ◌⊎◌, inl, inr, Option-cases, Bool-cases,
}
use grpcbridge.HttpRule.Tokenize.{is_one_of}

abbrev within : ℕ → ℕ → ℕ → Bool
within lo hi c = leb lo c && leb c hi

abbrev pub is_digit : ℕ → Bool
is_digit = within b'0' b'9'

abbrev pub is_alpha : ℕ → Bool
is_alpha c = within b'A' b'Z' c || within b'a' b'z' c

-- The bytes behind the first one of an identifier.
abbrev ident_rest : Bytes → Bool
ident_rest [] = true
ident_rest (c ∷ s) = (is_digit c || is_alpha c || c == b'_') && ident_rest s

-- `checkIdent(s) == nil`
unfoldable pub check_ident : Bytes → Bool
check_ident [] = true
check_ident (c ∷ s) = (is_alpha c || c == b'_') && ident_rest s

unfoldable pub is_hex : ℕ → Bool
is_hex c = is_digit c || within b'A' b'F' c || within b'a' b'f' c

-- Unreserved, sub-delims, ":" and "@"
unfoldable pub is_plain : ℕ → Bool
is_plain c = is_digit c || is_alpha c || is_one_of (codes "-._~!$&'()*+,;=:@") c

after_percent : Bytes → Option Bytes
after_percent [] = none
after_percent (a ∷ []) = none
after_percent (a ∷ b ∷ left) = if is_hex a && is_hex b then some left else none

-- `consumePchar` of a non-empty text; `none` is an error
unfoldable pub consume_pchar : ℕ → Bytes → Option Bytes
unfolding after_percent
consume_pchar c left =
    if is_plain c then some left else if c == b'%' then after_percent left else none

-- The loop of `checkLiteral`. Each round takes a byte, so the length is fuel enough.
unfoldable pub literal_loop : ℕ → Bytes → Bool
literal_loop f [] = true
literal_loop zero (c ∷ s) = false
literal_loop (suc f) (c ∷ s) = elim (consume_pchar c s) [
  | none ↦ false
  | some left ↦ literal_loop f left
]

unfoldable pub check_literal : Bytes → Bool
check_literal s = literal_loop (length s) s

-- LITERAL of httprule.bnf: plain characters and percent-encoded bytes.
pub data IsLiteral : Bytes → Type 0 where
  nil : IsLiteral []
  plain : (c : ℕ) (s : Bytes) → is_plain c ≡ true → IsLiteral s → IsLiteral (c ∷ s)
  encoded :
      (a b : ℕ) (s : Bytes)
      → is_hex a ≡ true
      → is_hex b ≡ true
      → IsLiteral s
      → IsLiteral (b'%' ∷ a ∷ b ∷ s)

consume_pchar_cases :
    (c : ℕ) (s left : Bytes)
    → consume_pchar c s ≡ some left
    → ((is_plain c ≡ true) × (left ≡ s))
      ⊎ ((a : ℕ) × (b : ℕ) × (c ≡ b'%')
          × (is_hex a ≡ true)
          × (is_hex b ≡ true)
          × (s ≡ a ∷ b ∷ left))
unfolding consume_pchar
consume_pchar_cases c [] left h = inl (ground arith, ground arith)
consume_pchar_cases c (a ∷ []) left h = inl (ground arith, ground arith)
consume_pchar_cases c (a ∷ b ∷ s) left h = elim (Bool-cases (is_plain c)) [
  | inl p ↦ inl (p, ground arith)
  | inr n ↦ inr (a, b, ground arith, ground arith, ground arith, ground arith)
]

literal_loop_sound : (f : ℕ) (s : Bytes) → literal_loop f s ≡ true → IsLiteral s
unfolding literal_loop
literal_loop_sound zero [] h = nil
literal_loop_sound (suc f) [] h = nil
literal_loop_sound zero (c ∷ s) h = cc
literal_loop_sound (suc f) (c ∷ s) h = elim (Option-cases (consume_pchar c s)) [
  | inl e ↦ absurd (ground arith)
  | inr (left, e) ↦
      let rest = literal_loop_sound f left (rw (e, literal_loop) at h) in
      elim (consume_pchar_cases c s left e) [
        | inl (p, same) ↦ plain c s p (rw same at rest)
        | inr (a, b, pct, ha, hb, same) ↦ rw (pct, same) (encoded a b left ha hb rest)
      ]
]

literal_loop_complete : (f : ℕ) (s : Bytes) → IsLiteral s → length s ≤ f → literal_loop f s ≡ true
unfolding literal_loop consume_pchar is_plain
literal_loop_complete zero [] nil h = refl
literal_loop_complete (suc f) [] nil h = refl
literal_loop_complete zero (c ∷ s) l h = absurd (omega arith)
literal_loop_complete (suc f) (c ∷ s) (plain _ _ p l) h =
    ground (arith, literal_loop_complete f s l)
literal_loop_complete (suc f) (c ∷ s) (encoded a b left ha hb l) h =
    ground (arith, literal_loop_complete f left l)

-- `checkLiteral` accepts exactly the LITERALs of the grammar.
pub check_literal_iff : (s : Bytes) → (check_literal s ≡ true) ↔ IsLiteral s
unfolding check_literal
check_literal_iff s =
    (literal_loop_sound (length s) s, λ l. literal_loop_complete (length s) s l (omega arith))
