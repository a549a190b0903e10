-- ===== src/HttpRule/Parse/Verbs.antt =====
-- internal/httprule/parse.go: the verb of a template, split from a last literal or behind a last variable.
use grpcbridge.Base.{
  ℕ, ◌==◌, ◌≡◌, ◌≢◌, refl, sym, ap, List, [], ◌∷◌, ◌++◌, none, some, Bool, true, false, Bytes,
  equals, arith, append_assoc, append-nil, Bool-cases, inl, inr, ◌⊎◌,
}
use grpcbridge.HttpRule.Tokenize.{eof, EndsWithEof, last_eof, before_eof}
use grpcbridge.HttpRule.Chars.{IsLiteral, encoded, is_hex}
use grpcbridge.HttpRule.Parse.{
  Segment, Segments, literal, nil, cons, Template, Parser, lexeme_verb, cut_last_colon,
  last_segment, with_last, with_verb, template_of, split_literal, next_is_eof, variable_verb,
}
use grpcbridge.HttpRule.Parse.Grammar.{
  IsSegment, AreSegments, star, stars, text, short, long, one, more, IsTemplate, plain, with_colon,
}
use grpcbridge.HttpRule.Parse.Steps.{Goes, ok-Goes, fail-Goes, accept-Goes}
use grpcbridge.HttpRule.Parse.Paths.{fits-verb}

cut_last_colon_cases :
    (l : Bytes)
    → (cut_last_colon l ≡ none)
      ⊎ ((a : Bytes) × (v : Bytes) × (cut_last_colon l ≡ some (a, v)) × (l ≡ a ++ b':' ∷ v))
unfolding cut_last_colon
cut_last_colon_cases [] = inl refl
cut_last_colon_cases (c ∷ s) = elim (cut_last_colon_cases s) [
  | inr (a, v, e, p) ↦ inr (c ∷ a, v, rw e refl, ap (◌∷◌ c) p)
  | inl n ↦ elim (Bool-cases (c == b':')) [
    | inl t ↦ inr ([], s, rw n (rw t refl), ground arith)
    | inr t ↦ inl (rw n (rw t refl))
  ]
]

behind_colon : (s : Bytes) → IsLiteral (b':' ∷ s) → IsLiteral s
behind_colon s (IsLiteral.plain _ _ p l) = l

hex_not_colon : (c : ℕ) → is_hex c ≡ true → c ≢ b':'
unfolding is_hex
hex_not_colon c h e = ground arith

IsLiteral-split : (l a v : Bytes) → IsLiteral l → l ≡ a ++ b':' ∷ v → IsLiteral a × IsLiteral v
IsLiteral-split l [] v k e = (IsLiteral.nil, behind_colon v (rw e at k))
IsLiteral-split l (x ∷ a) v IsLiteral.nil e = absurd cc
IsLiteral-split l (x ∷ a) v (IsLiteral.plain c s p k) e =
    let (left, right) = IsLiteral-split s a v k (ground arith) in
    (IsLiteral.plain x a (ground arith) left, right)
IsLiteral-split l (x ∷ []) v (encoded h i s hh hi k) e = absurd (hex_not_colon h hh (ground arith))
IsLiteral-split l (x ∷ y ∷ []) v (encoded h i s hh hi k) e =
    absurd (hex_not_colon i hi (ground arith))
IsLiteral-split l (x ∷ y ∷ z ∷ a) v (encoded h i s hh hi k) e =
    let (left, right) = IsLiteral-split s a v k (ground arith) in
    let pct : x ≡ b'%' = ground arith in
    let hy : is_hex y ≡ true = ground arith in
    let hz : is_hex z ≡ true = ground arith in (rw pct (encoded y z a hy hz left), right)

last_segment-AreSegments :
    (ss : Segments) (m : Bool) (x : Bytes)
    → AreSegments ss m x
    → (s : Segment) × (n : Bool) × (y : Bytes) × (last_segment ss ≡ some s) × IsSegment s n y
last_segment-AreSegments _ _ _ (one s m b k) = (s, m, b, refl, k)
last_segment-AreSegments _ _ _ (more s nil m b bs k k') = elim k' [ ]
last_segment-AreSegments _ _ _ (more s (cons t ss) m b bs k k') =
    last_segment-AreSegments (cons t ss) m bs k'

-- A colon in the last literal cuts the text of the segments.
with_last-AreSegments :
    (ss : Segments) (m : Bool) (x l a v : Bytes)
    → AreSegments ss m x
    → last_segment ss ≡ some (literal l)
    → l ≡ a ++ b':' ∷ v
    → (b : Bytes) × AreSegments (with_last ss (literal a)) m b × (x ≡ b ++ b':' ∷ v) × IsLiteral v
with_last-AreSegments _ _ _ l a v (one _ _ _ star) h e = absurd cc
with_last-AreSegments _ _ _ l a v (one _ _ _ stars) h e = absurd cc
with_last-AreSegments _ _ _ l a v (one _ _ _ (short c cs i)) h e = absurd cc
with_last-AreSegments _ _ _ l a v (one _ _ _ (long c cs ss m b i k)) h e = absurd cc
with_last-AreSegments _ _ _ l a v (one _ _ _ (text l' k)) h e =
    let same : l' ≡ a ++ b':' ∷ v = cc in
    let (left, right) = IsLiteral-split l' a v k same in
    (a, one (literal a) false a (text a left), same, right)
with_last-AreSegments _ _ _ l a v (more s nil m b bs k k') h e = elim k' [ ]
with_last-AreSegments _ _ _ l a v (more s (cons t ss) m b bs k k') h e =
    let (x, inner, p, lit) = with_last-AreSegments (cons t ss) m bs l a v k' h e in
    (
      b ++ b'/' ∷ x,
      more s (with_last (cons t ss) (literal a)) m b x k inner,
      rw p (sym (append_assoc b (b'/' ∷ x) (b':' ∷ v))),
      lit,
    )

-- The segments and the verb are those of the text.
abbrev pub Spells : Bytes → Template → Bytes → Type 0
Spells x t y = IsTemplate t.segments t.verb (x ++ y)

whole : (ss : Segments) (m : Bool) (x : Bytes) → AreSegments ss m x → IsTemplate ss [] (x ++ [])
whole ss m x k = rw (append-nil x) (plain ss m x k)

pub EndsWithEof-ne-nil : (ts : List Bytes) → EndsWithEof ts → ts ≢ []
EndsWithEof-ne-nil ts (last_eof _ e) = λ k. cc
EndsWithEof-ne-nil _ (before_eof t ts e) = λ k. cc

variable_verb-Goes :
    (ss : Segments) (m : Bool) (x : Bytes) (p : Parser) (ts : List Bytes)
    → AreSegments ss m x
    → p.left ≡ ts
    → EndsWithEof p.left
    → Goes (Spells x) p (variable_verb ss (next_is_eof ts) p)
unfolding variable_verb next_is_eof
variable_verb-Goes ss m x p [] k same e = absurd (EndsWithEof-ne-nil p.left e same)
variable_verb-Goes ss m x p (t ∷ ts) k same e = elim (Bool-cases (equals t eof)) [
  | inl y ↦ rw y (ok-Goes (Spells x) p (template_of ss []) e (whole ss m x k))
  | inr n ↦ rw n (
      accept-Goes (Spells x) lexeme_verb p _ _ (λ k. cc) (λ k. cc) e
        (λ got value q fit e' l.
          let (lit, at_colon) = fits-verb got value fit in
          ok-Goes (λ b y. Spells x b (got ++ y)) q (template_of ss value) e'
            (rw (append-nil got, at_colon)
              (with_colon ss m x value k (behind_colon value (rw at_colon at lit)))))
        (fail-Goes (Spells x) p e))
]

verb_behind-Goes :
    (ss : Segments) (m : Bool) (x : Bytes) (p : Parser) (s : Segment) (n : Bool) (y : Bytes)
    → AreSegments ss m x
    → EndsWithEof p.left
    → last_segment ss ≡ some s
    → IsSegment s n y
    → Goes (Spells x) p (with_verb ss p)
unfolding with_verb split_literal
verb_behind-Goes ss m x p _ _ _ k e h star =
    rw (h, with_verb) (ok-Goes (Spells x) p (template_of ss []) e (whole ss m x k))
verb_behind-Goes ss m x p _ _ _ k e h stars =
    rw (h, with_verb) (ok-Goes (Spells x) p (template_of ss []) e (whole ss m x k))
verb_behind-Goes ss m x p _ _ _ k e h (short _ _ _) =
    rw (h, with_verb) (variable_verb-Goes ss m x p p.left k refl e)
verb_behind-Goes ss m x p _ _ _ k e h (long _ _ _ _ _ _ _) =
    rw (h, with_verb) (variable_verb-Goes ss m x p p.left k refl e)
verb_behind-Goes ss m x p _ _ _ k e h (text l _) = elim (cut_last_colon_cases l) [
  | inl c ↦ rw (h, with_verb) (rw c (ok-Goes (Spells x) p (template_of ss []) e (whole ss m x k)))
  | inr (a, v, c, q) ↦
      let (b, cut, same, lit) = with_last-AreSegments ss m x l a v k h q in
      rw (h, with_verb)
        (rw c (
          ok-Goes (Spells x) p (template_of (with_last ss (literal a)) v) e
            (rw (append-nil x) (rw same (with_colon (with_last ss (literal a)) m b v cut lit)))))
]

pub with_verb-Goes :
    (ss : Segments) (m : Bool) (x : Bytes) (p : Parser)
    → AreSegments ss m x
    → EndsWithEof p.left
    → Goes (Spells x) p (with_verb ss p)
with_verb-Goes ss m x p k e =
    let (s, n, y, h, found) = last_segment-AreSegments ss m x k in
    verb_behind-Goes ss m x p s n y k e h found
