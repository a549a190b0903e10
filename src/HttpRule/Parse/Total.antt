-- ===== src/HttpRule/Parse/Total.antt =====
-- internal/httprule/parse.go: `template` and `Parse` as a whole.
use grpcbridge.Base.{
  ℕ, ◌+◌, ◌<◌, ◌==◌, ◌≡◌, ◌≢◌, refl, sym, ap, ◌∙◌, subst, List, [], ◌∷◌, ◌++◌, false, Bytes, equals,
  length, arith, Bool-cases, bytes_discrete, inl, inr, ◌⊎◌, Lacks,
}
use grpcbridge.HttpRule.Tokenize.{eof, tokenize_lem, concat, concat-append, EndsWithEof}
use grpcbridge.HttpRule.Chars.{IsLiteral}
use grpcbridge.HttpRule.Parse.{
  literal, nil, cons, Template, Parser, lexeme_eof, fits, Out, ok, fail, panic, stuck, and_then,
  accept, accept_from, with_verb, parse_segments, parse_template, ParseResult, parsed,
  no_leading_slash, unexpected, panicked, no_result, error_at, finish, parse_tokens, parse,
}
use grpcbridge.HttpRule.Parse.Grammar.{text, one, IsTemplate, plain}
use grpcbridge.HttpRule.Parse.Steps.{After, Goes, and_then-Goes}
use grpcbridge.HttpRule.Parse.Sound.{Adds, parse_segments-Goes}
use grpcbridge.HttpRule.Parse.Verbs.{with_verb-Goes, EndsWithEof-ne-nil}

-- A run to the end marker: behind the template's text a token that is the marker, and maybe more.
abbrev pub Finishes : Parser → Out Template → Type 0
Finishes p (ok t q) =
    (w : List Bytes) × (rest : List Bytes) × (p.left ≡ w ++ eof ∷ rest)
    × IsTemplate t.segments t.verb (concat w)
Finishes p (fail q) = (w : List Bytes) × After p q w
Finishes p panic = ⊥
Finishes p stuck = ⊥

accept-eof_cases :
    (p : Parser)
    → EndsWithEof p.left
    → (accept lexeme_eof p ≡ fail p)
      ⊎ ((q : Parser) × (rest : List Bytes) × (p.left ≡ eof ∷ rest)
          × (accept lexeme_eof p ≡ ok eof q))
unfolding accept accept_from fits bytes_discrete
accept-eof_cases p e = go p.left e
  where
    go :
        (ts : List Bytes)
        → EndsWithEof ts
        → (accept_from lexeme_eof p ts ≡ fail p)
          ⊎ ((q : Parser) × (rest : List Bytes) × (ts ≡ eof ∷ rest)
              × (accept_from lexeme_eof p ts ≡ ok eof q))
    go [] e = absurd (EndsWithEof-ne-nil [] e refl)
    go (t ∷ ts) e = elim (Bool-cases (equals t eof)) [
      | inl y ↦
          let same : t ≡ eof = ground arith in
          inr (
            record { accepted = p.accepted ++ eof ∷ []; left = ts },
            ts,
            ap (λ (x : Bytes). x ∷ ts) same,
            rw same refl,
          )
      | inr n ↦ inl (rw (n, accept_from) refl)
    ]

-- What the template is before its end.
abbrev pub Is : Template → Bytes → Type 0
Is t x = IsTemplate t.segments t.verb x

behind-Finishes :
    (p : Parser) (m : Out Template)
    → Goes Is p m
    → Finishes p (and_then m (λ t q. and_then (accept lexeme_eof q) (λ _ r. ok t r)))
behind-Finishes p (ok t q) (w, k, i) = elim (accept-eof_cases q k.2) [
  | inl n ↦ rw n (w, k)
  | inr (r, rest, l, n) ↦ rw n (w, rest, k.1 ∙ ap (λ (x : List Bytes). w ++ x) l, i)
]
behind-Finishes p (fail q) h = h
behind-Finishes p panic h = h
behind-Finishes p stuck h = h

body-Finishes :
    (f : ℕ) (p : Parser)
    → EndsWithEof p.left
    → length p.left < f
    → Goes Is p (and_then (parse_segments f nil p) (λ sm q. with_verb sm.0 q))
body-Finishes f p e h =
    and_then-Goes (Adds nil) Is p (parse_segments f nil p) (λ sm q. with_verb sm.0 q)
      (parse_segments-Goes f nil p e h)
      (λ sm q x e' l (ss, same, k). rw same (with_verb-Goes ss sm.1 x q k e'))

and_then_assoc :
    {A B C : Type 0} (m : Out A) (f : A → Parser → Out B) (g : B → Parser → Out C)
    → and_then (and_then m f) g ≡ and_then m (λ a q. and_then (f a q) g)
and_then_assoc (ok a q) f g = refl
and_then_assoc (fail q) f g = refl
and_then_assoc panic f g = refl
and_then_assoc stuck f g = refl

pub parse_template-Finishes :
    (f : ℕ) (p : Parser) → EndsWithEof p.left → length p.left < f → Finishes p (parse_template f p)
unfolding parse_template
parse_template-Finishes f p e h = elim (accept-eof_cases p e) [
  | inl n ↦ rw n (
      rw
        (and_then_assoc (parse_segments f nil p) (λ sm q. with_verb sm.0 q)
          (λ t q. and_then (accept lexeme_eof q) (λ _ r. ok t r)))
        at
        (behind-Finishes p (and_then (parse_segments f nil p) (λ sm q. with_verb sm.0 q))
          (body-Finishes f p e h)))
  | inr (q, rest, l, n) ↦ rw n (
    [],
    rest,
    l,
    plain (cons (literal []) nil) false [] (one (literal []) false [] (text [] IsLiteral.nil)),
  )
]

-- An end in the text: the template stops at the first byte 0 that is a token of its own.
abbrev pub Explains : Bytes → ParseResult → Type 0
Explains s (parsed t) =
    (t.tmpl ≡ s)
    × ((x : Bytes) × (rest : Bytes) × (s ++ eof ≡ b'/' ∷ (x ++ 0 ∷ rest))
        × IsTemplate t.segments t.verb x)
Explains s no_leading_slash = (x : Bytes) → s ≢ b'/' ∷ x
Explains s (unexpected t a) = (rest : Bytes) × (s ++ eof ≡ a ++ (t ++ rest))
Explains s panicked = ⊥
Explains s no_result = ⊥

finish-Explains :
    (s : Bytes) (ts : List Bytes) (m : Out Template)
    → concat ts ≡ s ++ eof
    → Finishes (record { accepted = []; left = ts }) m
    → Explains (b'/' ∷ s) (finish (b'/' ∷ s) m)
unfolding finish error_at
finish-Explains s ts (ok t q) c (w, rest, e, i) = (
  refl,
  (concat w, concat rest, ap (◌∷◌ b'/') (sym c ∙ ap concat e ∙ concat-append w (eof ∷ rest)), i),
)
finish-Explains s ts (fail q) c (w, (a, l, e)) = at_token q.left e l
  where
    at_token :
        (left : List Bytes)
        → EndsWithEof left
        → ts ≡ w ++ left
        → Explains (b'/' ∷ s) (error_at q left)
    at_token [] e l = absurd (EndsWithEof-ne-nil [] e refl)
    at_token (t ∷ left) e l = (
      concat left,
      ap (◌∷◌ b'/') (
          sym c
          ∙ ap concat l
          ∙ concat-append w (t ∷ left)
          ∙ ap (λ (x : List Bytes). concat x ++ (t ++ concat left)) (sym a)),
    )
finish-Explains s ts panic c h = h
finish-Explains s ts stuck c h = h

-- On every text Parse returns without a panic and within its fuel: an accepted template is read from
-- the text up to an end marker, a refusal for the leading slash means that there is none, and the
-- token of any other error follows the accepted text of its message in the template.
pub parse-Explains : (s : Bytes) → Explains s (parse s)
unfolding parse parse_tokens
parse-Explains [] = λ x. λ e. cc
parse-Explains (c ∷ s) = elim (Bool-cases (c == b'/')) [
  | inl y ↦
      let (ts, e, joined, ends) = tokenize_lem s in
      let same : c ≡ b'/' = ground arith in
      rw same (
        rw e (
          finish-Explains s ts
            (parse_template (length ts + 1) (record { accepted = []; left = ts })) joined
            (parse_template-Finishes (length ts + 1) (record { accepted = []; left = ts }) ends
              (omega arith))))
  | inr n ↦ rw n (λ x. λ e. ground arith)
]

-- Without a byte 0, the end is the end of the text.
ends_at_zero : (x rest s : Bytes) → Lacks 0 s → s ++ eof ≡ x ++ 0 ∷ rest → x ≡ s
ends_at_zero [] rest [] h e = refl
ends_at_zero [] rest (c ∷ s) h e = ground (arith, h)
ends_at_zero (y ∷ []) rest [] h e = absurd cc
ends_at_zero (y ∷ z ∷ x) rest [] h e = absurd cc
ends_at_zero (y ∷ x) rest (c ∷ s) h e =
    let same : y ≡ c = cc in rw same (ap (◌∷◌ c) (ends_at_zero x rest s h.1 cc))

-- A text without a byte 0 that Parse accepts is a slash and a template of the grammar: the segments
-- and the verb of the result are those of the text, only the last segment may end with the double
-- star, identifiers and literals are valid, and the text is kept.
pub parse_sound :
    (s : Bytes) (t : Template)
    → Lacks 0 s
    → parse s ≡ parsed t
    → (t.tmpl ≡ s) × ((x : Bytes) × (s ≡ b'/' ∷ x) × IsTemplate t.segments t.verb x)
parse_sound s t h e =
    let (same, (x, rest, p, i)) = subst (Explains s) e (parse-Explains s) in
    (same, (x, sym (ends_at_zero (b'/' ∷ x) rest s h p), i))
