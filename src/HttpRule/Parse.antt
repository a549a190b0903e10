-- ===== src/HttpRule/Parse.antt =====
-- internal/httprule/parse.go: the recursive descent parser over the tokens. `panic` is an index out of
-- range and `stuck` says that the fuel ran out; Parse/Total shows that neither happens.
pub mod Grammar
pub mod Steps
pub mod Paths
pub mod Sound
pub mod Verbs
pub mod Total
pub mod Nul
use grpcbridge.Base.{
  ℕ, zero, suc, ◌+◌, ◌==◌, if◌then◌else◌, List, [], ◌∷◌, ◌++◌, Option, none, some, Bool, true,
  false, not, Bytes, codes, equals, length,
}
use grpcbridge.HttpRule.Tokenize.{eof, tokenize, concat}
use grpcbridge.HttpRule.Chars.{check_ident, check_literal}

mutual
  pub data Segment : Type 0 where
    wildcard : Segment
    multi_wildcard : Segment
    variable : List Bytes → Segments → Segment
    literal : Bytes → Segment

  pub data Segments : Type 0 where
    nil : Segments
    cons : Segment → Segments → Segments

-- `append(segments, s)`
abbrev pub snoc : Segments → Segment → Segments
snoc nil s = cons s nil
snoc (cons x xs) s = cons x (snoc xs s)

pub record Template : Type 0 where
  pub tmpl : Bytes
  pub segments : Segments
  pub verb : Bytes

pub data Lexeme : Type 0 where
  lexeme_ident lexeme_literal lexeme_verb lexeme_eof : Lexeme
  token : Bytes → Lexeme

pub record Parser : Type 0 where
  pub accepted : List Bytes
  pub left : List Bytes

-- An error leaves the parser where it stands: its text is made from that by `Parse`.
pub data Out (A : Type 0) : Type 0 where
  ok : A → Parser → Out A
  fail : Parser → Out A
  panic : Out A
  stuck : Out A

-- The verb behind its colon.
strip_colon : Bytes → Option Bytes
strip_colon [] = none
strip_colon (c ∷ s) = if c == b':' then some s else none

-- The switch of `accept`: the value of a token that fits the lexeme.
unfoldable pub fits : Lexeme → Bytes → Option Bytes
unfolding strip_colon
fits lexeme_eof got = if equals got eof then some got else none
fits lexeme_ident got = if check_ident got then some got else none
fits lexeme_literal got = if check_literal got then some got else none
fits lexeme_verb got = if check_literal got then strip_colon got else none
fits (token want) got = if equals got want then some got else none

abbrev advance : Parser → Bytes → List Bytes → Parser
advance p got left = record { accepted = p.accepted ++ got ∷ []; left = left }

unfoldable accept_from : Lexeme → Parser → List Bytes → Out Bytes
accept_from want p [] = panic
accept_from want p (got ∷ left) = elim (fits want got) [
  | none ↦ fail p
  | some value ↦ ok value (advance p got left)
]

unfoldable pub accept : Lexeme → Parser → Out Bytes
unfolding accept_from
accept want p = accept_from want p p.left

-- `if _, err := p.accept(want); err == nil { … } else { … }`
abbrev pub or_else : {A B : Type 0} → Out A → (A → Parser → Out B) → (Parser → Out B) → Out B
or_else (ok a p) done otherwise = done a p
or_else (fail p) done otherwise = otherwise p
or_else panic done otherwise = panic
or_else stuck done otherwise = stuck

abbrev pub and_then : {A B : Type 0} → Out A → (A → Parser → Out B) → Out B
and_then m f = or_else m f (λ p. fail p)

-- The loop of `fieldPath`.
unfoldable pub field_path_loop : ℕ → List Bytes → Parser → Out (List Bytes)
field_path_loop zero path p = stuck
field_path_loop (suc f) path p =
    or_else (accept (token (codes ".")) p)
      (λ _ p.
        and_then (accept lexeme_ident p)
          (λ component p. field_path_loop f (path ++ component ∷ []) p))
      (λ p. ok path p)

unfoldable pub field_path : ℕ → Parser → Out (List Bytes)
field_path f p =
    and_then (accept lexeme_ident p) (λ component p. field_path_loop f (component ∷ []) p)

-- `variable`, with the call of `segments` as an argument.
unfoldable pub parse_variable : ℕ → (Parser → Out (Segments × Bool)) → Parser → Out (Segment × Bool)
parse_variable f segments p = and_then (accept (token (codes "{")) p) (λ _ p.
    and_then (field_path f p) (λ path p.
      and_then
        (or_else (accept (token (codes "=")) p) (λ _ p. segments p)
          (λ p. ok (cons wildcard nil, false) p))
        (λ inner p.
          and_then (accept (token (codes "}")) p) (λ _ p. ok (variable path inner.0, inner.1) p))))

-- `segment`
unfoldable pub parse_segment : ℕ → (Parser → Out (Segments × Bool)) → Parser → Out (Segment × Bool)
parse_segment f segments p =
    or_else (accept (token (codes "*")) p) (λ _ p. ok (wildcard, false) p)
      (λ p.
        or_else (accept (token (codes "**")) p) (λ _ p. ok (multi_wildcard, true) p)
          (λ p.
            or_else (accept lexeme_literal p) (λ l p. ok (literal l, false) p)
              (λ p. parse_variable f segments p)))

-- The loop of `segments`, with the segments so far.
unfoldable pub parse_segments : ℕ → Segments → Parser → Out (Segments × Bool)
parse_segments zero segments p = stuck
parse_segments (suc f) segments p = and_then (parse_segment f (parse_segments f nil) p) (λ sm p.
    elim sm.1 [
      | true ↦ ok (snoc segments sm.0, true) p
      | false ↦
          or_else (accept (token (codes "/")) p) (λ _ p. parse_segments f (snoc segments sm.0) p)
            (λ p. ok (snoc segments sm.0, false) p)
    ])

-- The last segment, and the segments with another last one.
abbrev pub last_segment : Segments → Option Segment
last_segment nil = none
last_segment (cons s nil) = some s
last_segment (cons s (cons t ss)) = last_segment (cons t ss)

abbrev pub with_last : Segments → Segment → Segments
with_last nil v = nil
with_last (cons s nil) v = cons v nil
with_last (cons s (cons t ss)) v = cons s (with_last (cons t ss) v)

abbrev pub later_or : ℕ → Option (Bytes × Bytes) → Bytes → Option (Bytes × Bytes)
later_or c (some (before, after)) s = some (c ∷ before, after)
later_or c none s = if c == b':' then some ([], s) else none

-- The parts around the last colon, where there is one.
unfoldable pub cut_last_colon : Bytes → Option (Bytes × Bytes)
cut_last_colon [] = none
cut_last_colon (c ∷ s) = later_or c (cut_last_colon s) s

abbrev template_of : Segments → Bytes → Template
template_of segments verb = record { tmpl = []; segments = segments; verb = verb }

-- The split of a last literal into literal and verb.
unfoldable split_literal : Segments → Option (Bytes × Bytes) → Template
split_literal segments none = template_of segments []
split_literal segments (some (before, verb)) =
    template_of (with_last segments (literal before)) verb

unfoldable next_is_eof : List Bytes → Option Bool
next_is_eof [] = none
next_is_eof (t ∷ _) = some (equals t eof)

-- The verb behind a last variable; `none` is an index out of range.
unfoldable variable_verb : Segments → Option Bool → Parser → Out Template
variable_verb segments none p = panic
variable_verb segments (some true) p = ok (template_of segments []) p
variable_verb segments (some false) p =
    and_then (accept lexeme_verb p) (λ verb p. ok (template_of segments verb) p)

unfoldable pub with_verb : Segments → Parser → Out Template
unfolding split_literal next_is_eof variable_verb
with_verb segments p = elim (last_segment segments) [
  | none ↦ panic
  | some (literal l) ↦ ok (split_literal segments (cut_last_colon l)) p
  | some (variable _ _) ↦ variable_verb segments (next_is_eof p.left) p
  | some wildcard ↦ ok (template_of segments []) p
  | some multi_wildcard ↦ ok (template_of segments []) p
]

-- `template`
unfoldable pub parse_template : ℕ → Parser → Out Template
parse_template f p =
    or_else (accept lexeme_eof p) (λ _ p. ok (template_of (cons (literal []) nil) []) p)
      (λ p. and_then (parse_segments f nil p) (λ sm p.
        and_then (with_verb sm.0 p) (λ tmpl p. and_then (accept lexeme_eof p) (λ _ p. ok tmpl p))))

-- `unexpected t a`: the token t behind the accepted text a.
pub data ParseResult : Type 0 where
  parsed : Template → ParseResult
  no_leading_slash : ParseResult
  unexpected : Bytes → Bytes → ParseResult
  panicked : ParseResult
  no_result : ParseResult

-- `p.error()`
unfoldable error_at : Parser → List Bytes → ParseResult
error_at p [] = panicked
error_at p (t ∷ _) = unexpected t (b'/' ∷ concat p.accepted)

unfoldable finish : Bytes → Out Template → ParseResult
unfolding error_at
finish tmpl (ok t p) = parsed (record t { tmpl = tmpl })
finish tmpl (fail p) = error_at p p.left
finish tmpl panic = panicked
finish tmpl stuck = no_result

unfoldable parse_tokens : Bytes → Option (List Bytes) → ParseResult
unfolding finish
parse_tokens tmpl none = no_result
parse_tokens tmpl (some tokens) =
    finish tmpl (parse_template (length tokens + 1) (record { accepted = []; left = tokens }))

unfoldable pub parse : Bytes → ParseResult
unfolding parse_tokens
parse [] = no_leading_slash
parse (c ∷ s) = if c == b'/' then parse_tokens (c ∷ s) (tokenize s) else no_leading_slash
