-- ===== src/HttpRule/Tokenize.antt =====
-- internal/httprule/tokenize.go. The loop runs on fuel; `none` says that the fuel ran out.
use grpcbridge.Base.{
  ℕ, zero, suc, ◌+◌, ◌<◌, ◌==◌, ◌≡◌, refl, sym, ap, ◌∙◌, if◌then◌else◌, List, [], ◌∷◌, ◌++◌, Option,
  none, some, Bool, false, ◌||◌, Bytes, codes, length, arith, ◌⊎◌, inl, inr, Bool-cases,
  append_assoc,
}

pub data TState : Type 0 where
  in_segment in_variable in_nested : TState

abbrev pub eof : Bytes
eof = 0 ∷ []

-- `tnext`: the bytes that end a token in a state
abbrev pub next_bytes : TState → Bytes
next_bytes in_segment = codes "/{"
next_bytes in_variable = codes ".=}"
next_bytes in_nested = codes "/}"

abbrev pub is_one_of : Bytes → ℕ → Bool
is_one_of [] c = false
is_one_of (x ∷ xs) c = c == x || is_one_of xs c

abbrev before_with : ℕ → Option (Bytes × ℕ × Bytes) → Option (Bytes × ℕ × Bytes)
before_with c none = none
before_with c (some (before, r, after)) = some (c ∷ before, r, after)

-- What `strings.IndexAny` splits off: the bytes before the first one of the set, it, and the rest.
unfoldable pub split_any : Bytes → Bytes → Option (Bytes × ℕ × Bytes)
split_any set [] = none
split_any set (c ∷ s) = if is_one_of set c then some ([], c, s) else before_with c (split_any set s)

unfoldable pub next_state : TState → ℕ → TState
next_state st r =
    if r == b'{'
    then in_variable
    else if r == b'='
    then in_nested
    else if r == b'}'
    then in_segment
    else st

-- The tokens of one round before those of the rest.
abbrev pub emit : Bytes → ℕ → List Bytes → List Bytes
emit [] r rest = (r ∷ []) ∷ rest
emit (c ∷ before) r rest = (c ∷ before) ∷ (r ∷ []) ∷ rest

abbrev emitted : Bytes → ℕ → Option (List Bytes) → Option (List Bytes)
emitted before r none = none
emitted before r (some rest) = some (emit before r rest)

unfoldable pub tokens_from : ℕ → TState → Bytes → Option (List Bytes)
tokens_from zero st s = none
tokens_from (suc f) st [] = some (eof ∷ [])
tokens_from (suc f) st (c ∷ s) = elim (split_any (next_bytes st) (c ∷ s)) [
  | none ↦ some ((c ∷ s) ∷ eof ∷ [])
  | some (before, r, after) ↦ emitted before r (tokens_from f (next_state st r) after)
]

unfoldable pub tokenize : Bytes → Option (List Bytes)
tokenize s = tokens_from (length s + 1) in_segment s

-- `strings.Join(tokens, "")`
abbrev pub concat : List Bytes → Bytes
concat [] = []
concat (t ∷ ts) = t ++ concat ts

pub concat-append : (xs ys : List Bytes) → concat (xs ++ ys) ≡ concat xs ++ concat ys
concat-append [] ys = refl
concat-append (x ∷ xs) ys = rw (concat-append xs ys) (sym (append_assoc x (concat xs) (concat ys)))

-- The split parts make up the text, and the rest is shorter.
split_any_cases :
    (set s : Bytes)
    → (split_any set s ≡ none)
      ⊎ ((before : Bytes) × (r : ℕ) × (after : Bytes) × (split_any set s ≡ some (before, r, after))
          × (s ≡ before ++ r ∷ after)
          × (length after < length s))
unfolding split_any
split_any_cases set [] = inl refl
split_any_cases set (c ∷ s) = elim (Bool-cases (is_one_of set c)) [
  | inl e ↦ inr ([], c, s, rw e, refl, omega arith)
  | inr e ↦ elim (split_any_cases set s) [
    | inl n ↦ inl (rw e (rw n))
    | inr (before, r, after, n, p, l) ↦
        inr (c ∷ before, r, after, rw e (rw n), ap (◌∷◌ c) p, omega arith)
  ]
]

concat-emit :
    (before : Bytes) (r : ℕ) (rest : List Bytes)
    → concat (emit before r rest) ≡ before ++ r ∷ concat rest
concat-emit [] r rest = refl
concat-emit (c ∷ before) r rest = refl

-- The tokens end with the end marker, which the loop puts there alone.
pub data EndsWithEof : List Bytes → Type 0 where
  last_eof : (ts : List Bytes) → ts ≡ eof ∷ [] → EndsWithEof ts
  before_eof : (t : Bytes) (ts : List Bytes) → EndsWithEof ts → EndsWithEof (t ∷ ts)

emit-EndsWithEof :
    (before : Bytes) (r : ℕ) (rest : List Bytes)
    → EndsWithEof rest
    → EndsWithEof (emit before r rest)
emit-EndsWithEof [] r rest h = before_eof (r ∷ []) rest h
emit-EndsWithEof (c ∷ before) r rest h = before_eof _ _ (before_eof (r ∷ []) rest h)

pub tokens_from_lem :
    (f : ℕ) (st : TState) (s : Bytes)
    → length s < f
    → (ts : List Bytes) × (tokens_from f st s ≡ some ts) × (concat ts ≡ s ++ eof) × EndsWithEof ts
unfolding tokens_from
tokens_from_lem zero st s h = absurd (omega arith)
tokens_from_lem (suc f) st [] h = (eof ∷ [], refl, refl, last_eof _ refl)
tokens_from_lem (suc f) st (c ∷ s) h = elim (split_any_cases (next_bytes st) (c ∷ s)) [
  | inl n ↦ ((c ∷ s) ∷ eof ∷ [], rw (n, tokens_from) refl, refl, before_eof _ _ (last_eof _ refl))
  | inr (before, r, after, n, p, l) ↦
      let (ts, e, joined, ends) = tokens_from_lem f (next_state st r) after (omega arith) in
      (
        emit before r ts,
        rw (n, tokens_from) (rw e refl),
        concat-emit before r ts
            ∙ ap (λ (x : Bytes). before ++ r ∷ x) joined
            ∙ sym (append_assoc before (r ∷ after) eof)
            ∙ ap (λ (x : Bytes). x ++ eof) (sym p),
        emit-EndsWithEof before r ts ends,
      )
]

-- `tokenize` ends, and its tokens are the text cut into pieces, behind them the end marker.
pub tokenize_lem :
    (s : Bytes)
    → (ts : List Bytes) × (tokenize s ≡ some ts) × (concat ts ≡ s ++ eof) × EndsWithEof ts
unfolding tokenize
tokenize_lem s = tokens_from_lem (length s + 1) in_segment s (omega arith)

tokens_of_template :
    tokenize (codes "v1/b/{var=nested/*}/x")
    ≡ some (
        codes "v1"
        ∷ codes "/"
        ∷ codes "b"
        ∷ codes "/"
        ∷ codes "{"
        ∷ codes "var"
        ∷ codes "="
        ∷ codes "nested"
        ∷ codes "/"
        ∷ codes "*"
        ∷ codes "}"
        ∷ codes "/"
        ∷ codes "x"
        ∷ eof
        ∷ [])
unfolding tokenize tokens_from split_any next_state
tokens_of_template = refl
