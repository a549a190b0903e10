-- ===== src/HttpRule/Parse/Steps.antt =====
-- internal/httprule/parse.go: what a step of the parser does to the tokens, and how the steps compose.
use grpcbridge.Base.{
  ◌≤◌, ◌<◌, ◌≡◌, ◌≢◌, refl, sym, ap, ◌∙◌, subst, List, [], ◌∷◌, ◌++◌, none, some, Bytes, length,
  length-append, arith, ◌⊎◌, inl, inr, Option-cases, append_assoc, append-nil,
}
use grpcbridge.HttpRule.Tokenize.{eof, concat, concat-append, EndsWithEof, last_eof, before_eof}
use grpcbridge.HttpRule.Chars.{check_ident, check_literal, literal_loop, consume_pchar, is_plain}
use grpcbridge.HttpRule.Parse.{
  accept_from, Parser, Lexeme, lexeme_ident, lexeme_literal, lexeme_verb, lexeme_eof, token, Out,
  ok, fail, panic, stuck, fits, accept, or_else, and_then,
}

-- From p to q, the parser accepted the tokens w.
abbrev pub After : Parser → Parser → List Bytes → Type 0
After p q w = (q.accepted ≡ p.accepted ++ w) × (p.left ≡ w ++ q.left) × EndsWithEof q.left

-- A run that ends without a panic, whose value has R with the text it took.
abbrev pub Goes : {A : Type 0} → (A → Bytes → Type 0) → Parser → Out A → Type 0
Goes R p (ok a q) = (w : List Bytes) × After p q w × R a (concat w)
Goes R p (fail q) = (w : List Bytes) × After p q w
Goes R p panic = ⊥
Goes R p stuck = ⊥

After-trans : (p q r : Parser) (v w : List Bytes) → After p q v → After q r w → After p r (v ++ w)
After-trans p q r v w (a, l, _) (b, m, e) = (
  b ∙ ap (λ (x : List Bytes). x ++ w) a ∙ append_assoc p.accepted v w,
  l ∙ ap (λ (x : List Bytes). v ++ x) m ∙ sym (append_assoc v w r.left),
  e,
)

pub shift-Goes :
    {A : Type 0} (R : A → Bytes → Type 0) (p q : Parser) (v : List Bytes) (m : Out A)
    → After p q v
    → Goes (λ a x. R a (concat v ++ x)) q m
    → Goes R p m
shift-Goes R p q v (ok a r) h (w, k, y) =
    (v ++ w, After-trans p q r v w h k, subst (R a) (sym (concat-append v w)) y)
shift-Goes R p q v (fail r) h (w, k) = (v ++ w, After-trans p q r v w h k)
shift-Goes R p q v panic h k = k
shift-Goes R p q v stuck h k = k

pub weaken-Goes :
    {A : Type 0} (Q R : A → Bytes → Type 0) (p : Parser) (m : Out A)
    → ((a : A) (x : Bytes) → Q a x → R a x)
    → Goes Q p m
    → Goes R p m
weaken-Goes Q R p (ok a q) f (w, k, y) = (w, k, f a (concat w) y)
weaken-Goes Q R p (fail q) f h = h
weaken-Goes Q R p panic f h = h
weaken-Goes Q R p stuck f h = h

After-same : (p : Parser) → EndsWithEof p.left → After p p []
After-same p e = (sym (append-nil p.accepted), refl, e)

pub ok-Goes :
    {A : Type 0} (R : A → Bytes → Type 0) (p : Parser) (a : A)
    → EndsWithEof p.left
    → R a []
    → Goes R p (ok a p)
ok-Goes R p a e r = ([], After-same p e, r)

pub fail-Goes :
    {A : Type 0} (R : A → Bytes → Type 0) (p : Parser) → EndsWithEof p.left → Goes R p (fail p)
fail-Goes R p e = ([], After-same p e)

pub and_then-Goes :
    {A B : Type 0} (Q : A → Bytes → Type 0) (R : B → Bytes → Type 0) (p : Parser) (m : Out A)
    (done : A → Parser → Out B)
    → Goes Q p m
    → ((a : A) (q : Parser) (x : Bytes)
        → EndsWithEof q.left
        → length q.left ≤ length p.left
        → Q a x
        → Goes (λ b y. R b (x ++ y)) q (done a q))
    → Goes R p (and_then m done)
and_then-Goes Q R p (ok a q) done (w, k, y) f =
    shift-Goes R p q w (done a q) k
      (f a q (concat w) k.2 (omega (arith, ap length k.1, length-append w q.left)) y)
and_then-Goes Q R p (fail q) done h f = h
and_then-Goes Q R p panic done h f = h
and_then-Goes Q R p stuck done h f = h

-- Only the lexeme for the end accepts the end marker.
pub fits-eof : (want : Lexeme) → want ≢ lexeme_eof → want ≢ token eof → fits want eof ≡ none
unfolding fits check_ident check_literal literal_loop consume_pchar is_plain
fits-eof lexeme_eof h k = absurd (h refl)
fits-eof lexeme_ident h k = refl
fits-eof lexeme_literal h k = refl
fits-eof lexeme_verb h k = refl
fits-eof (token w) h k = ground arith

-- The outcomes of `accept`, but for the end marker.
accept_from_cases :
    (want : Lexeme) (p : Parser) (ts : List Bytes)
    → want ≢ lexeme_eof
    → want ≢ token eof
    → EndsWithEof ts
    → (accept_from want p ts ≡ fail p)
      ⊎ ((got : Bytes) × (value : Bytes) × (left : List Bytes) × (accept_from want p ts
            ≡ ok value (record { accepted = p.accepted ++ got ∷ []; left = left }))
          × (fits want got ≡ some value)
          × (ts ≡ got ∷ left)
          × EndsWithEof left)
unfolding accept_from
accept_from_cases want p ts h k (last_eof _ e) =
    inl (rw (e, accept_from) (rw (fits-eof want h k) refl))
accept_from_cases want p ts h k (before_eof got left e) = elim (Option-cases (fits want got)) [
  | inl n ↦ inl (rw (n, accept_from) refl)
  | inr (value, s) ↦ inr (got, value, left, rw (s, accept_from) refl, s, refl, e)
]

-- `accept` takes a token that fits, or leaves the parser where it is.
pub accept-Goes :
    {B : Type 0} (R : B → Bytes → Type 0) (want : Lexeme) (p : Parser)
    (done : Bytes → Parser → Out B) (otherwise : Parser → Out B)
    → want ≢ lexeme_eof
    → want ≢ token eof
    → EndsWithEof p.left
    → ((got value : Bytes) (q : Parser)
        → fits want got ≡ some value
        → EndsWithEof q.left
        → length q.left < length p.left
        → Goes (λ b y. R b (got ++ y)) q (done value q))
    → Goes R p (otherwise p)
    → Goes R p (or_else (accept want p) done otherwise)
unfolding accept
accept-Goes R want p done otherwise h k e f g = elim (accept_from_cases want p p.left h k e) [
  | inl n ↦ rw n g
  | inr (got, value, left, n, s, l, e') ↦
      let q : Parser = record { accepted = p.accepted ++ got ∷ []; left = left } in
      rw n (
        shift-Goes R p q (got ∷ []) (done value q) (refl, l, e')
          (weaken-Goes (λ b y. R b (got ++ y)) (λ b y. R b ((got ++ []) ++ y)) q (done value q)
            (λ b y r. rw (append-nil got) r) (f got value q s e' (omega (arith, ap length l)))))
]
