-- ===== src/HttpRule/Parse/Sound.antt =====
-- internal/httprule/parse.go: what `segments`, `segment` and `variable` accept.
use grpcbridge.Base.{
  ℕ, zero, suc, ◌≤◌, ◌<◌, ◌≡◌, refl, ap, ◌∙◌, List, [], ◌∷◌, ◌++◌, Bool, true, false, Bytes, codes,
  length, arith, append-nil, Bool-cases, inl, inr, ◌⊎◌,
}
use grpcbridge.HttpRule.Tokenize.{EndsWithEof}
use grpcbridge.HttpRule.Parse.{
  Segment, Segments, wildcard, multi_wildcard, variable, literal, nil, cons, snoc, Parser,
  lexeme_literal, token, Out, ok, parse_variable, parse_segment, parse_segments, field_path,
  or_else, accept,
}
use grpcbridge.HttpRule.Parse.Grammar.{
  IsSegment, AreSegments, star, stars, text, short, long, one, more,
}
use grpcbridge.HttpRule.Parse.Steps.{
  Goes, ok-Goes, fail-Goes, weaken-Goes, accept-Goes, and_then-Goes,
}
use grpcbridge.HttpRule.Parse.Paths.{fits-token, fits-IsLiteral, IsPath, field_path-Goes}

abbrev pub Of : Segment × Bool → Bytes → Type 0
Of sm x = IsSegment sm.0 sm.1 x

abbrev pub append_segments : Segments → Segments → Segments
append_segments nil ss = ss
append_segments (cons s rest) ss = cons s (append_segments rest ss)

snoc-append :
    (acc : Segments) (s : Segment) (ss : Segments)
    → append_segments (snoc acc s) ss ≡ append_segments acc (cons s ss)
snoc-append nil s ss = refl
snoc-append (cons x acc) s ss = ap (cons x) (snoc-append acc s ss)

snoc_as_append : (acc : Segments) (s : Segment) → snoc acc s ≡ append_segments acc (cons s nil)
snoc_as_append nil s = refl
snoc_as_append (cons x acc) s = ap (cons x) (snoc_as_append acc s)

-- The segments are those so far and then those of the text.
abbrev pub Adds : Segments → Segments × Bool → Bytes → Type 0
Adds acc sm x = (ss : Segments) × (sm.0 ≡ append_segments acc ss) × AreSegments ss sm.1 x

-- What the text behind the field path says: nothing, or the segments behind `=`.
abbrev Inner : Segments × Bool → Bytes → Type 0
Inner sm x =
    ((sm ≡ (cons wildcard nil, false)) × (x ≡ []))
    ⊎ ((b : Bytes) × AreSegments sm.0 sm.1 b × (x ≡ b'=' ∷ b))

variable-Of :
    (path : List Bytes) (sm : Segments × Bool) (x y : Bytes)
    → IsPath path x
    → Inner sm y
    → Of (variable path sm.0, sm.1) (b'{' ∷ (x ++ (y ++ codes "}")))
variable-Of path sm x y (c, cs, p, ids, e) (inl (same, none_left)) =
    rw (p, e, same, none_left) (short c cs ids)
variable-Of path sm x y (c, cs, p, ids, e) (inr (b, inner, found)) =
    rw (p, e, found) (long c cs sm.0 sm.1 b ids inner)

module _ (f : ℕ) (segments : Parser → Out (Segments × Bool))
    (h : (p : Parser)
      → EndsWithEof p.left
      → length p.left < f
      → Goes (Adds nil) p (segments p)) where
  Inner-Goes :
      (p : Parser)
      → EndsWithEof p.left
      → length p.left < f
      → Goes Inner p (
          or_else
            (accept (token (codes "=")) p)
            (λ _ p. segments p)
            (λ p. ok (cons wildcard nil, false) p))
  Inner-Goes p e l =
      accept-Goes Inner (token (codes "=")) p _ _ (λ k. cc) (λ k. cc) e
        (λ got value q fit e' l'.
          weaken-Goes (Adds nil) (λ b y. Inner b (got ++ y)) q (segments q)
            (λ b y (ss, same, k).
              inr (y, rw same k, rw (fits-token (codes "=") got value fit) refl))
            (h q e' (omega arith)))
        (ok-Goes Inner p (cons wildcard nil, false) e (inl (refl, refl)))

  parse_variable-Goes :
      (p : Parser)
      → EndsWithEof p.left
      → length p.left ≤ f
      → Goes Of p (parse_variable f segments p)
  unfolding parse_variable
  parse_variable-Goes p e l =
      accept-Goes Of (token (codes "{")) p _ _ (λ k. cc) (λ k. cc) e
        (λ got value q fit e' l'.
          and_then-Goes IsPath (λ b y. Of b (got ++ y)) q (field_path f q) _
            (field_path-Goes f q e' (omega arith))
            (λ path r x e'' l'' is_path.
              and_then-Goes Inner (λ b y. Of b (got ++ (x ++ y))) r _ _
                (Inner-Goes r e'' (omega arith))
                (λ sm s y e3 l3 inner.
                  accept-Goes (λ b z. Of b (got ++ (x ++ (y ++ z)))) (token (codes "}")) s _ _
                    (λ k. cc) (λ k. cc) e3
                    (λ got' value' t fit' e4 l4.
                      ok-Goes (λ b z. Of b (got ++ (x ++ (y ++ (got' ++ z))))) t
                        (variable path sm.0, sm.1) e4
                        (rw
                          (
                            fits-token (codes "{") got value fit,
                            fits-token (codes "}") got' value' fit',
                          )
                          (variable-Of path sm x y is_path inner)))
                    (fail-Goes (λ b z. Of b (got ++ (x ++ (y ++ z)))) s e3))))
        (fail-Goes Of p e)

  parse_segment-Goes :
      (p : Parser) → EndsWithEof p.left → length p.left ≤ f → Goes Of p (parse_segment f segments p)
  unfolding parse_segment
  parse_segment-Goes p e l =
      accept-Goes Of (token (codes "*")) p _ _ (λ k. cc) (λ k. cc) e
        (λ got value q fit e' l'.
          ok-Goes (λ b y. Of b (got ++ y)) q (wildcard, false) e'
            (rw (fits-token (codes "*") got value fit) star))
        (accept-Goes Of (token (codes "**")) p _ _ (λ k. cc) (λ k. cc) e
          (λ got value q fit e' l'.
            ok-Goes (λ b y. Of b (got ++ y)) q (multi_wildcard, true) e'
              (rw (fits-token (codes "**") got value fit) stars))
          (accept-Goes Of lexeme_literal p _ _ (λ k. cc) (λ k. cc) e
            (λ got value q fit e' l'.
              let (lit, v) = fits-IsLiteral got value fit in
              ok-Goes (λ b y. Of b (got ++ y)) q (literal value, false) e'
                (rw (v, append-nil got) (text got lit)))
            (parse_variable-Goes p e l)))

last_added :
    (acc : Segments) (s : Segment) (m : Bool) (x : Bytes)
    → IsSegment s m x
    → Adds acc (snoc acc s, m) (x ++ [])
last_added acc s m x k = (cons s nil, snoc_as_append acc s, rw (append-nil x) (one s m x k))

-- Fuel above the number of tokens is enough.
pub parse_segments-Goes :
    (f : ℕ) (acc : Segments) (p : Parser)
    → EndsWithEof p.left
    → length p.left < f
    → Goes (Adds acc) p (parse_segments f acc p)
unfolding parse_segments
parse_segments-Goes zero acc p e h = absurd (omega arith)
parse_segments-Goes (suc f) acc p e h =
    and_then-Goes Of (Adds acc) p (parse_segment f (parse_segments f nil) p) _
      (parse_segment-Goes f (parse_segments f nil) (parse_segments-Goes f nil) p e (omega arith))
      (λ sm q x e' l k. elim (Bool-cases sm.1) [
        | inl t ↦ rw t (
            ok-Goes (λ b y. Adds acc b (x ++ y)) q (snoc acc sm.0, true) e'
              (last_added acc sm.0 true x (rw t at k)))
        | inr t ↦
            let single : IsSegment sm.0 false x = rw t at k in
            rw t (
              accept-Goes (λ b y. Adds acc b (x ++ y)) (token (codes "/")) q _ _ (λ k. cc) (λ k. cc)
                e'
                (λ got value r fit e'' l'.
                  weaken-Goes (Adds (snoc acc sm.0)) (λ b y. Adds acc b (x ++ (got ++ y))) r
                    (parse_segments f (snoc acc sm.0) r)
                    (λ b y (rest, same, k'). (
                      cons sm.0 rest,
                      same ∙ snoc-append acc sm.0 rest,
                      rw (fits-token (codes "/") got value fit) (more sm.0 rest b.1 x y single k'),
                    ))
                    (parse_segments-Goes f (snoc acc sm.0) r e'' (omega arith)))
                (ok-Goes (λ b y. Adds acc b (x ++ y)) q (snoc acc sm.0, false) e'
                  (last_added acc sm.0 false x single)))
      ])
