-- ===== src/HttpRule/Parse/Paths.antt =====
-- internal/httprule/parse.go: what single tokens and field paths spell.
use grpcbridge.Base.{
  ℕ, zero, suc, ◌≤◌, ◌<◌, ◌≡◌, refl, sym, ◌∙◌, List, [], ◌∷◌, ◌++◌, some, Bytes, codes, length,
  arith, All, append_assoc, append-nil,
}
use grpcbridge.HttpRule.Tokenize.{EndsWithEof}
use grpcbridge.HttpRule.Chars.{check_literal_iff, IsLiteral}
use grpcbridge.HttpRule.Parse.{
  Parser, lexeme_ident, lexeme_literal, lexeme_verb, token, fits, field_path_loop, field_path,
}
use grpcbridge.HttpRule.Parse.Grammar.{IsIdent, dots}
use grpcbridge.HttpRule.Parse.Steps.{Goes, ok-Goes, fail-Goes, weaken-Goes, accept-Goes}

pub fits-token : (want got value : Bytes) → fits (token want) got ≡ some value → got ≡ want
unfolding fits
fits-token want got value h = ground arith

pub fits-IsIdent :
    (got value : Bytes) → fits lexeme_ident got ≡ some value → IsIdent got × (value ≡ got)
unfolding fits
fits-IsIdent got value h = (ground arith, ground arith)

pub fits-IsLiteral :
    (got value : Bytes) → fits lexeme_literal got ≡ some value → IsLiteral got × (value ≡ got)
unfolding fits
fits-IsLiteral got value h = ((check_literal_iff got).0 (ground arith), ground arith)

pub fits-verb :
    (got value : Bytes) → fits lexeme_verb got ≡ some value → IsLiteral got × (got ≡ b':' ∷ value)
unfolding fits
fits-verb [] value h = ground arith
fits-verb (c ∷ got) value h = ((check_literal_iff (c ∷ got)).0 (ground arith), ground arith)

-- The path has more components, and they are the text.
abbrev Extends : List Bytes → List Bytes → Bytes → Type 0
Extends path result x = (cs : List Bytes) × (result ≡ path ++ cs) × All IsIdent cs × (x ≡ dots cs)

field_path_loop-Goes :
    (f : ℕ) (path : List Bytes) (p : Parser)
    → EndsWithEof p.left
    → length p.left < f
    → Goes (Extends path) p (field_path_loop f path p)
unfolding field_path_loop
field_path_loop-Goes zero path p e h = absurd (omega arith)
field_path_loop-Goes (suc f) path p e h =
    accept-Goes (Extends path) (token (codes ".")) p _ _ (λ k. cc) (λ k. cc) e
      (λ got value q fit e h'.
        accept-Goes (λ b y. Extends path b (got ++ y)) lexeme_ident q _ _ (λ k. cc) (λ k. cc) e
          (λ got' value' r fit' e' h''.
            weaken-Goes (Extends (path ++ value' ∷ [])) (λ b y. Extends path b (got ++ (got' ++ y)))
              r (field_path_loop f (path ++ value' ∷ []) r)
              (λ b y (cs, same, ids, x).
                let (id, v) = fits-IsIdent got' value' fit' in
                (
                  value' ∷ cs,
                  same ∙ append_assoc path (value' ∷ []) cs,
                  (rw v id, ids),
                  rw (fits-token (codes ".") got value fit, v, x) refl,
                ))
              (field_path_loop-Goes f (path ++ value' ∷ []) r e' (omega arith)))
          (fail-Goes (λ b y. Extends path b (got ++ y)) q e))
      (ok-Goes (Extends path) p path e ([], sym (append-nil path), tt, refl))

-- FieldPath
abbrev pub IsPath : List Bytes → Bytes → Type 0
IsPath path x =
    (c : Bytes) × (cs : List Bytes) × (path ≡ c ∷ cs) × All IsIdent (c ∷ cs) × (x ≡ c ++ dots cs)

pub field_path-Goes :
    (f : ℕ) (p : Parser) → EndsWithEof p.left → length p.left ≤ f → Goes IsPath p (field_path f p)
unfolding field_path
field_path-Goes f p e h =
    accept-Goes IsPath lexeme_ident p _ _ (λ k. cc) (λ k. cc) e
      (λ got value q fit e h'.
        weaken-Goes (Extends (value ∷ [])) (λ b y. IsPath b (got ++ y)) q
          (field_path_loop f (value ∷ []) q)
          (λ b y (cs, same, ids, x).
            let (id, v) = fits-IsIdent got value fit in
            (value, cs, same, (rw v id, ids), rw (v, x) refl))
          (field_path_loop-Goes f (value ∷ []) q e (omega arith)))
      (fail-Goes IsPath p e)
