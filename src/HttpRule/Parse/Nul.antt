-- ===== src/HttpRule/Parse/Nul.antt =====
-- internal/httprule/parse.go: a byte 0 that is a token of its own is taken for the end marker.
use grpcbridge.Base.{
  ℕ, zero, suc, ◌+◌, ◌<◌, ◌≡◌, refl, List, [], ◌∷◌, some, Bytes, codes, length, arith,
  bytes_discrete,
}
use grpcbridge.HttpRule.Tokenize.{
  eof, in_segment, tokenize, tokens_from, tokens_from_lem, split_any, next_state,
}
use grpcbridge.HttpRule.Parse.{
  literal, nil, cons, fits, accept, accept_from, parse_template, parsed, finish, parse_tokens,
  parse,
}

tokens_from_nul :
    (f : ℕ) (s : Bytes)
    → length s + 1 < f
    → (ts : List Bytes) × (tokens_from f in_segment (0 ∷ b'/' ∷ s) ≡ some (eof ∷ ts))
unfolding tokens_from split_any next_state
tokens_from_nul zero s h = absurd (omega arith)
tokens_from_nul (suc f) s h =
    let (ts, e, _, _) = tokens_from_lem f in_segment s (omega arith) in (codes "/" ∷ ts, rw e refl)

tokenize_nul : (s : Bytes) → (ts : List Bytes) × (tokenize (0 ∷ b'/' ∷ s) ≡ some (eof ∷ ts))
unfolding tokenize
tokenize_nul s = tokens_from_nul (length (0 ∷ b'/' ∷ s) + 1) s (omega arith)

-- Parse accepts every text that begins with a slash, a byte 0 and a slash, as the template with one
-- empty literal, whatever the rest of the text is.
pub parse_nul :
    (s : Bytes)
    → parse (b'/' ∷ 0 ∷ b'/' ∷ s)
      ≡ parsed (record { tmpl = b'/' ∷ 0 ∷ b'/' ∷ s; segments = cons (literal []) nil; verb = [] })
unfolding parse parse_tokens finish parse_template accept accept_from fits bytes_discrete
parse_nul s = let (ts, e) = tokenize_nul s in rw e refl
