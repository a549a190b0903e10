-- ===== src/Web/Query/Metadata.antt =====
-- webbridge/webbridge.go: what `parseMetadataQuery` takes out of a query.
use grpcbridge.Base.{
  ℕ, ◌+◌, ◌-◌, ◌≡◌, refl, sym, ap, ◌∙◌, subst, drop_after, if◌then◌else◌, List, [], ◌∷◌, ◌++◌, Bool,
  true, false, ◌&&◌, Bytes, codes, length, length-append, take, drop, take-append, has_suffix,
  has_suffix-append, arith, Bool-cases, inl, inr, append_assoc, append-nil, All,
}
use grpcbridge.Web.Query.{
  has_prefix, is_valid_metadata_key, is_valid_metadata_value, Query, md_key, is_md_param,
  append_values, Scan, visit_values, visit_param, visit_params, parse_metadata_query,
}

-- A key of gRPC metadata, and a printable value.
abbrev pub IsEntry : Bytes × Bytes → Type 0
IsEntry e = (is_valid_metadata_key e.0 ≡ true) × (is_valid_metadata_value e.1 ≡ true)

-- The values that pass, under their key.
abbrev pub valid_values : Bytes → List Bytes → List (Bytes × Bytes)
valid_values key [] = []
valid_values key (v ∷ vals) =
    if is_valid_metadata_value v then (key, v) ∷ valid_values key vals else valid_values key vals

-- The metadata of a query, entry by entry.
abbrev pub metadata_of : Bytes → Query → List (Bytes × Bytes)
metadata_of param [] = []
metadata_of param ((k, vals) ∷ query) =
    (if is_md_param param k && is_valid_metadata_key (md_key param k)
      then valid_values (md_key param k) vals
      else [])
    ++ metadata_of param query

abbrev pub others_of : Bytes → Query → Query
others_of param [] = []
others_of param ((k, vals) ∷ query) =
    if is_md_param param k then others_of param query else (k, vals) ∷ others_of param query

abbrev pub any_param : Bytes → Query → Bool
any_param param [] = false
any_param param ((k, vals) ∷ query) = if is_md_param param k then true else any_param param query

append_values_lem :
    (key : Bytes) (vals : List Bytes) (md : List (Bytes × Bytes))
    → append_values key vals md ≡ md ++ valid_values key vals
unfolding append_values
append_values_lem key [] md = sym (append-nil md)
append_values_lem key (v ∷ vals) md = elim (Bool-cases (is_valid_metadata_value v)) [
  | inl y ↦ rw y (
      append_values_lem key vals (md ++ (key, v) ∷ [])
      ∙ append_assoc md ((key, v) ∷ []) (valid_values key vals))
  | inr n ↦ rw n (append_values_lem key vals md)
]

module _ (param : Bytes) where
  abbrev entries_of : Bytes → List Bytes → List (Bytes × Bytes)
  entries_of k vals =
      if is_md_param param k && is_valid_metadata_key (md_key param k)
      then valid_values (md_key param k) vals
      else []

  visit_param_md :
      (s : Scan) (k : Bytes) (vals : List Bytes)
      → (visit_param param s (k, vals)).md ≡ s.md ++ entries_of k vals
  unfolding visit_param visit_values
  visit_param_md s k vals =
      ground (arith, append_values_lem (md_key param k) vals s.md, append-nil s.md)

  visit_param_remaining :
      (s : Scan) (k : Bytes) (vals : List Bytes)
      → (visit_param param s (k, vals)).remaining
        ≡ s.remaining ++ (if is_md_param param k then [] else (k, vals) ∷ [])
  unfolding visit_param
  visit_param_remaining s k vals = ground (arith, append-nil s.remaining)

  visit_param_modified :
      (s : Scan) (k : Bytes) (vals : List Bytes)
      → (visit_param param s (k, vals)).is_modified
        ≡ (if s.is_modified then true else is_md_param param k)
  unfolding visit_param
  visit_param_modified s k vals = ground arith

  others_step :
      (k : Bytes) (vals : List Bytes) (query : Query)
      → (if is_md_param param k then [] else (k, vals) ∷ []) ++ others_of param query
        ≡ others_of param ((k, vals) ∷ query)
  others_step k vals query = ground arith

  -- The loop adds to what it has.
  visit_params_lem :
      (s : Scan) (query : Query)
      → ((visit_params param s query).md ≡ s.md ++ metadata_of param query)
        × ((visit_params param s query).remaining ≡ s.remaining ++ others_of param query)
        × ((visit_params param s query).is_modified
            ≡ (if s.is_modified then true else any_param param query))
  unfolding visit_params
  visit_params_lem s [] = (sym (append-nil s.md), sym (append-nil s.remaining), ground arith)
  visit_params_lem s ((k, vals) ∷ query) =
      let (md, remaining, modified) = visit_params_lem (visit_param param s (k, vals)) query in
      (
        md
            ∙ ap (λ (x : List (Bytes × Bytes)). x ++ metadata_of param query)
                (visit_param_md s k vals)
            ∙ append_assoc s.md (entries_of k vals) (metadata_of param query),
        remaining
            ∙ ap (λ (x : Query). x ++ others_of param query) (visit_param_remaining s k vals)
            ∙ append_assoc s.remaining (if is_md_param param k then [] else (k, vals) ∷ [])
                (others_of param query)
            ∙ ap (λ (x : Query). s.remaining ++ x) (others_step k vals query),
        modified ∙ ground (arith, visit_param_modified s k vals),
      )

  valid_values-IsEntry :
      (key : Bytes) (vals : List Bytes)
      → is_valid_metadata_key key ≡ true
      → All IsEntry (valid_values key vals)
  valid_values-IsEntry key [] h = tt
  valid_values-IsEntry key (v ∷ vals) h = elim (Bool-cases (is_valid_metadata_value v)) [
    | inl y ↦ rw y ((h, y), valid_values-IsEntry key vals h)
    | inr n ↦ rw n (valid_values-IsEntry key vals h)
  ]

  All-append :
      (xs ys : List (Bytes × Bytes)) → All IsEntry xs → All IsEntry ys → All IsEntry (xs ++ ys)
  All-append [] ys h k = k
  All-append (x ∷ xs) ys h k = (h.0, All-append xs ys h.1 k)

  metadata_of-IsEntry : (query : Query) → All IsEntry (metadata_of param query)
  metadata_of-IsEntry [] = tt
  metadata_of-IsEntry ((k, vals) ∷ query) =
      All-append (entries_of k vals) (metadata_of param query) first (metadata_of-IsEntry query)
    where
      first : All IsEntry (entries_of k vals)
      first = elim (Bool-cases (is_md_param param k && is_valid_metadata_key (md_key param k))) [
        | inl y ↦ rw y (valid_values-IsEntry (md_key param k) vals (ground arith))
        | inr n ↦ rw n tt
      ]

-- For a parameter that is not empty, the metadata is that of the query's entries whose key is the
-- parameter with a valid key in brackets, with their printable values, and each entry of it is
-- valid; what is left of the query are the entries whose key does not have this form; and the query
-- counts as modified if some key has it.
pub parse_metadata_query_lem :
    (query : Query) (c : ℕ) (name : Bytes)
    → let param = c ∷ name in
      ((parse_metadata_query query param).md ≡ metadata_of param query)
      × All IsEntry (parse_metadata_query query param).md
      × ((parse_metadata_query query param).remaining ≡ others_of param query)
      × ((parse_metadata_query query param).is_modified ≡ any_param param query)
unfolding parse_metadata_query
parse_metadata_query_lem query c name =
    let (md, remaining, modified) =
      visit_params_lem (c ∷ name) (record { is_modified = false; remaining = []; md = [] }) query in
    (md, subst (All IsEntry) (sym md) (metadata_of-IsEntry (c ∷ name) query), remaining, modified)

has_prefix-append : (s t : Bytes) → has_prefix (s ++ t) s ≡ true
unfolding has_prefix
has_prefix-append [] t = refl
has_prefix-append (x ∷ s) t = ground (arith, has_prefix-append s t)

wrapped-has_prefix :
    (param rest : Bytes) → has_prefix (param ++ b'[' ∷ rest) (param ++ b'[' ∷ []) ≡ true
wrapped-has_prefix param rest =
    ap (λ (x : Bytes). has_prefix x (param ++ b'[' ∷ []))
      (sym (append_assoc param (b'[' ∷ []) rest))
    ∙ has_prefix-append (param ++ b'[' ∷ []) rest

wrapped-has_suffix :
    (param key : Bytes) → has_suffix (param ++ b'[' ∷ (key ++ codes "]")) (codes "]") ≡ true
wrapped-has_suffix param key =
    ap (λ (x : Bytes). has_suffix x (codes "]")) (sym (append_assoc param (b'[' ∷ key) (codes "]")))
    ∙ has_suffix-append (param ++ b'[' ∷ key) (codes "]")

wrapped_length :
    (param key : Bytes)
    → length (param ++ b'[' ∷ (key ++ codes "]")) - length param - 2 ≡ length key
wrapped_length param key =
    omega (arith, length-append param (b'[' ∷ (key ++ codes "]")), length-append key (codes "]"))

-- The key between the brackets is found.
pub md_key_wrapped :
    (param key : Bytes)
    → (is_md_param param (param ++ b'[' ∷ (key ++ codes "]")) ≡ true)
      × (md_key param (param ++ b'[' ∷ (key ++ codes "]")) ≡ key)
unfolding is_md_param md_key
md_key_wrapped param key = (
  ground (arith, wrapped-has_prefix param (key ++ codes "]"), wrapped-has_suffix param key),
  ap (λ (n : ℕ). take n (drop (length param + 1) (param ++ b'[' ∷ (key ++ codes "]"))))
        (wrapped_length param key)
      ∙ ap (take (length key)) (drop_after param (key ++ codes "]") b'[')
      ∙ take-append key (codes "]"),
)
