-- ===== src/Web/Query.antt =====
-- webbridge/webbridge.go: metadata in the query of a WebSocket request. A query is the list of its keys
-- with their values, in the order in which the loop ranges over the map; the metadata is the list of the
-- pairs that are appended to it.
pub mod Metadata
use grpcbridge.Base.{
  ℕ, ◌+◌, ◌-◌, ◌==◌, leb, if◌then◌else◌, List, [], ◌∷◌, ◌++◌, Option, none, some, Bool, true, false,
  ◌&&◌, ◌||◌, Bytes, codes, length, take, drop, has_suffix,
}

-- `strings.HasPrefix(s, t)`
unfoldable pub has_prefix : Bytes → Bytes → Bool
has_prefix s [] = true
has_prefix [] (c ∷ t) = false
has_prefix (x ∷ s) (c ∷ t) = x == c && has_prefix s t

abbrev pub is_key_byte : ℕ → Bool
is_key_byte ch =
    (leb b'a' ch && leb ch b'z')
    || (leb b'A' ch && leb ch b'Z')
    || (leb b'0' ch && leb ch b'9')
    || (ch == b'_' || ch == b'-' || ch == b'.')

unfoldable pub is_valid_metadata_key : Bytes → Bool
is_valid_metadata_key [] = true
is_valid_metadata_key (ch ∷ k) = is_key_byte ch && is_valid_metadata_key k

unfoldable pub is_valid_metadata_value : Bytes → Bool
is_valid_metadata_value [] = true
is_valid_metadata_value (ch ∷ v) = (leb 0x20 ch && leb ch 0x7E) && is_valid_metadata_value v

abbrev pub Query : Type 0
Query = List (Bytes × List Bytes)

-- `k[len(param)+1 : len(k)-1]`
unfoldable pub md_key : Bytes → Bytes → Bytes
md_key param k = take (length k - length param - 2) (drop (length param + 1) k)

unfoldable pub is_md_param : Bytes → Bytes → Bool
is_md_param param k = has_prefix k (param ++ b'[' ∷ []) && has_suffix k (codes "]")

-- The loop over the values.
unfoldable pub append_values : Bytes → List Bytes → List (Bytes × Bytes) → List (Bytes × Bytes)
append_values key [] md = md
append_values key (v ∷ vals) md =
    append_values key vals (if is_valid_metadata_value v then md ++ (key, v) ∷ [] else md)

-- The loop's variables: whether the query was cloned, what is left of it, and the metadata.
pub record Scan : Type 0 where
  pub is_modified : Bool
  pub remaining : Query
  pub md : List (Bytes × Bytes)

visit_values : Bytes → List Bytes → List (Bytes × Bytes) → List (Bytes × Bytes)
visit_values key vals md = if is_valid_metadata_key key then append_values key vals md else md

unfoldable pub visit_param : Bytes → Scan → Bytes × List Bytes → Scan
unfolding visit_values
visit_param param s (k, vals) =
    if is_md_param param k
    then record s { is_modified = true; md = visit_values (md_key param k) vals s.md }
    else record s { remaining = s.remaining ++ (k, vals) ∷ [] }

unfoldable pub visit_params : Bytes → Scan → Query → Scan
visit_params param s [] = s
visit_params param s (entry ∷ query) = visit_params param (visit_param param s entry) query

default_metadata_param : Bytes
default_metadata_param = codes "_metadata"

param_or_default : Bytes → Bytes
unfolding default_metadata_param
param_or_default [] = default_metadata_param
param_or_default (c ∷ param) = c ∷ param

unfoldable pub parse_metadata_query : Query → Bytes → Scan
unfolding param_or_default default_metadata_param
parse_metadata_query original param =
    visit_params (param_or_default param) (record { is_modified = false; remaining = []; md = [] })
      original
