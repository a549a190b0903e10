-- ===== src/Tests/Population.antt =====
-- Runs of the transcoding of requests over messages that are maps, and its theorems there.
use grpcbridge.Base.{
  ◌≡◌, ◌≢◌, refl, sym, ap, ◌∙◌, if◌then◌else◌, List, [], ◌∷◌, Option, some, true, false, Bytes, In,
  codes, equals, arith, All, ◌⊎◌, inl, inr, Bool, ◌&&◌, ◌||◌, ◌++◌, split, Bool-cases,
  bytes_discrete,
}
use grpcbridge.Base.Maps.{Map, put, empty}
use grpcbridge.Rpc.{Err, plain}
use grpcbridge.Transcoding.Paths.{traverse_field_path}
use grpcbridge.Transcoding.Requests.{
  Transcode, transcoded, fails, Messages, Bindings, populate_params, query_filter, transcode_func,
}
use grpcbridge.Transcoding.Requests.Population.{Population, IsPrefix, IsSkipped}
use grpcbridge.Web.Query.{Query}
use grpcbridge.Transcoding.Requests.Priority.{
  ArePairwiseApart, IsSpared, HoldsAll, transcode_func-HoldsAll, IsTranscodingError,
  transcode_func-IsTranscodingError,
}
use grpcbridge.Tests.Transcoding.{orders, order}

abbrev is_prefix : List Bytes → List Bytes → Bool
is_prefix [] path = true
is_prefix (x ∷ above) [] = false
is_prefix (x ∷ above) (y ∷ path) = equals x y && is_prefix above path

abbrev is_skipped : List (List Bytes) → List Bytes → Bool
is_skipped [] path = false
is_skipped (above ∷ filter) path = is_prefix above path || is_skipped filter path

abbrev populate_key : List (List Bytes) → Bytes → List Bytes → Map Bytes → Map Bytes
populate_key filter k [] m = m
populate_key filter k (v ∷ vs) m = if is_skipped filter (split b'.' k) then m else put k v m

abbrev populate_keys : List (List Bytes) → Query → Map Bytes → Map Bytes
populate_keys filter [] m = m
populate_keys filter ((k, vs) ∷ q) m = populate_keys filter q (populate_key filter k vs m)

-- Messages as maps from paths to texts, whose body is never read.
abbrev maps : Messages
maps = record {
  Msg = Map Bytes;
  schema = orders;
  descriptor = order;
  unmarshal = λ above field body m. transcoded m;
  marshal = λ above field m. transcoded [];
  populate = λ m k v. some (put k v m);
  populate_query = λ m q filter. some (populate_keys filter q m);
}

some_map : (m n : Map Bytes) → some m ≡ some n → m ≡ n
some_map m n h = cc

put_holds : (m n : Map Bytes) (k v : Bytes) → some (put k v m) ≡ some n → n k ≡ some v
put_holds m n k v h = ap (λ (x : Map Bytes). x k) (sym (some_map (put k v m) n h)) ∙ ground arith

put_other :
    (m : Map Bytes) (j k v w : Bytes)
    → split b'.' j ≢ split b'.' k
    → m j ≡ some w
    → put k v m j ≡ some w
put_other m j k v w a e = let other : j ≢ k = λ z. a (ap (split b'.') z) in ground arith

put_keeps :
    (m n : Map Bytes) (j k v w : Bytes)
    → split b'.' j ≢ split b'.' k
    → some (put k v m) ≡ some n
    → m j ≡ some w
    → n j ≡ some w
put_keeps m n j k v w a h e =
    ap (λ (x : Map Bytes). x j) (sym (some_map (put k v m) n h)) ∙ put_other m j k v w a e

prefix_found : (above rest : List Bytes) → is_prefix above (above ++ rest) ≡ true
prefix_found [] rest = refl
prefix_found (x ∷ above) rest = ground (arith, prefix_found above rest)

skipped_found :
    (filter : List (List Bytes)) (path above : List Bytes)
    → In above filter
    → IsPrefix above path
    → is_skipped filter path ≡ true
skipped_found [] path above i is = elim i [ ]
skipped_found (p ∷ filter) path above (inl same) (rest, e) =
    let found =
      ap (is_prefix p) (e ∙ ap (λ (q : List Bytes). q ++ rest) same) ∙ prefix_found p rest in
    rw found refl
skipped_found (p ∷ filter) path above (inr i) is =
    let found = skipped_found filter path above i is in ground arith

keys_keep :
    (filter : List (List Bytes)) (k v : Bytes) (q : Query) (m : Map Bytes)
    → All
        (λ (e : Bytes × List Bytes).
          IsSkipped filter (split b'.' e.0) ⊎ (split b'.' k ≢ split b'.' e.0))
        q
    → m k ≡ some v
    → populate_keys filter q m k ≡ some v
keys_keep filter k v [] m h e = e
keys_keep filter k v ((j, []) ∷ q) m h e = keys_keep filter k v q m h.1 e
keys_keep filter k v ((j, w ∷ ws) ∷ q) m (inl (above, i, low, is), h) e =
    rw (skipped_found filter (split b'.' j) above i is) (keys_keep filter k v q m h e)
keys_keep filter k v ((j, w ∷ ws) ∷ q) m (inr far, h) e =
    elim (Bool-cases (is_skipped filter (split b'.' j))) [
      | inl y ↦ rw y (keys_keep filter k v q m h e)
      | inr n ↦ rw n (keys_keep filter k v q (put j w m) h (put_other m k j w v far e))
    ]

query_holds :
    (m n : Map Bytes) (q : Query) (filter : List (List Bytes)) (k v : Bytes)
    → All
        (λ (e : Bytes × List Bytes).
          IsSkipped filter (split b'.' e.0) ⊎ (split b'.' k ≢ split b'.' e.0))
        q
    → some (populate_keys filter q m) ≡ some n
    → m k ≡ some v
    → n k ≡ some v
query_holds m n q filter k v a h e =
    ap (λ (x : Map Bytes). x k) (sym (some_map (populate_keys filter q m) n h))
    ∙ keys_keep filter k v q m a e

abbrev map_laws : Population maps
map_laws = record {
  Holds = λ m k v. m k ≡ some v;
  Apart = λ path other. path ≢ other;
  query_path = λ k. split b'.' k;
  populate_holds = put_holds;
  populate_keeps = put_keeps;
  query_keeps = query_holds;
}

-- A query with a key of a parameter, and one besides.
abbrev with_query : Bindings
with_query = record {
  request_body_path = [];
  response_body_path = [];
  path_params = (codes "id", codes "7") ∷ (codes "shop", codes "a") ∷ [];
  query = (codes "id", codes "8" ∷ []) ∷ (codes "other", codes "b" ∷ []) ∷ [];
}

abbrev filled : Map Bytes
filled =
    put (codes "other") (codes "b")
      (put (codes "shop") (codes "a") (put (codes "id") (codes "7") empty))

abbrev no_body : List Bytes → Option Bytes → Map Bytes → Transcode (Map Bytes)
no_body above field m = fails plain

filled_by_params : transcode_func maps false no_body with_query empty ≡ transcoded filled
unfolding transcode_func populate_params query_filter traverse_field_path split bytes_discrete
filled_by_params = refl

params-ArePairwiseApart : ArePairwiseApart maps map_laws with_query.path_params
unfolding split
params-ArePairwiseApart = (((λ e. absurd cc), tt), (tt, tt))

query-IsSpared : IsSpared maps map_laws with_query
unfolding split
query-IsSpared = inr (
  inl (
      inl (
        (codes "id", codes "7"),
        inl refl,
        ((inl refl, (inr (λ is. absurd (cc is.1)), tt)), inl refl),
        ([], refl),
      )),
  (inr ((λ e. absurd cc), ((λ e. absurd cc), tt)), tt),
)

transcode_func-HoldsAll_example : HoldsAll maps map_laws filled with_query.path_params
transcode_func-HoldsAll_example =
    transcode_func-HoldsAll maps map_laws false no_body with_query empty filled
      params-ArePairwiseApart query-IsSpared filled_by_params

abbrev two_params : Bindings
two_params = record {
  request_body_path = codes "*";
  response_body_path = [];
  path_params = (codes "id", codes "7") ∷ (codes "shop", codes "a") ∷ [];
  query = [];
}

abbrev breaks : List Bytes → Option Bytes → Map Bytes → Transcode (Map Bytes)
breaks above field m = fails plain

broken_body : transcode_func maps false breaks two_params empty ≡ fails (Err.status 3)
unfolding transcode_func traverse_field_path bytes_discrete
broken_body = refl

transcode_func-IsTranscodingError_example : IsTranscodingError false (Err.status 3)
transcode_func-IsTranscodingError_example =
    transcode_func-IsTranscodingError maps false breaks two_params empty (Err.status 3) broken_body
