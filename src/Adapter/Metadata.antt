-- ===== src/Adapter/Metadata.antt =====
-- grpcadapter/metadata.go: the filter of metadata between client and target.
pub mod Allowed
pub mod Named
pub mod Responses
pub mod Origins
use grpcbridge.Base.{
  ℕ, ◌+◌, ◌-◌, ltb, ◌==◌, ◌≡◌, ◌≢◌, if◌then◌else◌, List, [], ◌∷◌, ◌++◌, Option, none, some, Bool,
  true, false, ◌&&◌, Bytes, codes, length, take, drop,
}

-- google.golang.org/grpc/metadata: `Get` and `Set` take the key in lower case, and `Set` of no values
-- does nothing.
pub record MdLibrary : Type 1 where
  pub Md : Type 0
  pub empty : Md
  pub get : Md → Bytes → List Bytes
  pub set : Md → Bytes → List Bytes → Md
  pub lower : Bytes → Bytes
  pub get_empty : (j : Bytes) → get empty j ≡ []
  pub get_set_same :
      (md : Md) (j k v : Bytes) (vs : List Bytes)
      → lower j ≡ lower k
      → get (set md k (v ∷ vs)) j ≡ v ∷ vs
  pub get_set_other :
      (md : Md) (j k : Bytes) (vs : List Bytes) → lower j ≢ lower k → get (set md k vs) j ≡ get md j
  pub set_nothing : (md : Md) (k : Bytes) → set md k [] ≡ md

-- internal/ascii and encoding/base64
pub record TextLibrary : Type 0 where
  pub equal_fold : Bytes → Bytes → Bool
  pub decode_padded : Bytes → Option Bytes
  pub decode_raw : Bytes → Option Bytes

pub record FilterOpts : Type 0 where
  pub allow_request : List Bytes
  pub prefix_request : Bytes
  pub allow_response : List Bytes
  pub prefix_response : Bytes
  pub allow_trailer : List Bytes
  pub prefix_trailer : Bytes

abbrev pub gateway_prefix : Bytes
gateway_prefix = codes "grpc-metadata-"

abbrev pub timeout_key : Bytes
timeout_key = codes "grpc-timeout"

abbrev pub bin_suffix : Bytes
bin_suffix = codes "-bin"

-- `len(v) % 4 == 0`
abbrev pub is_padded : Bytes → Bool
is_padded [] = true
is_padded (_ ∷ []) = false
is_padded (_ ∷ _ ∷ []) = false
is_padded (_ ∷ _ ∷ _ ∷ []) = false
is_padded (_ ∷ _ ∷ _ ∷ _ ∷ s) = is_padded s

module _ (text : TextLibrary) where
  open text use {equal_fold, decode_padded, decode_raw}

  unfoldable pub decode_bin_header : Bytes → Option Bytes
  decode_bin_header v = if is_padded v then decode_padded v else decode_raw v

  keep_decoded : Option Bytes → List Bytes → List Bytes
  keep_decoded none rest = rest
  keep_decoded (some b) rest = b ∷ rest

  -- The values that can be decoded.
  unfoldable pub decode_all : List Bytes → List Bytes
  unfolding keep_decoded
  decode_all [] = []
  decode_all (s ∷ v) = keep_decoded (decode_bin_header s) (decode_all v)

  unfoldable pub has_gateway_prefix : Bytes → Bool
  has_gateway_prefix k =
      ltb (length gateway_prefix) (length k)
      && equal_fold (take (length gateway_prefix) k) gateway_prefix

  -- The name under which a field is forwarded.
  unfoldable pub request_name : Bytes → Bytes → Bytes
  request_name prefix k =
      if has_gateway_prefix k then drop (length gateway_prefix) k else prefix ++ k

  unfoldable pub is_binary : Bytes → Bool
  is_binary k =
      ltb (length bin_suffix) (length k)
      && equal_fold (drop (length k - length bin_suffix) k) bin_suffix

  unfoldable pub request_values : Bytes → List Bytes → List Bytes
  request_values k v = if is_binary k then decode_all v else v

module _ (text : TextLibrary) (lib : MdLibrary) where
  open lib use {Md, empty, get, set}

  set_request : Bytes → Md → Bytes → List Bytes → Md
  set_request prefix out k [] = out
  set_request prefix out k (v ∷ vs) =
      let name = request_name text prefix k in set out name (request_values text name (v ∷ vs))

  -- The loop of `filterRequest`, with the output so far.
  unfoldable pub request_loop : Md → Bytes → Md → List Bytes → Md
  unfolding set_request
  request_loop md prefix out [] = out
  request_loop md prefix out (k ∷ allow) =
      request_loop md prefix (set_request prefix out k (get md k)) allow

  unfoldable pub filter_request : Md → List Bytes → Bytes → Md
  filter_request md allow prefix = request_loop md prefix empty allow

  set_response : Bytes → Md → Bytes → List Bytes → Md
  set_response prefix out k [] = out
  set_response prefix out k (v ∷ vs) = set out (prefix ++ k) (v ∷ vs)

  unfoldable pub response_loop : Md → Bytes → Md → List Bytes → Md
  unfolding set_response
  response_loop md prefix out [] = out
  response_loop md prefix out (k ∷ allow) =
      response_loop md prefix (set_response prefix out k (get md k)) allow

  unfoldable pub filter_response : Md → List Bytes → Bytes → Md
  filter_response md allow prefix = response_loop md prefix empty allow

  set_timeout : Md → List Bytes → Md
  set_timeout out [] = out
  set_timeout out (v ∷ vs) = set out timeout_key (v ∷ vs)

  unfoldable pub filter_request_md : FilterOpts → Md → Md
  unfolding set_timeout
  filter_request_md opts md =
      set_timeout (filter_request md opts.allow_request opts.prefix_request) (get md timeout_key)

  unfoldable pub filter_response_md : FilterOpts → Md → Md
  filter_response_md opts md = filter_response md opts.allow_response opts.prefix_response

  unfoldable pub filter_trailer_md : FilterOpts → Md → Md
  filter_trailer_md opts md = filter_response md opts.allow_trailer opts.prefix_trailer
