-- ===== src/Tests/Adapter.antt =====
-- Runs of the metadata filter over a metadata map that is a function, and the theorems there.
use grpcbridge.Base.{
  ℕ, ◌+◌, leb, ◌≡◌, ◌≢◌, refl, if◌then◌else◌, List, [], ◌∷◌, Option, none, some, ◌&&◌, Bytes, codes,
  equals, arith, map, bytes_discrete,
}
use grpcbridge.Adapter.Metadata.{
  MdLibrary, TextLibrary, FilterOpts, timeout_key, decode_bin_header, decode_all,
  has_gateway_prefix, request_name, is_binary, request_values, request_loop, filter_request,
  filter_request_md,
}
use grpcbridge.Adapter.Metadata.Allowed.{first_filled, IsLastForwarded, get-filter_request_md}

abbrev lower_byte : ℕ → ℕ
lower_byte c = if leb b'A' c && leb c b'Z' then c + 32 else c

abbrev lower_text : Bytes → Bytes
lower_text s = map lower_byte s

abbrev write : (Bytes → List Bytes) → Bytes → List Bytes → Bytes → List Bytes
write md k [] j = md j
write md k (v ∷ vs) j = if equals (lower_text j) (lower_text k) then v ∷ vs else md j

write_same :
    (md : Bytes → List Bytes) (j k v : Bytes) (vs : List Bytes)
    → lower_text j ≡ lower_text k
    → write md k (v ∷ vs) j ≡ v ∷ vs
write_same md j k v vs e = ground arith

write_other :
    (md : Bytes → List Bytes) (j k : Bytes) (vs : List Bytes)
    → lower_text j ≢ lower_text k
    → write md k vs j ≡ md j
write_other md j k [] h = refl
write_other md j k (v ∷ vs) h = ground arith

abbrev functions : MdLibrary
functions = record {
  Md = Bytes → List Bytes;
  empty = λ j. [];
  get = λ md j. md j;
  set = write;
  lower = lower_text;
  get_empty = λ j. refl;
  get_set_same = write_same;
  get_set_other = write_other;
  set_nothing = λ md k. refl;
}

-- A decoding that drops the first byte and refuses the empty text.
abbrev behind_first : Bytes → Option Bytes
behind_first [] = none
behind_first (c ∷ s) = some s

abbrev texts : TextLibrary
texts = record {
  equal_fold = λ s t. equals (lower_text s) (lower_text t);
  decode_padded = behind_first;
  decode_raw = behind_first;
}

abbrev opts : FilterOpts
opts = record {
  allow_request = codes "Grpc-Metadata-Foo" ∷ codes "Trace-Bin" ∷ [];
  prefix_request = codes "x-";
  allow_response = codes "id" ∷ [];
  prefix_response = codes "y-";
  allow_trailer = codes "id" ∷ [];
  prefix_trailer = codes "z-";
}

abbrev request : Bytes → List Bytes
request =
    write
      (write (write (λ j. []) (codes "grpc-metadata-foo") (codes "1" ∷ [])) (codes "trace-bin")
        (codes "qr" ∷ [] ∷ []))
      (codes "secret") (codes "s" ∷ [])

request_fields :
    (filter_request_md texts functions opts request (codes "Foo") ≡ codes "1" ∷ [])
    × (filter_request_md texts functions opts request (codes "x-trace-bin") ≡ codes "r" ∷ [])
    × (filter_request_md texts functions opts request (codes "secret") ≡ [])
unfolding filter_request_md filter_request request_loop request_name has_gateway_prefix
    request_values is_binary decode_all decode_bin_header bytes_discrete
request_fields = (refl, refl, refl)

get-filter_request_md_example :
    (ws : List Bytes) × IsLastForwarded texts functions request
      (codes "x-")
      opts.allow_request
      (codes "x-trace-bin")
      ws
    × (filter_request_md texts functions opts request (codes "x-trace-bin")
        ≡ first_filled
            (if equals (lower_text (codes "x-trace-bin")) (lower_text timeout_key)
              then request timeout_key
              else [])
            ws)
get-filter_request_md_example =
    get-filter_request_md texts functions opts request (codes "x-trace-bin")

foo_is_forwarded : filter_request_md texts functions opts request (codes "Foo") ≢ []
foo_is_forwarded = λ e. cc (e, request_fields.0)
