-- ===== src/Adapter/Metadata/Responses.antt =====
-- grpcadapter/metadata.go: the response's and the trailer's fields that pass the filter.
use grpcbridge.Base.{◌≡◌, refl, sym, ap, ◌∙◌, if◌then◌else◌, List, [], ◌∷◌, ◌++◌, Bytes, equals}
use grpcbridge.Adapter.Metadata.{
  MdLibrary, TextLibrary, FilterOpts, set_response, response_loop, filter_response,
  filter_response_md, filter_trailer_md,
}
use grpcbridge.Adapter.Metadata.Allowed.{
  first_filled, first_filled_assoc, first_filled_nil, first_filled_none, last_forwarded, get-set,
}

module _ (text : TextLibrary) (lib : MdLibrary) where
  open lib use {Md, get, set, lower, get_empty, get_set_same, get_set_other, set_nothing}

  get-set_response :
      (prefix : Bytes) (out : Md) (k : Bytes) (vs : List Bytes) (j : Bytes)
      → get (set_response text lib prefix out k vs) j
        ≡ first_filled (if equals (lower j) (lower (prefix ++ k)) then vs else []) (get out j)
  unfolding set_response
  get-set_response prefix out k [] j = sym (first_filled_none _ (get out j))
  get-set_response prefix out k (v ∷ vs) j = get-set text lib out _ _ j

  get-response_loop :
      (md : Md) (prefix : Bytes) (out : Md) (allow : List Bytes) (j : Bytes)
      → get (response_loop text lib md prefix out allow) j
        ≡ first_filled (last_forwarded lower (λ k. prefix ++ k) (get md) allow j) (get out j)
  unfolding response_loop
  get-response_loop md prefix out [] j = refl
  get-response_loop md prefix out (k ∷ allow) j =
      get-response_loop md prefix (set_response text lib prefix out k (get md k)) allow j
      ∙ ap (first_filled (last_forwarded lower (λ k. prefix ++ k) (get md) allow j))
          (get-set_response prefix out k (get md k) j)
      ∙ first_filled_assoc _ _ (get out j)

  get-filter_response :
      (md : Md) (allow : List Bytes) (prefix j : Bytes)
      → get (filter_response text lib md allow prefix) j
        ≡ last_forwarded lower (λ k. prefix ++ k) (get md) allow j
  unfolding filter_response
  get-filter_response md allow prefix j =
      get-response_loop md prefix lib.empty allow j
      ∙ ap (first_filled (last_forwarded lower (λ k. prefix ++ k) (get md) allow j)) (get_empty j)
      ∙ first_filled_nil _

  -- FilterResponseMD and FilterTrailerMD forward under every key what the last field of their
  -- allowlist with that prefixed name and with values carries, as it came.
  pub get-filter_response_md :
      (opts : FilterOpts) (md : Md) (j : Bytes)
      → (get (filter_response_md text lib opts md) j
          ≡ last_forwarded lower (λ k. opts.prefix_response ++ k) (get md) opts.allow_response j)
        × (get (filter_trailer_md text lib opts md) j
            ≡ last_forwarded lower (λ k. opts.prefix_trailer ++ k) (get md) opts.allow_trailer j)
  unfolding filter_response_md filter_trailer_md
  get-filter_response_md opts md j = (
    get-filter_response md opts.allow_response opts.prefix_response j,
    get-filter_response md opts.allow_trailer opts.prefix_trailer j,
  )
