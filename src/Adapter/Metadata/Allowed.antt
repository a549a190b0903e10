-- ===== src/Adapter/Metadata/Allowed.antt =====
-- grpcadapter/metadata.go: which fields pass the filter, and with which values.
use grpcbridge.Base.{
  ◌≡◌, refl, sym, ap, ◌∙◌, if◌then◌else◌, List, [], ◌∷◌, Bool, true, false, Bytes, equals, arith,
  Bool-cases, inl, inr,
}
use grpcbridge.Adapter.Metadata.{
  MdLibrary, TextLibrary, FilterOpts, timeout_key, decode_all, request_name, request_values,
  is_binary, set_request, request_loop, filter_request, set_timeout, filter_request_md,
}
use grpcbridge.Adapter.Metadata.Named.{
  IsForwardedAs, IsCarriedAs, request_name-IsForwardedAs, request_values-IsCarriedAs,
}

-- The first list, unless it is empty.
abbrev pub first_filled : List Bytes → List Bytes → List Bytes
first_filled [] ws = ws
first_filled (v ∷ vs) ws = v ∷ vs

pub first_filled_assoc :
    (us vs ws : List Bytes)
    → first_filled us (first_filled vs ws) ≡ first_filled (first_filled us vs) ws
first_filled_assoc [] vs ws = refl
first_filled_assoc (u ∷ us) vs ws = refl

pub first_filled_nil : (vs : List Bytes) → first_filled vs [] ≡ vs
first_filled_nil [] = refl
first_filled_nil (v ∷ vs) = refl

-- What the last one of the allowed fields forwarded as `j` carries, of those with values.
abbrev pub last_forwarded :
    (Bytes → Bytes) → (Bytes → Bytes) → (Bytes → List Bytes) → List Bytes → Bytes → List Bytes
last_forwarded lower name values [] j = []
last_forwarded lower name values (k ∷ allow) j =
    first_filled (last_forwarded lower name values allow j)
      (if equals (lower j) (lower (name k)) then values k else [])

pub first_filled_none : (b : Bool) (ws : List Bytes) → first_filled (if b then [] else []) ws ≡ ws
first_filled_none true ws = refl
first_filled_none false ws = refl

request_values_none : (text : TextLibrary) (k : Bytes) → request_values text k [] ≡ []
unfolding request_values decode_all
request_values_none text k = elim (Bool-cases (is_binary text k)) [
  | inl y ↦ rw y refl
  | inr n ↦ rw n refl
]

module _ (text : TextLibrary) (lib : MdLibrary) where
  open lib use {Md, get, set, lower, get_empty, get_set_same, get_set_other, set_nothing}

  pub get-set :
      (md : Md) (k : Bytes) (vs : List Bytes) (j : Bytes)
      → get (set md k vs) j
        ≡ first_filled (if equals (lower j) (lower k) then vs else []) (get md j)
  get-set md k [] j =
      ap (λ (m : Md). get m j) (set_nothing md k) ∙ sym (first_filled_none _ (get md j))
  get-set md k (v ∷ vs) j = elim (Bool-cases (equals (lower j) (lower k))) [
    | inl y ↦ rw y (get_set_same md j k v vs (ground arith))
    | inr n ↦ rw n (get_set_other md j k (v ∷ vs) (ground arith))
  ]

  abbrev pub forwarded_values : Md → Bytes → Bytes → List Bytes
  forwarded_values md prefix k = request_values text (request_name text prefix k) (get md k)

  get-set_request :
      (prefix : Bytes) (out : Md) (k : Bytes) (vs : List Bytes) (j : Bytes)
      → get (set_request text lib prefix out k vs) j
        ≡ first_filled
            (if equals (lower j) (lower (request_name text prefix k))
              then request_values text (request_name text prefix k) vs
              else [])
            (get out j)
  unfolding set_request
  get-set_request prefix out k [] j =
      rw (request_values_none text (request_name text prefix k))
        (sym (first_filled_none _ (get out j)))
  get-set_request prefix out k (v ∷ vs) j = get-set out _ _ j

  get-request_loop :
      (md : Md) (prefix : Bytes) (out : Md) (allow : List Bytes) (j : Bytes)
      → get (request_loop text lib md prefix out allow) j
        ≡ first_filled
            (last_forwarded lower (request_name text prefix) (forwarded_values md prefix) allow j)
            (get out j)
  unfolding request_loop
  get-request_loop md prefix out [] j = refl
  get-request_loop md prefix out (k ∷ allow) j =
      get-request_loop md prefix (set_request text lib prefix out k (get md k)) allow j
      ∙ ap
          (first_filled
            (last_forwarded lower (request_name text prefix) (forwarded_values md prefix) allow j))
          (get-set_request prefix out k (get md k) j)
      ∙ first_filled_assoc _ _ (get out j)

  get-filter_request :
      (md : Md) (allow : List Bytes) (prefix j : Bytes)
      → get (filter_request text lib md allow prefix) j
        ≡ last_forwarded lower (request_name text prefix) (forwarded_values md prefix) allow j
  unfolding filter_request
  get-filter_request md allow prefix j =
      get-request_loop md prefix lib.empty allow j
      ∙ ap
          (first_filled
            (last_forwarded lower (request_name text prefix) (forwarded_values md prefix) allow j))
          (get_empty j)
      ∙ first_filled_nil _

  pub get-filter_request_md_last :
      (opts : FilterOpts) (md : Md) (j : Bytes)
      → get (filter_request_md text lib opts md) j
        ≡ first_filled (if equals (lower j) (lower timeout_key) then get md timeout_key else []) (
            last_forwarded lower
              (request_name text opts.prefix_request)
              (forwarded_values md opts.prefix_request)
              opts.allow_request
              j)
  unfolding filter_request_md set_timeout
  get-filter_request_md_last opts md j = go (get md timeout_key)
    where
      go :
          (vs : List Bytes)
          → get
              (set_timeout text lib
                (filter_request text lib md opts.allow_request opts.prefix_request)
                vs)
              j
            ≡ first_filled (if equals (lower j) (lower timeout_key) then vs else []) (
                last_forwarded lower
                  (request_name text opts.prefix_request)
                  (forwarded_values md opts.prefix_request)
                  opts.allow_request
                  j)
      go [] =
          get-filter_request md opts.allow_request opts.prefix_request j
          ∙ sym (first_filled_none _ _)
      go (v ∷ vs) =
          get-set _ timeout_key (v ∷ vs) j
          ∙ ap (first_filled (if equals (lower j) (lower timeout_key) then v ∷ vs else []))
              (get-filter_request md opts.allow_request opts.prefix_request j)

  -- The list is what the last one of the allowed fields forwarded as `j` carries, of those with values.
  abbrev pub IsLastForwarded : Md → Bytes → List Bytes → Bytes → List Bytes → Type 0
  IsLastForwarded md prefix [] j vs = vs ≡ []
  IsLastForwarded md prefix (k ∷ allow) j vs =
      (name : Bytes) × (ws : List Bytes) × (us : List Bytes) × IsForwardedAs text prefix k name
      × IsCarriedAs text name (get md k) ws
      × IsLastForwarded md prefix allow j us
      × (vs ≡ first_filled us (if equals (lower j) (lower name) then ws else []))

  last_forwarded-IsLastForwarded :
      (md : Md) (prefix : Bytes) (allow : List Bytes) (j : Bytes)
      → IsLastForwarded md prefix allow j
          (last_forwarded lower (request_name text prefix) (forwarded_values md prefix) allow j)
  last_forwarded-IsLastForwarded md prefix [] j = refl
  last_forwarded-IsLastForwarded md prefix (k ∷ allow) j = (
    request_name text prefix k,
    forwarded_values md prefix k,
    last_forwarded lower (request_name text prefix) (forwarded_values md prefix) allow j,
    request_name-IsForwardedAs text prefix k,
    request_values-IsCarriedAs text (request_name text prefix k) (get md k),
    last_forwarded-IsLastForwarded md prefix allow j,
    refl,
  )

  -- For a metadata library with Get and Set as documented, FilterRequestMD forwards under every key
  -- the client's timeout, where this is the timeout's key and it has values, and else what the last
  -- of the allowed fields forwarded under the key carries, of those that carry values. The name of a
  -- field is what follows the gateway's prefix in its key, or else the configured prefix and its
  -- key. Under a name with the suffix of binary fields behind a text, each value is decoded, with
  -- padding if its length is a multiple of 4 and else without, and those without a decoding are
  -- dropped; under any other name the values are as they came.
  pub get-filter_request_md :
      (opts : FilterOpts) (md : Md) (j : Bytes)
      → (ws : List Bytes) × IsLastForwarded md opts.prefix_request opts.allow_request j ws
        × (get (filter_request_md text lib opts md) j
            ≡ first_filled
                (if equals (lower j) (lower timeout_key) then get md timeout_key else [])
                ws)
  get-filter_request_md opts md j = (
    last_forwarded lower (request_name text opts.prefix_request)
        (forwarded_values md opts.prefix_request) opts.allow_request j,
    last_forwarded-IsLastForwarded md opts.prefix_request opts.allow_request j,
    get-filter_request_md_last opts md j,
  )
