-- ===== src/Adapter/Metadata/Origins.antt =====
-- grpcadapter/metadata.go: where a field that passes the request's filter comes from.
use grpcbridge.Base.{
  ◌≡◌, ◌≢◌, refl, sym, ap, ◌∙◌, if◌then◌else◌, List, [], ◌∷◌, Bool, true, Bytes, equals, arith,
  Bool-cases, inl, inr, ◌⊎◌, In,
}
use grpcbridge.Adapter.Metadata.{
  MdLibrary, TextLibrary, FilterOpts, timeout_key, request_name, filter_request_md,
}
use grpcbridge.Adapter.Metadata.Allowed.{
  first_filled, last_forwarded, forwarded_values, get-filter_request_md_last,
}

-- Without a field forwarded as `j` there are no values.
last_forwarded-ne-nil :
    (lower name : Bytes → Bytes) (values : Bytes → List Bytes) (allow : List Bytes) (j : Bytes)
    → last_forwarded lower name values allow j ≢ []
    → (k : Bytes) × In k allow
      × (lower j ≡ lower (name k))
      × (last_forwarded lower name values allow j ≡ values k)
last_forwarded-ne-nil lower name values [] j h = absurd (h refl)
last_forwarded-ne-nil lower name values (k ∷ allow) j h =
    go (last_forwarded lower name values allow j) refl h
      (last_forwarded-ne-nil lower name values allow j)
  where
    go :
        (vs : List Bytes)
        → last_forwarded lower name values allow j ≡ vs
        → first_filled vs (if equals (lower j) (lower (name k)) then values k else []) ≢ []
        → (last_forwarded lower name values allow j ≢ []
            → (f : Bytes) × In f allow
              × (lower j ≡ lower (name f))
              × (last_forwarded lower name values allow j ≡ values f))
        → (f : Bytes) × In f (k ∷ allow)
          × (lower j ≡ lower (name f))
          × (first_filled vs (if equals (lower j) (lower (name k)) then values k else [])
              ≡ values f)
    go [] e h later = elim (Bool-cases (equals (lower j) (lower (name k)))) [
      | inl y ↦ (k, inl refl, ground arith, rw y refl)
      | inr n ↦ absurd (h (rw n refl))
    ]
    go (v ∷ vs) e h later = let (f, i, same, w) = later (λ z. cc) in (f, inr i, same, sym e ∙ w)

if_holds : (b : Bool) (vs : List Bytes) → b ≡ true → (if b then vs else []) ≡ vs
if_holds b vs e = rw e refl

module _ (text : TextLibrary) (lib : MdLibrary) where
  open lib use {Md, get, set, lower, get_empty, get_set_same, get_set_other, set_nothing}

  -- A key with values in the forwarded request metadata is the timeout's, with the client's values, or
  -- the forwarded name of an allowed field, with that field's values.
  pub filter_request_md_allowed :
      (opts : FilterOpts) (md : Md) (j : Bytes)
      → get (filter_request_md text lib opts md) j ≢ []
      → ((lower j ≡ lower timeout_key)
          × (get (filter_request_md text lib opts md) j ≡ get md timeout_key))
        ⊎ ((k : Bytes) × In k opts.allow_request
            × (lower j ≡ lower (request_name text opts.prefix_request k))
            × (get (filter_request_md text lib opts md) j
                ≡ forwarded_values text lib md opts.prefix_request k))
  filter_request_md_allowed opts md j h =
      go (if equals (lower j) (lower timeout_key) then get md timeout_key else []) refl
    where
      go :
          (vs : List Bytes)
          → (if equals (lower j) (lower timeout_key) then get md timeout_key else []) ≡ vs
          → ((lower j ≡ lower timeout_key)
              × (get (filter_request_md text lib opts md) j ≡ get md timeout_key))
            ⊎ ((k : Bytes) × In k opts.allow_request
                × (lower j ≡ lower (request_name text opts.prefix_request k))
                × (get (filter_request_md text lib opts md) j
                    ≡ forwarded_values text lib md opts.prefix_request k))
      go [] e =
          let found =
            get-filter_request_md_last text lib opts md j
            ∙ ap
                (λ (us : List Bytes). first_filled us (
                  last_forwarded lower (request_name text opts.prefix_request)
                    (forwarded_values text lib md opts.prefix_request) opts.allow_request j))
                e in
          let (k, i, same, w) =
            last_forwarded-ne-nil lower (request_name text opts.prefix_request)
              (forwarded_values text lib md opts.prefix_request) opts.allow_request j
              (λ z. h (found ∙ z)) in
          inr (k, i, same, found ∙ w)
      go (v ∷ vs) e = elim (Bool-cases (equals (lower j) (lower timeout_key))) [
        | inl y ↦ inl (
          ground arith,
          get-filter_request_md_last text lib opts md j
              ∙ ap
                  (λ (us : List Bytes). first_filled us (
                    last_forwarded lower (request_name text opts.prefix_request)
                      (forwarded_values text lib md opts.prefix_request) opts.allow_request j))
                  e
              ∙ sym e
              ∙ if_holds _ (get md timeout_key) y,
        )
        | inr n ↦ absurd (ground arith)
      ]
