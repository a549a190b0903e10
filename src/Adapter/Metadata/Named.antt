-- ===== src/Adapter/Metadata/Named.antt =====
-- grpcadapter/metadata.go: under which name, and with which values, a field is forwarded.
use grpcbridge.Base.{
  ℕ, zero, suc, ◌-◌, ◌*◌, ◌<◌, ltb, ◌≡◌, ◌≢◌, refl, sym, ap, ◌⊎◌, inl, inr, ◌&&◌, subst, List, [],
  ◌∷◌, ◌++◌, Option, none, some, true, false, Bytes, arith, length, length-append, take, drop,
  take-append, drop-append, Bool-cases, Option-cases,
}
use grpcbridge.Adapter.Metadata.{
  TextLibrary, gateway_prefix, bin_suffix, is_padded, decode_bin_header, decode_all,
  has_gateway_prefix, request_name, is_binary, request_values,
}

take-drop : (n : ℕ) (k : Bytes) → k ≡ take n k ++ drop n k
take-drop zero k = refl
take-drop (suc n) [] = refl
take-drop (suc n) (c ∷ k) = ap (◌∷◌ c) (take-drop n k)

length-take : (n : ℕ) (k : Bytes) → n < length k → length (take n k) ≡ n
length-take zero k h = refl
length-take (suc n) [] h = omega arith
length-take (suc n) (c ∷ k) h = ap suc (length-take n k (omega arith))

length-drop : (n : ℕ) (k : Bytes) → length (drop n k) ≡ length k - n
length-drop zero k = omega arith
length-drop (suc n) [] = omega arith
length-drop (suc n) (c ∷ k) = omega (arith, length-drop n k)

ne-nil_length : (k : Bytes) → 0 < length k → k ≢ []
ne-nil_length [] h = omega arith
ne-nil_length (c ∷ k) h = λ e. cc

length_ne-nil : (k : Bytes) → k ≢ [] → 0 < length k
length_ne-nil [] h = absurd (h refl)
length_ne-nil (c ∷ k) h = omega arith

is_padded-true : (v : Bytes) → is_padded v ≡ true → (n : ℕ) × (length v ≡ 4 * n)
is_padded-true [] h = (0, refl)
is_padded-true (_ ∷ []) h = absurd cc
is_padded-true (_ ∷ _ ∷ []) h = absurd cc
is_padded-true (_ ∷ _ ∷ _ ∷ []) h = absurd cc
is_padded-true (_ ∷ _ ∷ _ ∷ _ ∷ s) h = let (n, e) = is_padded-true s h in (suc n, omega arith)

is_padded-false : (v : Bytes) → is_padded v ≡ false → (n : ℕ) → length v ≢ 4 * n
is_padded-false [] h n = absurd cc
is_padded-false (_ ∷ []) h n = λ e. omega arith
is_padded-false (_ ∷ _ ∷ []) h n = λ e. omega arith
is_padded-false (_ ∷ _ ∷ _ ∷ []) h n = λ e. omega arith
is_padded-false (_ ∷ _ ∷ _ ∷ _ ∷ s) h zero = λ e. omega arith
is_padded-false (_ ∷ _ ∷ _ ∷ _ ∷ s) h (suc n) = λ e. is_padded-false s h n (omega arith)

module _ (text : TextLibrary) where
  open text use {equal_fold, decode_padded, decode_raw}

  -- The key is the name behind the gateway's prefix, whatever the case of its letters.
  abbrev pub IsPrefixed : Bytes → Bytes → Type 0
  IsPrefixed k name =
      (g : Bytes) × (k ≡ g ++ name)
      × (length g ≡ length gateway_prefix)
      × (equal_fold g gateway_prefix ≡ true)
      × (name ≢ [])

  -- The gateway's prefix is removed, or else the configured one is put before the key.
  abbrev pub IsForwardedAs : Bytes → Bytes → Bytes → Type 0
  IsForwardedAs prefix k name =
      IsPrefixed k name ⊎ (((n : Bytes) → ¬ IsPrefixed k n) × (name ≡ prefix ++ k))

  -- The name is a text and behind it the suffix of binary fields, whatever the case of its letters.
  abbrev pub IsBinary : Bytes → Type 0
  IsBinary name =
      (s : Bytes) × (suffix : Bytes) × (name ≡ s ++ suffix)
      × (length suffix ≡ length bin_suffix)
      × (equal_fold suffix bin_suffix ≡ true)
      × (s ≢ [])

  -- The decoding of a value: with padding if its length is a multiple of 4, and else without.
  abbrev pub Decodes : Bytes → Option Bytes → Type 0
  Decodes v o =
      ((n : ℕ) × (length v ≡ 4 * n) × (decode_padded v ≡ o))
      ⊎ (((n : ℕ) → length v ≢ 4 * n) × (decode_raw v ≡ o))

  -- The decodings, in order, of the values that have one.
  abbrev pub AreDecoded : List Bytes → List Bytes → Type 0
  AreDecoded [] ws = ws ≡ []
  AreDecoded (v ∷ vs) ws =
      (Decodes v none × AreDecoded vs ws)
      ⊎ ((d : Bytes) × (us : List Bytes) × Decodes v (some d) × AreDecoded vs us × (ws ≡ d ∷ us))

  -- The values of a binary name are decoded, and those of any other are as they came.
  abbrev pub IsCarriedAs : Bytes → List Bytes → List Bytes → Type 0
  IsCarriedAs name vs ws = (IsBinary name × AreDecoded vs ws) ⊎ ((¬ IsBinary name) × (ws ≡ vs))

  has_gateway_prefix-true :
      (k : Bytes) → has_gateway_prefix text k ≡ true → IsPrefixed k (drop (length gateway_prefix) k)
  unfolding has_gateway_prefix
  has_gateway_prefix-true k h =
      let l : length gateway_prefix < length k = ground arith in
      (
        take (length gateway_prefix) k,
        take-drop (length gateway_prefix) k,
        length-take (length gateway_prefix) k l,
        ground arith,
        ne-nil_length (drop (length gateway_prefix) k)
            (omega (arith, length-drop (length gateway_prefix) k)),
      )

  prefixed_test :
      (n : ℕ) (g name : Bytes)
      → length g ≡ n
      → equal_fold g gateway_prefix ≡ true
      → name ≢ []
      → (ltb n (length (g ++ name)) && equal_fold (take n (g ++ name)) gateway_prefix) ≡ true
  prefixed_test n g name l f h =
      let longer = length-append g name in
      let filled = length_ne-nil name h in
      subst
        (λ (i : ℕ).
          (ltb i (length (g ++ name)) && equal_fold (take i (g ++ name)) gateway_prefix) ≡ true)
        l (rw (take-append g name) (rw f (ground arith)))

  IsPrefixed-has_gateway_prefix :
      (k name : Bytes) → IsPrefixed k name → has_gateway_prefix text k ≡ true
  unfolding has_gateway_prefix
  IsPrefixed-has_gateway_prefix k name (g, e, l, f, h) =
      subst (λ (x : Bytes). has_gateway_prefix text x ≡ true) (sym e)
        (prefixed_test (length gateway_prefix) g name l f h)

  pub request_name-IsForwardedAs :
      (prefix k : Bytes) → IsForwardedAs prefix k (request_name text prefix k)
  unfolding request_name
  request_name-IsForwardedAs prefix k = elim (Bool-cases (has_gateway_prefix text k)) [
    | inl y ↦ inl (rw y (has_gateway_prefix-true k y))
    | inr n ↦ inr (λ name is. cc (IsPrefixed-has_gateway_prefix k name is, n), rw n refl)
  ]

  is_binary-true : (k : Bytes) → is_binary text k ≡ true → IsBinary k
  unfolding is_binary
  is_binary-true k h =
      let l : length bin_suffix < length k = ground arith in
      let i = length k - length bin_suffix in
      (
        take i k,
        drop i k,
        take-drop i k,
        omega (arith, length-drop i k),
        ground arith,
        ne-nil_length (take i k) (omega (arith, length-take i k (omega arith))),
      )

  binary_test :
      (n : ℕ) (s suffix : Bytes)
      → length suffix ≡ n
      → equal_fold suffix bin_suffix ≡ true
      → s ≢ []
      → (ltb n (length (s ++ suffix))
          && equal_fold (drop (length (s ++ suffix) - n) (s ++ suffix)) bin_suffix)
        ≡ true
  binary_test n s suffix l f h =
      let longer = length-append s suffix in
      let filled = length_ne-nil s h in
      let stem : length (s ++ suffix) - n ≡ length s = omega arith in
      rw stem (rw (drop-append s suffix) (rw f (ground arith)))

  IsBinary-is_binary : (k : Bytes) → IsBinary k → is_binary text k ≡ true
  unfolding is_binary
  IsBinary-is_binary k (s, suffix, e, l, f, h) =
      subst (λ (x : Bytes). is_binary text x ≡ true) (sym e)
        (binary_test (length bin_suffix) s suffix l f h)

  decode_bin_header-Decodes :
      (v : Bytes) (o : Option Bytes) → decode_bin_header text v ≡ o → Decodes v o
  unfolding decode_bin_header
  decode_bin_header-Decodes v o h = elim (Bool-cases (is_padded v)) [
    | inl y ↦ let (n, e) = is_padded-true v y in inl (n, e, rw y at h)
    | inr n ↦ inr (is_padded-false v n, rw n at h)
  ]

  decode_all-AreDecoded : (vs : List Bytes) → AreDecoded vs (decode_all text vs)
  unfolding decode_all
  decode_all-AreDecoded [] = refl
  decode_all-AreDecoded (v ∷ vs) = elim (Option-cases (decode_bin_header text v)) [
    | inl e ↦
        inl (decode_bin_header-Decodes v none e, rw (e, decode_all) (decode_all-AreDecoded vs))
    | inr (d, e) ↦ inr (
      d,
      decode_all text vs,
      decode_bin_header-Decodes v (some d) e,
      decode_all-AreDecoded vs,
      rw (e, decode_all) refl,
    )
  ]

  pub request_values-IsCarriedAs :
      (name : Bytes) (vs : List Bytes) → IsCarriedAs name vs (request_values text name vs)
  unfolding request_values
  request_values-IsCarriedAs name vs = elim (Bool-cases (is_binary text name)) [
    | inl y ↦ inl (is_binary-true name y, rw y (decode_all-AreDecoded vs))
    | inr n ↦ inr (λ is. cc (IsBinary-is_binary name is, n), rw n refl)
  ]
