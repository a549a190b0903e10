-- ===== src/Reflection/Files/Kept.antt =====
-- reflection/resolver.go: the service names that are kept, and files that are not deduplicated.
use grpcbridge.Base.{
  ◌≡◌, ◌↔◌, refl, sym, ap, List, [], ◌∷◌, Option, some, Bool, true, false, Bytes, arith, inl, inr,
  In, Bool-cases, bytes_discrete,
}
use grpcbridge.Reflection.Client.{done}
use grpcbridge.Reflection.Files.{
  File, Bundle, Names, no_names, with_name, is_ignored, filter_names, decode_files, decode_received,
  file_descriptors,
}

-- No name stands in the list twice, and none of them was there before.
abbrev pub AreDistinct : Names → List Bytes → Type 0
AreDistinct seen [] = Unit
AreDistinct seen (k ∷ ks) = (seen k ≡ false) × AreDistinct (with_name k seen) ks

distinct_later :
    (k : Bytes) (seen : Names) (ks : List Bytes)
    → AreDistinct (with_name k seen) ks
    → AreDistinct seen ks
distinct_later k seen ks h = fewer ks (with_name k seen) seen (λ j e. ground arith) h
  where
    fewer :
        (ks : List Bytes) (s t : Names)
        → ((j : Bytes) → s j ≡ false → t j ≡ false)
        → AreDistinct s ks
        → AreDistinct t ks
    fewer [] s t f h = tt
    fewer (j ∷ ks) s t f h =
        (f j h.0, fewer ks (with_name j s) (with_name j t) (λ i e. ground (arith, f i)) h.1)

module _ (is_valid : Bytes → Bool) (prefixes : List Bytes) where
  -- A valid name that no prefix ignores.
  abbrev pub IsWanted : Bytes → Type 0
  IsWanted k = (is_valid k ≡ true) × (is_ignored prefixes k ≡ false)

  filter_names_distinct :
      (services : List Bytes) (seen : Names)
      → AreDistinct seen (filter_names is_valid prefixes seen services)
  unfolding filter_names
  filter_names_distinct [] seen = tt
  filter_names_distinct (s ∷ services) seen =
      let distinct = filter_names_distinct services (with_name s seen) in
      elim (Bool-cases (is_valid s)) [
        | inr n ↦ rw n (filter_names_distinct services seen)
        | inl v ↦ elim (Bool-cases (seen s)) [
          | inl y ↦ rw v (rw y (filter_names_distinct services seen))
          | inr n ↦ elim (Bool-cases (is_ignored prefixes s)) [
            | inl i ↦ rw v (rw n (rw i (distinct_later s seen _ distinct)))
            | inr i ↦ rw v (rw n (rw i (n, distinct)))
          ]
        ]
      ]

  filter_names_sound :
      (k : Bytes) (services : List Bytes) (seen : Names)
      → In k (filter_names is_valid prefixes seen services)
      → IsWanted k × In k services
  unfolding filter_names
  filter_names_sound k [] seen h = absurd h
  filter_names_sound k (s ∷ services) seen h =
      let later = filter_names_sound k services (with_name s seen) in
      let same = filter_names_sound k services seen in ground (arith, later, same)

  filter_names_complete :
      (k : Bytes) (services : List Bytes) (seen : Names)
      → IsWanted k
      → seen k ≡ false
      → In k services
      → In k (filter_names is_valid prefixes seen services)
  unfolding filter_names
  filter_names_complete k [] seen w u h = absurd h
  filter_names_complete k (s ∷ services) seen w u (inl e) =
      rw (sym e) (rw w.0 (rw u (rw w.1 (inl refl))))
  filter_names_complete k (s ∷ services) seen w u (inr h) = elim (bytes_discrete k s) [
    | yes e ↦ rw (sym e) (rw w.0 (rw u (rw w.1 (inl refl))))
    | no d ↦
        let later = filter_names_complete k services (with_name s seen) w (ground arith) h in
        let same = filter_names_complete k services seen w u h in
        elim (Bool-cases (is_valid s)) [
          | inr n ↦ rw n same
          | inl v ↦ elim (Bool-cases (seen s)) [
            | inl y ↦ rw v (rw y same)
            | inr n ↦ elim (Bool-cases (is_ignored prefixes s)) [
              | inl i ↦ rw v (rw n (rw i later))
              | inr i ↦ rw v (rw n (rw i (inr later)))
            ]
          ]
        ]
  ]

  -- The names that are kept are different from each other, and a name is kept exactly if the server
  -- lists it, it is valid and no prefix ignores it.
  pub filter_names_lem :
      (services : List Bytes) (k : Bytes)
      → AreDistinct no_names (filter_names is_valid prefixes no_names services)
        × (In k (filter_names is_valid prefixes no_names services) ↔ (IsWanted k × In k services))
  filter_names_lem services k = (
    filter_names_distinct services no_names,
    (
      filter_names_sound k services no_names,
      λ h. filter_names_complete k services no_names h.0 refl h.1,
    ),
  )

-- What decodes as these files.
abbrev pub Decodes : (Bytes → Option File) → List Bytes → List Bundle → Type 0
Decodes unmarshal [] [] = Unit
Decodes unmarshal [] (b ∷ bundles) = ⊥
Decodes unmarshal (data' ∷ more) [] = ⊥
Decodes unmarshal (data' ∷ more) (b ∷ bundles) =
    (unmarshal data' ≡ some b.0) × (b.1 ≡ data') × Decodes unmarshal more bundles

decode_files_all :
    (unmarshal : Bytes → Option File) (received : List Bytes) (bundles : List Bundle)
    → Decodes unmarshal received bundles
    → decode_files unmarshal no_names received ≡ done bundles
unfolding decode_files
decode_files_all unmarshal [] [] h = refl
decode_files_all unmarshal [] (b ∷ bundles) h = absurd h
decode_files_all unmarshal (data' ∷ more) [] h = absurd h
decode_files_all unmarshal (data' ∷ more) ((fd, proto) ∷ bundles) h =
    let (u, p, rest) = h in
    rw (u, decode_files)
      (rw (decode_files_all unmarshal more bundles rest, decode_files)
        (ap (λ (x : Bytes). done ((fd, x) ∷ bundles)) (sym p)))

-- Files that decode are all kept, also where two have one name.
pub file_descriptors_all :
    (unmarshal : Bytes → Option File) (received : List Bytes) (bundles : List Bundle)
    → Decodes unmarshal received bundles
    → file_descriptors unmarshal false (done received) ≡ done bundles
unfolding file_descriptors decode_received
file_descriptors_all unmarshal received bundles h = decode_files_all unmarshal received bundles h
