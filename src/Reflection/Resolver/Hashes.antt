-- ===== src/Reflection/Resolver/Hashes.antt =====
-- reflection/resolver.go and util.go: when a poll gives no new description.
use grpcbridge.Base.{
  ◌&&◌, ◌≡◌, refl, sym, ap, ◌∙◌, List, [], ◌∷◌, ◌++◌, append-nil, map, Option, none, some, Bool,
  true, false, Bytes, equals, arith,
}
use grpcbridge.Desc.{Target}
use grpcbridge.Desc.Parse.{ServiceDescriptor, parse_target}
use grpcbridge.Reflection.Client.{Outcome, done}
use grpcbridge.Reflection.Files.{File, Bundle}
use grpcbridge.Reflection.Resolver.{
  ResolverOpts, Resolver, leb_text, sort, hash_bundles, hash_names, parse_files, updated,
}

equals_self : (s : Bytes) → equals s s ≡ true
equals_self s = ground arith

module _ (sha256 : Bytes → Bytes) (opts : ResolverOpts) (is_valid : Bytes → Bool)
    (unmarshal : Bytes → Option File)
    (new_files : List File → Option (Bytes → Option ServiceDescriptor)) (target : Bytes) where
  -- Files that protobuf accepts and that are new by their hashes give the description of the sorted names,
  -- and the same files and names once more give none.
  pub updated_lem :
      (r : Resolver) (names : List Bytes) (bundles : List Bundle)
      (files : Bytes → Option ServiceDescriptor)
      → (equals r.last_proto_hash (hash_bundles sha256 bundles)
          && equals r.last_services_hash (hash_names sha256 names))
        ≡ false
      → new_files (map (λ (b : Bundle). b.0) bundles) ≡ some files
      → let u = updated sha256 opts is_valid unmarshal new_files target in
        ((u r names bundles).1 ≡ done (some (parse_target files target (sort leb_text names))))
        × (u (u r names bundles).0 names bundles ≡ ((u r names bundles).0, done none))
  unfolding updated parse_files
  updated_lem r names bundles files h f =
      let first : updated sha256 opts is_valid unmarshal new_files target r names bundles ≡ (
        record r {
          last_proto_hash = hash_bundles sha256 bundles;
          last_services_hash = hash_names sha256 names;
        },
        done (some (parse_target files target (sort leb_text names))),
      ) =
        rw (h, updated) (rw (f, parse_files) refl) in
      (
        ap (λ (x : Resolver × Outcome (Option Target)). x.1) first,
        again (updated sha256 opts is_valid unmarshal new_files target r names bundles).0
            (ap (λ (x : Resolver × Outcome (Option Target)). x.0.last_proto_hash) first)
            (ap (λ (x : Resolver × Outcome (Option Target)). x.0.last_services_hash) first),
      )
    where
      again :
          (s : Resolver)
          → s.last_proto_hash ≡ hash_bundles sha256 bundles
          → s.last_services_hash ≡ hash_names sha256 names
          → updated sha256 opts is_valid unmarshal new_files target s names bundles ≡ (s, done none)
      again s p q =
          rw (p, updated)
            (rw (q, updated)
              (rw (equals_self (hash_bundles sha256 bundles), updated)
                (rw (equals_self (hash_names sha256 names), updated) refl)))

  -- Where the files are the same by their hash and the last poll had two services, in order, a poll
  -- with the one service whose name is the two names joined gives no update.
  pub updated_joined_names :
      (r : Resolver) (a b : Bytes) (bundles : List Bundle)
      → leb_text a b ≡ true
      → r.last_proto_hash ≡ hash_bundles sha256 bundles
      → r.last_services_hash ≡ hash_names sha256 (a ∷ b ∷ [])
      → updated sha256 opts is_valid unmarshal new_files target r ((a ++ b) ∷ []) bundles
        ≡ (r, done none)
  unfolding updated hash_names
  updated_joined_names r a b bundles h p q =
      let joined : hash_names sha256 (a ∷ b ∷ []) ≡ hash_names sha256 ((a ++ b) ∷ []) =
        rw h (ap sha256 (ap (λ (x : Bytes). a ++ x) (append-nil b) ∙ sym (append-nil (a ++ b)))) in
      let proto : equals r.last_proto_hash (hash_bundles sha256 bundles) ≡ true =
        ap (λ (x : Bytes). equals x (hash_bundles sha256 bundles)) p
        ∙ equals_self (hash_bundles sha256 bundles) in
      let services : equals r.last_services_hash (hash_names sha256 ((a ++ b) ∷ [])) ≡ true =
        ap (λ (x : Bytes). equals x (hash_names sha256 ((a ++ b) ∷ []))) (q ∙ joined)
        ∙ equals_self (hash_names sha256 ((a ++ b) ∷ [])) in
      rw (proto, updated) (rw (services, updated) refl)
