-- ===== src/Reflection/Resolver.antt =====
-- reflection/resolver.go, parse.go and util.go: a poll of the resolver. protobuf's registry of files and
-- sha256 are parameters.
pub mod Methods
pub mod Positions
pub mod Hashes
use grpcbridge.Base.{
  ℕ, ltb, ◌==◌, ◌&&◌, if◌then◌else◌, List, [], ◌∷◌, ◌++◌, map, Option, none, some, Bool, true,
  false, Bytes, equals,
}
use grpcbridge.Rpc.{Err, status, plain, unimplemented}
use grpcbridge.Desc.{Target}
use grpcbridge.Desc.Parse.{ServiceDescriptor, parse_target}
use grpcbridge.Reflection.Client.{Outcome, done, refused}
use grpcbridge.Reflection.Files.{
  File, Bundle, no_names, filter_names, file_descriptors, retrieve_dependencies,
}

pub record ResolverOpts : Type 0 where
  pub ignore_prefixes : List Bytes
  pub only_services : Bool
  pub recursion_limit : ℕ

-- `strings.Compare(a, b) <= 0`
unfoldable pub leb_text : Bytes → Bytes → Bool
leb_text [] t = true
leb_text (c ∷ s) [] = false
leb_text (c ∷ s) (d ∷ t) = if ltb c d then true else (c == d && leb_text s t)

-- Sorting, as insertion.
abbrev pub insert {ℓ} : {A : Type ℓ} → (A → A → Bool) → A → List A → List A
insert le a [] = a ∷ []
insert le a (b ∷ xs) = if le a b then a ∷ b ∷ xs else b ∷ insert le a xs

abbrev pub sort {ℓ} : {A : Type ℓ} → (A → A → Bool) → List A → List A
sort le [] = []
sort le (a ∷ xs) = insert le a (sort le xs)

abbrev pub concat : List Bytes → Bytes
concat [] = []
concat (s ∷ ss) = s ++ concat ss

-- The resolver's own state.
pub record Resolver : Type 0 where
  pub last_proto_hash : Bytes
  pub last_services_hash : Bytes
  pub method_priority : List Bytes

-- What the client's calls of one method give: no connection in the pool and errors of the connection are
-- errors here.
pub record Server : Type 0 where
  pub connected : Option Err
  pub list_services : Outcome (List Bytes)
  pub by_symbols : List Bytes → Outcome (List Bytes)
  pub by_filenames : ℕ → List Bytes → Outcome (List Bytes)

abbrev pub is_unimplemented : Outcome (Option Target) → Bool
is_unimplemented (done desc) = false
is_unimplemented (refused (status c)) = c == unimplemented
is_unimplemented (refused Err.eof) = false
is_unimplemented (refused plain) = false

-- The first method and this one change places; the methods tried before it stand in order.
unfoldable pub prioritized : List Bytes → Bytes → List Bytes → List Bytes
prioritized [] m rest = m ∷ rest
prioritized (f ∷ tried) m rest = m ∷ (tried ++ f ∷ rest)

unfoldable pub ended :
    List Bytes
    → Bytes
    → List Bytes
    → Resolver × Outcome (Option Target)
    → Resolver × Outcome (Option Target)
ended tried m rest (r, refused e) = (r, refused e)
ended tried m rest (r, done desc) =
    (record r { method_priority = prioritized tried m rest }, done desc)

module _ (sha256 : Bytes → Bytes) where
  unfoldable pub hash_bundles : List Bundle → Bytes
  hash_bundles bundles = sha256 (
      concat
        (map (λ (b : Bundle). b.1) (sort (λ (a b : Bundle). leb_text a.0.name b.0.name) bundles)))

  -- The names are sorted in place.
  unfoldable pub hash_names : List Bytes → Bytes
  hash_names names = sha256 (concat (sort leb_text names))

  module _ (opts : ResolverOpts) (is_valid : Bytes → Bool) (unmarshal : Bytes → Option File)
      (new_files : List File → Option (Bytes → Option ServiceDescriptor)) (target : Bytes) where
    unfoldable pub parse_files : List Bytes → List Bundle → Outcome Target
    parse_files names bundles = elim (new_files (map (λ (b : Bundle). b.0) bundles)) [
      | none ↦ refused plain
      | some files ↦ done (parse_target files target (sort leb_text names))
    ]

    -- The end of `resolveWithMethod`; no description where nothing has changed.
    unfoldable pub updated :
        Resolver → List Bytes → List Bundle → Resolver × Outcome (Option Target)
    unfolding parse_files
    updated r names bundles =
        if equals r.last_proto_hash (hash_bundles bundles)
          && equals r.last_services_hash (hash_names names)
        then (r, done none)
        else elim (parse_files names bundles) [
          | refused e ↦ (r, refused e)
          | done desc ↦ (
            record r {
              last_proto_hash = hash_bundles bundles;
              last_services_hash = hash_names names;
            },
            done (some desc),
          )
        ]

    unfoldable with_files :
        Server → Resolver → List Bytes → Outcome (List Bundle) → Resolver × Outcome (Option Target)
    unfolding updated
    with_files server r names (refused e) = (r, refused e)
    with_files server r names (done bundles) =
        elim (retrieve_dependencies
          (λ i missing.
            file_descriptors unmarshal opts.only_services (server.by_filenames i missing))
          opts.recursion_limit bundles) [
            | refused e ↦ (r, refused e)
            | done all ↦ updated r names all
          ]

    unfoldable with_names :
        Server → Resolver → Outcome (List Bytes) → Resolver × Outcome (Option Target)
    unfolding with_files updated
    with_names server r (refused e) = (r, refused e)
    with_names server r (done services) =
        let names = filter_names is_valid opts.ignore_prefixes no_names services in
        with_files server r names
          (file_descriptors unmarshal opts.only_services (server.by_symbols names))

    unfoldable pub resolve_with_method : Server → Resolver → Resolver × Outcome (Option Target)
    unfolding with_names with_files updated
    resolve_with_method server r = elim server.connected [
      | some e ↦ (r, refused e)
      | none ↦ with_names server r server.list_services
    ]

    -- The loop over the methods, for what the server gives for each.
    unfoldable pub resolve_from :
        (Bytes → Server) → List Bytes → List Bytes → Resolver → Resolver × Outcome (Option Target)
    resolve_from server tried [] r = (r, refused plain)
    resolve_from server tried (m ∷ rest) r =
        let result = resolve_with_method (server m) r in
        let next = resolve_from server (tried ++ m ∷ []) rest result.0 in
        if is_unimplemented result.1 then next else ended tried m rest result

    unfoldable pub resolve : (Bytes → Server) → Resolver → Resolver × Outcome (Option Target)
    resolve server r = resolve_from server [] r.method_priority r

-- What a poll tells the watcher.
pub data Told : Type 0 where
  update_desc : Target → Told
  report_error : Err → Told

unfoldable pub told : Outcome (Option Target) → List Told
told (refused e) = report_error e ∷ []
told (done none) = []
told (done (some desc)) = update_desc desc ∷ []
