-- ===== src/Reflection/Files.antt =====
-- reflection/resolver.go and util.go: the names and the files that a poll gets. The missing files are
-- iterated in the order in which they were found; a server that answers any list of names stands for
-- every other order.
pub mod Sets
pub mod Closed
pub mod Kept
use grpcbridge.Base.{
  ℕ, zero, suc, not, if◌then◌else◌, List, [], ◌∷◌, ◌++◌, Option, none, some, Bool, true, false,
  Bytes, equals, contains,
}
use grpcbridge.Rpc.{plain}
use grpcbridge.Web.Query.{has_prefix}
use grpcbridge.Reflection.Client.{Outcome, done, refused}

-- What the resolver reads of a file descriptor.
pub record File : Type 0 where
  pub name : Bytes
  pub dependency : List Bytes

-- A file with its bytes: the set of descriptors and the list of bundles, which have the same length.
abbrev pub Bundle : Type 0
Bundle = File × Bytes

abbrev pub is_ignored : List Bytes → Bytes → Bool
is_ignored [] name = false
is_ignored (p ∷ ps) name = if has_prefix name p then true else is_ignored ps name

-- A map with no_names values is a Boolean function.
abbrev pub Names : Type 0
Names = Bytes → Bool

abbrev pub no_names : Names
no_names k = false

abbrev pub with_name : Bytes → Names → Names
with_name k s j = if equals j k then true else s j

-- `listServiceNames`, for `IsValid` of protoreflect.FullName.
unfoldable pub filter_names : (Bytes → Bool) → List Bytes → Names → List Bytes → List Bytes
filter_names is_valid prefixes processed [] = []
filter_names is_valid prefixes processed (s ∷ services) =
    let rest = filter_names is_valid prefixes (with_name s processed) services in
    let skipped = filter_names is_valid prefixes processed services in
    if not (is_valid s)
    then skipped
    else if processed s
    then skipped
    else if is_ignored prefixes s
    then rest
    else s ∷ rest

abbrev and_bundle : Bundle → Outcome (List Bundle) → Outcome (List Bundle)
and_bundle b (refused e) = refused e
and_bundle b (done bundles) = done (b ∷ bundles)

-- The loop of `fileDescriptors`: nothing is ever put into the map of the processed names.
unfoldable pub decode_files : (Bytes → Option File) → Names → List Bytes → Outcome (List Bundle)
decode_files unmarshal processed [] = done []
decode_files unmarshal processed (data' ∷ more) =
    let rest = decode_files unmarshal processed more in
    elim (unmarshal data') [
      | none ↦ refused plain
      | some fd ↦ if processed fd.name then rest else and_bundle (fd, data') rest
    ]

unfoldable decode_received : (Bytes → Option File) → Outcome (List Bytes) → Outcome (List Bundle)
decode_received unmarshal (refused e) = refused e
decode_received unmarshal (done proto_bytes) = decode_files unmarshal no_names proto_bytes

unfoldable pub file_descriptors :
    (Bytes → Option File) → Bool → Outcome (List Bytes) → Outcome (List Bundle)
unfolding decode_received
file_descriptors unmarshal only_services received =
    if only_services then done [] else decode_received unmarshal received

unfoldable pub update_present : List Bundle → Names → Names
update_present [] present = present
update_present (b ∷ bundles) present = update_present bundles (with_name b.0.name present)

abbrev grow_one : Names → List Bytes → List Bytes → List Bytes
grow_one present [] missing = missing
grow_one present (dep ∷ deps) missing =
    grow_one present deps (
      if present dep
      then missing
      else if contains dep missing
      then missing
      else missing ++ dep ∷ [])

unfoldable pub grow_missing : List Bundle → Names → List Bytes → List Bytes
grow_missing [] present missing = missing
grow_missing (b ∷ bundles) present missing =
    grow_missing bundles present (grow_one present b.0.dependency missing)

abbrev without : Bytes → List Bytes → List Bytes
without k [] = []
without k (j ∷ js) = if equals j k then without k js else j ∷ without k js

unfoldable pub shrink_missing : List Bundle → List Bytes → List Bytes
shrink_missing [] missing = missing
shrink_missing (b ∷ bundles) missing = shrink_missing bundles (without b.0.name missing)

-- The files that were not present.
unfoldable pub new_bundles : Names → List Bundle → List Bundle
new_bundles present [] = []
new_bundles present (b ∷ bundles) =
    if present b.0.name then new_bundles present bundles else b ∷ new_bundles present bundles

-- The variables of the loop.
pub record Retrieval : Type 0 where
  pub files : List Bundle
  pub present : Names
  pub missing : List Bytes

-- A round fails where the request did not give all the missing files.
unfoldable unless_missing : List Bytes → Retrieval → Outcome Retrieval
unless_missing [] next = done next
unless_missing (_ ∷ _) next = refused plain

-- One round, with the files that the request gives.
unfoldable pub received_files : Retrieval → Outcome (List Bundle) → Outcome Retrieval
unfolding unless_missing
received_files s (refused e) = refused e
received_files s (done deps) =
    let present = update_present deps s.present in
    unless_missing (shrink_missing deps s.missing) (record {
      files = s.files ++ new_bundles s.present deps;
      present = present;
      missing = grow_missing deps present [];
    })

module _ (by_filenames : ℕ → List Bytes → Outcome (List Bundle)) where
  -- `limit` rounds are left, and i is the number of this one.
  unfoldable pub retrieve : ℕ → ℕ → Outcome Retrieval → Outcome (List Bundle)
  retrieve limit i (refused e) = refused e
  retrieve zero i (done s) = elim s.missing [ [] ↦ done s.files | _ ∷ _ ↦ refused plain ]
  retrieve (suc limit) i (done s) = elim s.missing [
    | [] ↦ done s.files
    | _ ∷ _ ↦ retrieve limit (suc i) (received_files s (by_filenames i s.missing))
  ]

  unfoldable pub retrieve_dependencies : ℕ → List Bundle → Outcome (List Bundle)
  retrieve_dependencies limit files =
      let present = update_present files no_names in
      retrieve limit 0 (
        done (record { files = files; present = present; missing = grow_missing files present [] }))
