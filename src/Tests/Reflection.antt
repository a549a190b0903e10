-- ===== src/Tests/Reflection.antt =====
-- Runs of the reflection resolver, and its theorems there.
use grpcbridge.Base.{
  ℕ, ◌≡◌, ◌↔◌, refl, if◌then◌else◌, List, [], ◌∷◌, Option, none, some, Bool, true, false, Bytes,
  codes, equals, In, bytes_discrete, contains,
}
use grpcbridge.Rpc.{status, plain, unimplemented}
use grpcbridge.Desc.Parse.{ServiceDescriptor}
use grpcbridge.Web.Query.{has_prefix}
use grpcbridge.Reflection.Client.{Outcome, done, refused}
use grpcbridge.Reflection.Files.{
  File, Bundle, no_names, update_present, grow_missing, shrink_missing, new_bundles, filter_names,
  file_descriptors, received_files, retrieve, retrieve_dependencies,
}
use grpcbridge.Reflection.Files.Closed.{IsClosed, retrieve_dependencies-IsClosed}
use grpcbridge.Reflection.Files.Kept.{IsWanted, AreDistinct, filter_names_lem}
use grpcbridge.Reflection.Resolver.{
  ResolverOpts, Resolver, Server, leb_text, hash_bundles, hash_names, updated, resolve_with_method,
  is_unimplemented, parse_files, resolve,
}
use grpcbridge.Reflection.Resolver.Methods.{
  IsUnimplemented, KeepsMethods, IsDecided, resolve-KeepsMethods, resolve_first,
}

abbrev shop : Bundle
shop = (record { name = codes "shop"; dependency = codes "money" ∷ [] }, codes "1")

abbrev money : Bundle
money = (record { name = codes "money"; dependency = [] }, codes "2")

abbrev gives_money : ℕ → List Bytes → Outcome (List Bundle)
gives_money i missing = done (money ∷ [])

retrieved : retrieve_dependencies gives_money 3 (shop ∷ []) ≡ done (shop ∷ money ∷ [])
unfolding retrieve_dependencies retrieve received_files update_present grow_missing shrink_missing
    new_bundles bytes_discrete contains
retrieved = refl

retrieve_dependencies-IsClosed_example : IsClosed (shop ∷ money ∷ [])
retrieve_dependencies-IsClosed_example =
    retrieve_dependencies-IsClosed gives_money 3 (shop ∷ []) (shop ∷ money ∷ []) retrieved

abbrev is_named : Bytes → Bool
is_named [] = false
is_named (c ∷ k) = true

abbrev grpc_prefix : List Bytes
grpc_prefix = codes "grpc." ∷ []

abbrev listed : List Bytes
listed = codes "Shop" ∷ codes "grpc.Health" ∷ codes "Shop" ∷ [] ∷ []

filter_names_lem_example :
    AreDistinct no_names (filter_names is_named grpc_prefix no_names listed)
    × (In (codes "Shop") (filter_names is_named grpc_prefix no_names listed)
        ↔ (IsWanted is_named grpc_prefix (codes "Shop") × In (codes "Shop") listed))
filter_names_lem_example = filter_names_lem is_named grpc_prefix listed (codes "Shop")

kept : filter_names is_named grpc_prefix no_names listed ≡ codes "Shop" ∷ []
unfolding filter_names has_prefix bytes_discrete
kept = refl

abbrev as_hash : Bytes → Bytes
as_hash s = s

abbrev names_only : ResolverOpts
names_only = record { ignore_prefixes = grpc_prefix; only_services = true; recursion_limit = 100 }

abbrev no_file : Bytes → Option File
no_file s = none

abbrev no_service : List File → Option (Bytes → Option ServiceDescriptor)
no_service files = some (λ name. none)

-- A server that implements the second method alone.
abbrev lists : Bytes → Server
lists m = record {
  connected = if equals m (codes "v1") then some (status unimplemented) else none;
  list_services = done (codes "Shop" ∷ []);
  by_symbols = λ names. refused plain;
  by_filenames = λ i names. refused plain;
}

abbrev blank : Resolver
blank = record {
  last_proto_hash = [];
  last_services_hash = [];
  method_priority = codes "v1" ∷ codes "v1alpha" ∷ [];
}

resolve-KeepsMethods_example :
    KeepsMethods
      (codes "v1" ∷ codes "v1alpha" ∷ [])
      blank
      (resolve as_hash names_only is_named no_file no_service (codes "t") lists blank)
resolve-KeepsMethods_example =
    resolve-KeepsMethods as_hash names_only is_named no_file no_service (codes "t") lists blank

v1-IsUnimplemented :
    IsUnimplemented as_hash names_only is_named no_file no_service
      (codes "t")
      lists
      blank
      (codes "v1")
unfolding resolve_with_method bytes_discrete
v1-IsUnimplemented = refl

implemented_v1alpha :
    is_unimplemented
      (resolve_with_method as_hash names_only is_named no_file no_service
        (codes "t")
        (lists (codes "v1alpha"))
        blank).1
    ≡ false
unfolding resolve_with_method bytes_discrete filter_names has_prefix file_descriptors
    retrieve_dependencies retrieve received_files update_present grow_missing hash_names
    hash_bundles updated parse_files leb_text
implemented_v1alpha = refl

resolve_first_example :
    IsDecided 1 blank
      (resolve_with_method as_hash names_only is_named no_file no_service
        (codes "t")
        (lists (codes "v1alpha"))
        blank)
      (resolve as_hash names_only is_named no_file no_service (codes "t") lists blank)
resolve_first_example =
    resolve_first as_hash names_only is_named no_file no_service (codes "t") lists blank
      (codes "v1" ∷ []) [] (codes "v1alpha") refl (v1-IsUnimplemented, tt) implemented_v1alpha

abbrev seen_two : Resolver
seen_two = record blank {
  last_proto_hash = hash_bundles as_hash [];
  last_services_hash = hash_names as_hash (codes "a.B" ∷ codes "c.D" ∷ []);
}

in_order : leb_text (codes "a.B") (codes "c.D") ≡ true
unfolding leb_text
in_order = refl
