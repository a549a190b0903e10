-- ===== src/Routing/Patterns/Builder.antt =====
-- `buildPatternRoutes` and `patternRouteBuilder`: the routes of a description, by HTTP method. The
-- map is an association list, whose order stands for the order in which Go iterates over the map.
pub mod Candidates
use grpcbridge.Base.{
  List, [], ◌∷◌, ◌++◌, Option, none, some, Bytes, ite, bytes_discrete, ◌≡◌, refl, arith,
  append_assoc, append-nil, sym, ap, ◌∙◌, inl, inr, ◌≢◌, Option-cases,
}
use grpcbridge.Base.Maps.{or_nil}
use grpcbridge.Desc.{Target, Service, Method, Binding, default_binding}
use grpcbridge.Routing.Patterns.{PatternLibrary, PatternRoute}

-- A map from HTTP methods, as the list of its entries.
abbrev pub MethodMap : Type 0 → Type 0
MethodMap V = List (Bytes × V)

module _ {V : Type 0} where
  unfoldable pub find : Bytes → MethodMap V → Option V
  find k [] = none
  find k ((j, v) ∷ m) = ite (bytes_discrete k j) (some v) (find k m)

  unfoldable pub erase : Bytes → MethodMap V → MethodMap V
  erase k [] = []
  erase k ((j, v) ∷ m) = ite (bytes_discrete k j) (erase k m) ((j, v) ∷ erase k m)

  -- Each key has one entry.
  abbrev pub HasUniqueKeys : MethodMap V → Type 0
  HasUniqueKeys [] = Unit
  HasUniqueKeys ((j, v) ∷ m) = (find j m ≡ none) × HasUniqueKeys m

  pub find-erase :
      (k j : Bytes) (m : MethodMap V)
      → find j (erase k m) ≡ ite (bytes_discrete j k) none (find j m)
  unfolding find erase
  find-erase k j [] = ground arith
  find-erase k j ((i, v) ∷ m) = ground (arith, find-erase k j m)

  pub erase-HasUniqueKeys :
      (k : Bytes) (m : MethodMap V) → HasUniqueKeys m → HasUniqueKeys (erase k m)
  unfolding erase
  erase-HasUniqueKeys k [] h = tt
  erase-HasUniqueKeys k ((j, v) ∷ m) h =
      ground (arith, erase-HasUniqueKeys k m h.1, find-erase k j m)

-- `rb.routes[k] = append(rb.routes[k], v)`
unfoldable pub append_to : {V : Type 0} → Bytes → V → MethodMap (List V) → MethodMap (List V)
append_to k v [] = (k, v ∷ []) ∷ []
append_to k v ((j, vs) ∷ m) =
    ite (bytes_discrete k j) ((j, vs ++ v ∷ []) ∷ m) ((j, vs) ∷ append_to k v m)

module _ {V : Type 0} where
  pub find-append_to :
      (k j : Bytes) (v : V) (m : MethodMap (List V))
      → find j (append_to k v m)
        ≡ ite (bytes_discrete j k) (some (or_nil (find k m) ++ v ∷ [])) (find j m)
  unfolding find append_to
  find-append_to k j v [] = ground arith
  find-append_to k j v ((i, vs) ∷ m) = ground (arith, find-append_to k j v m)

  pub append_to-HasUniqueKeys :
      (k : Bytes) (v : V) (m : MethodMap (List V))
      → HasUniqueKeys m
      → HasUniqueKeys (append_to k v m)
  unfolding find append_to
  append_to-HasUniqueKeys k v [] h = (refl, tt)
  append_to-HasUniqueKeys k v ((i, vs) ∷ m) h =
      ground (arith, append_to-HasUniqueKeys k v m h.1, find-append_to k i v m)

module _ (lib : PatternLibrary) where
  open lib use {Pattern}

  abbrev pub Builder : Type 0
  Builder = MethodMap (List (PatternRoute Pattern))

  -- `none` is an error of parsing or of creating the matcher.
  unfoldable pub build_pattern : Bytes → Option Pattern
  build_pattern route = elim (lib.parse route) [
    | none ↦ none
    | some compiler ↦ lib.new_pattern (lib.compile compiler)
  ]

  -- An error is logged by the caller, and the builder stays as it was.
  unfoldable pub add_binding : Service → Method → Binding → Builder → Builder
  add_binding s m b rb = elim (build_pattern b.pattern_text) [
    | none ↦ rb
    | some pr ↦
        append_to b.http_method (record { service = s; method = m; binding = b; pattern_of = pr })
          rb
  ]

  unfoldable pub add_default : Service → Method → Builder → Builder
  add_default s m rb = add_binding s m (default_binding m) rb

  pub add_bindings : Service → Method → List Binding → Builder → Builder
  add_bindings s m [] rb = rb
  add_bindings s m (b ∷ bs) rb = add_bindings s m bs (add_binding s m b rb)

  -- One round of the loop over methods; the last but one argument is `method.Bindings`.
  pub add_method_bindings : Service → Method → List Binding → Builder → Builder
  add_method_bindings s m [] rb = add_default s m rb
  add_method_bindings s m (b ∷ bs) rb = add_bindings s m (b ∷ bs) rb

  pub add_methods : Service → List Method → Builder → Builder
  add_methods s [] rb = rb
  add_methods s (m ∷ ms) rb = add_methods s ms (add_method_bindings s m m.bindings rb)

  pub add_services : List Service → Builder → Builder
  add_services [] rb = rb
  add_services (s ∷ ss) rb = add_services ss (add_methods s s.methods rb)

  unfoldable pub build_pattern_routes : Target → Builder
  build_pattern_routes desc = add_services desc.services []
