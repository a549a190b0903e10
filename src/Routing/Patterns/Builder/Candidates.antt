-- ===== src/Routing/Patterns/Builder/Candidates.antt =====
-- The builder against its description: for each HTTP method the routes are those of the bindings
-- with that method whose pattern is valid, in the order of services, methods and bindings.
use grpcbridge.Base.{
  List, [], ◌∷◌, ◌++◌, Option, none, some, Bytes, ite, bytes_discrete, ◌≡◌, refl, arith,
  append_assoc, append-nil, sym, ◌∙◌, inl, inr, ◌≢◌, Option-cases, subst,
}
use mathlib.Core.List.{concat-ne-nil}
use grpcbridge.Base.Maps.{or_nil}
use grpcbridge.Desc.{Target, Service, Method, Binding, default_binding}
use grpcbridge.Routing.Patterns.{PatternLibrary, PatternRoute}
use grpcbridge.Routing.Patterns.Builder.{
  find, HasUniqueKeys, find-append_to, append_to-HasUniqueKeys, Builder, build_pattern, add_binding,
  add_default, add_bindings, add_method_bindings, add_methods, add_services, build_pattern_routes,
}

pub record Candidate : Type 0 where
  pub service : Service
  pub method : Method
  pub binding : Binding

abbrev pub of_bindings : Service → Method → List Binding → List Candidate
of_bindings s m [] = []
of_bindings s m (b ∷ bs) = record { service = s; method = m; binding = b } ∷ of_bindings s m bs

-- A method with no binding has the default one.
abbrev pub effective : Method → List Binding → List Binding
effective m [] = default_binding m ∷ []
effective m (b ∷ bs) = b ∷ bs

abbrev pub of_methods : Service → List Method → List Candidate
of_methods s [] = []
of_methods s (m ∷ ms) = of_bindings s m (effective m m.bindings) ++ of_methods s ms

abbrev pub of_services : List Service → List Candidate
of_services [] = []
of_services (s ∷ ss) = of_methods s s.methods ++ of_services ss

abbrev pub nonempty : {A : Type 0} → List A → Option (List A)
nonempty [] = none
nonempty (x ∷ xs) = some (x ∷ xs)

pub nonempty_of :
    {A : Type 0} (o : Option (List A)) (l : List A) → or_nil o ≡ l → o ≢ some [] → o ≡ nonempty l
nonempty_of none [] e h = refl
nonempty_of none (x ∷ l) e h = cc
nonempty_of (some []) l e h = absurd (h refl)
nonempty_of (some (x ∷ xs)) l e h = subst (λ l. some (x ∷ xs) ≡ nonempty l) e refl

module _ (lib : PatternLibrary) where
  open lib use {Pattern}

  abbrev route_of : Bytes → Candidate → Option Pattern → List (PatternRoute Pattern)
  route_of k c none = []
  route_of k c (some pr) =
      ite (bytes_discrete k c.binding.http_method)
        (record { service = c.service; method = c.method; binding = c.binding; pattern_of = pr }
          ∷ [])
        []

  pub routes_for : Bytes → List Candidate → List (PatternRoute Pattern)
  routes_for k [] = []
  routes_for k (c ∷ cs) = route_of k c (build_pattern lib c.binding.pattern_text) ++ routes_for k cs

  add_all : List Candidate → Builder lib → Builder lib
  add_all [] rb = rb
  add_all (c ∷ cs) rb = add_all cs (add_binding lib c.service c.method c.binding rb)

  add_all-append :
      (xs ys : List Candidate) (rb : Builder lib)
      → add_all (xs ++ ys) rb ≡ add_all ys (add_all xs rb)
  unfolding add_all
  add_all-append [] ys rb = refl
  add_all-append (x ∷ xs) ys rb = add_all-append xs ys _

  add_bindings-add_all :
      (s : Service) (m : Method) (bs : List Binding) (rb : Builder lib)
      → add_bindings lib s m bs rb ≡ add_all (of_bindings s m bs) rb
  unfolding add_bindings add_all
  add_bindings-add_all s m [] rb = refl
  add_bindings-add_all s m (b ∷ bs) rb = add_bindings-add_all s m bs _

  add_method_bindings-add_all :
      (s : Service) (m : Method) (bs : List Binding) (rb : Builder lib)
      → add_method_bindings lib s m bs rb ≡ add_all (of_bindings s m (effective m bs)) rb
  unfolding add_method_bindings add_all add_default
  add_method_bindings-add_all s m [] rb = refl
  add_method_bindings-add_all s m (b ∷ bs) rb = add_bindings-add_all s m (b ∷ bs) rb

  add_methods-add_all :
      (s : Service) (ms : List Method) (rb : Builder lib)
      → add_methods lib s ms rb ≡ add_all (of_methods s ms) rb
  unfolding add_methods add_all
  add_methods-add_all s [] rb = refl
  add_methods-add_all s (m ∷ ms) rb =
      rw (add_method_bindings-add_all s m m.bindings rb, add_all-append)
        (add_methods-add_all s ms _)

  add_services-add_all :
      (ss : List Service) (rb : Builder lib) → add_services lib ss rb ≡ add_all (of_services ss) rb
  unfolding add_services add_all
  add_services-add_all [] rb = refl
  add_services-add_all (s ∷ ss) rb =
      rw (add_methods-add_all s s.methods rb, add_all-append) (add_services-add_all ss _)

  find-add_binding :
      (k : Bytes) (c : Candidate) (rb : Builder lib)
      → or_nil (find k (add_binding lib c.service c.method c.binding rb))
        ≡ or_nil (find k rb) ++ route_of k c (build_pattern lib c.binding.pattern_text)
  unfolding add_binding
  find-add_binding k c rb = elim (Option-cases (build_pattern lib c.binding.pattern_text)) [
    | inl e ↦ rw (e, add_binding) (sym (append-nil _))
    | inr (pr, e) ↦
        rw (e, add_binding)
          (ground (
            arith,
            find-append_to c.binding.http_method k
                (let r : PatternRoute Pattern = record {
                  service = c.service;
                  method = c.method;
                  binding = c.binding;
                  pattern_of = pr;
                } in
                  r)
                rb,
            append-nil (or_nil (find k rb)),
          ))
  ]

  find-add_all :
      (k : Bytes) (cs : List Candidate) (rb : Builder lib)
      → or_nil (find k (add_all cs rb)) ≡ or_nil (find k rb) ++ routes_for k cs
  unfolding add_all routes_for
  find-add_all k [] rb = sym (append-nil _)
  find-add_all k (c ∷ cs) rb =
      find-add_all k cs _ ∙ rw (find-add_binding k c rb) (append_assoc (or_nil (find k rb)) _ _)

  -- What `append` keeps: one entry a method, and no entry with no routes.
  record IsBuilt (rb : Builder lib) : Type 0 where
    unique : HasUniqueKeys rb
    filled : (k : Bytes) → find k rb ≢ some []

  add_binding-IsBuilt :
      (s : Service) (m : Method) (b : Binding) (rb : Builder lib)
      → IsBuilt rb
      → IsBuilt (add_binding lib s m b rb)
  unfolding add_binding
  add_binding-IsBuilt s m b rb v = elim (Option-cases (build_pattern lib b.pattern_text)) [
    | inl e ↦ rw (e, add_binding) v
    | inr (pr, e) ↦
        let r : PatternRoute Pattern = record {
          service = s;
          method = m;
          binding = b;
          pattern_of = pr;
        } in
        rw (e, add_binding)
          (record {
            unique = append_to-HasUniqueKeys b.http_method r rb v.unique;
            filled = λ k h. ground (
              arith,
              v.filled k,
              find-append_to b.http_method k r rb,
              concat-ne-nil r (or_nil (find b.http_method rb)),
            );
          })
  ]

  add_all-IsBuilt : (cs : List Candidate) (rb : Builder lib) → IsBuilt rb → IsBuilt (add_all cs rb)
  unfolding add_all
  add_all-IsBuilt [] rb v = v
  add_all-IsBuilt (c ∷ cs) rb v = add_all-IsBuilt cs _ (add_binding-IsBuilt _ _ _ rb v)

  build_pattern_routes-IsBuilt : (desc : Target) → IsBuilt (build_pattern_routes lib desc)
  unfolding build_pattern_routes find
  build_pattern_routes-IsBuilt desc =
      rw (add_services-add_all desc.services []) (
        add_all-IsBuilt (of_services desc.services) [] (record { unique = tt; filled = λ k e. cc }))

  pub build_pattern_routes-HasUniqueKeys :
      (desc : Target) → HasUniqueKeys (build_pattern_routes lib desc)
  build_pattern_routes-HasUniqueKeys desc = (build_pattern_routes-IsBuilt desc).unique

  -- The map that buildPatternRoutes returns has for every HTTP method exactly the routes of the
  -- description's bindings with this method and a valid pattern, in order, where a method without
  -- bindings has the default one, and no entry for a method with none.
  pub find-build_pattern_routes :
      (desc : Target) (k : Bytes)
      → find k (build_pattern_routes lib desc) ≡ nonempty (routes_for k (of_services desc.services))
  unfolding build_pattern_routes find
  find-build_pattern_routes desc k =
      let same =
        rw (← add_services-add_all desc.services []) at
          (find-add_all k (of_services desc.services) []) in
      nonempty_of _ _ same ((build_pattern_routes-IsBuilt desc).filled k)
