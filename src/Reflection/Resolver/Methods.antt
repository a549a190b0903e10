-- ===== src/Reflection/Resolver/Methods.antt =====
-- reflection/resolver.go: the choice of the reflection method, and polls that fail.
use grpcbridge.Base.{
  ℕ, length, ◌&&◌, ◌≡◌, ◌↔◌, refl, sym, ap, ◌∙◌, subst, if◌then◌else◌, List, [], ◌∷◌, ◌++◌,
  append-nil, append_assoc, Option, none, some, Bool, true, false, Bytes, equals, inl, inr, In, All,
  Bool-cases, In-append_left, In-append_right, In-append,
}
use grpcbridge.Rpc.{Err}
use grpcbridge.Desc.{Target}
use grpcbridge.Desc.Parse.{ServiceDescriptor}
use grpcbridge.Reflection.Client.{Outcome, done, refused}
use grpcbridge.Reflection.Files.{
  File, Bundle, no_names, filter_names, file_descriptors, retrieve_dependencies,
}
use grpcbridge.Reflection.Resolver.{
  ResolverOpts, Resolver, Server, hash_bundles, hash_names, parse_files, updated, with_files,
  with_names, resolve_with_method, is_unimplemented, prioritized, ended, resolve_from, resolve,
}
use grpcbridge.Reflection.Resolver.Positions.{get_elem?, exchange, get_elem?-prioritized}

-- A failure leaves the state alone.
abbrev FailsClean : Resolver → Resolver × Outcome (Option Target) → Type 0
FailsClean r (s, refused e) = s ≡ r
FailsClean r (s, done desc) = s.method_priority ≡ r.method_priority

-- What a poll leaves: nothing new behind a failure, and the same methods behind a success.
abbrev pub KeepsMethods : List Bytes → Resolver → Resolver × Outcome (Option Target) → Type 0
KeepsMethods ms r (s, refused e) = s ≡ r
KeepsMethods ms r (s, done desc) = (k : Bytes) → In k s.method_priority ↔ In k ms

-- What a poll gives that the method at a position decides: the attempt's failure and the state as it
-- was, or the attempt's description and hashes, and the method at the position exchanged with the first.
abbrev pub IsDecided :
    ℕ → Resolver → Resolver × Outcome (Option Target) → Resolver × Outcome (Option Target) → Type 0
IsDecided n r (s, refused e) x = x ≡ (r, refused e)
IsDecided n r (s, done desc) x =
    (x.1 ≡ done desc)
    × (x.0.last_proto_hash ≡ s.last_proto_hash)
    × (x.0.last_services_hash ≡ s.last_services_hash)
    × ((i : ℕ) → get_elem? x.0.method_priority i ≡ get_elem? r.method_priority (exchange n i))

module _ (sha256 : Bytes → Bytes) (opts : ResolverOpts) (is_valid : Bytes → Bool)
    (unmarshal : Bytes → Option File)
    (new_files : List File → Option (Bytes → Option ServiceDescriptor)) (target : Bytes) where
  abbrev attempt : Server → Resolver → Resolver × Outcome (Option Target)
  attempt = resolve_with_method sha256 opts is_valid unmarshal new_files target

  abbrev poll : (Bytes → Server) → Resolver → Resolver × Outcome (Option Target)
  poll = resolve sha256 opts is_valid unmarshal new_files target

  abbrev poll_from :
      (Bytes → Server) → List Bytes → List Bytes → Resolver → Resolver × Outcome (Option Target)
  poll_from = resolve_from sha256 opts is_valid unmarshal new_files target

  updated-FailsClean :
      (r : Resolver) (names : List Bytes) (bundles : List Bundle)
      → FailsClean r (updated sha256 opts is_valid unmarshal new_files target r names bundles)
  unfolding updated
  updated-FailsClean r names bundles =
      elim (Bool-cases (
        equals r.last_proto_hash (hash_bundles sha256 bundles)
        && equals r.last_services_hash (hash_names sha256 names))) [
          | inl y ↦ rw y refl
          | inr n ↦
              rw n (
                at_parse
                  (parse_files sha256 opts is_valid unmarshal new_files target names bundles))
        ]
    where
      at_parse :
          (o : Outcome Target)
          → FailsClean r (elim o [
            | refused e ↦ (r, refused e)
            | done desc ↦ (
              record r {
                last_proto_hash = hash_bundles sha256 bundles;
                last_services_hash = hash_names sha256 names;
              },
              done (some desc),
            )
          ])
      at_parse (refused e) = refl
      at_parse (done desc) = refl

  with_files-FailsClean :
      (server : Server) (r : Resolver) (names : List Bytes) (o : Outcome (List Bundle))
      → FailsClean r (with_files sha256 opts is_valid unmarshal new_files target server r names o)
  unfolding with_files
  with_files-FailsClean server r names (refused e) = refl
  with_files-FailsClean server r names (done bundles) = at_all (
      retrieve_dependencies
        (λ i missing. file_descriptors unmarshal opts.only_services (server.by_filenames i missing))
        opts.recursion_limit bundles)
    where
      at_all :
          (o : Outcome (List Bundle))
          → FailsClean r (elim o [
            | refused e ↦ (r, refused e)
            | done all ↦ updated sha256 opts is_valid unmarshal new_files target r names all
          ])
      at_all (refused e) = refl
      at_all (done all) = updated-FailsClean r names all

  attempt-FailsClean : (server : Server) (r : Resolver) → FailsClean r (attempt server r)
  unfolding resolve_with_method with_names
  attempt-FailsClean server r = at_connected server.connected server.list_services
    where
      at_connected :
          (c : Option Err) (o : Outcome (List Bytes))
          → FailsClean r (elim c [
            | some e ↦ (r, refused e)
            | none ↦ with_names sha256 opts is_valid unmarshal new_files target server r o
          ])
      at_connected (some e) o = refl
      at_connected none (refused e) = refl
      at_connected none (done services) =
          with_files-FailsClean server r
            (filter_names is_valid opts.ignore_prefixes no_names services) _

  -- The method is not implemented.
  abbrev pub IsUnimplemented : (Bytes → Server) → Resolver → Bytes → Type 0
  IsUnimplemented server r m = is_unimplemented (attempt (server m) r).1 ≡ true

  refused_unimplemented :
      (r : Resolver) (x : Resolver × Outcome (Option Target))
      → FailsClean r x
      → is_unimplemented x.1 ≡ true
      → x.0 ≡ r
  refused_unimplemented r (s, refused e) f h = f
  refused_unimplemented r (s, done desc) f h = absurd cc

  poll_from_skips :
      (server : Bytes → Server) (r : Resolver) (before tried rest : List Bytes)
      → All (IsUnimplemented server r) tried
      → poll_from server before (tried ++ rest) r ≡ poll_from server (before ++ tried) rest r
  unfolding resolve_from
  poll_from_skips server r before [] rest h =
      ap (λ (l : List Bytes). poll_from server l rest r) (sym (append-nil before))
  poll_from_skips server r before (t ∷ tried) rest h =
      ap
        (λ (b : Bool).
          if b
          then poll_from server (before ++ t ∷ []) (tried ++ rest) (attempt (server t) r).0
          else ended before t (tried ++ rest) (attempt (server t) r))
        h.0
      ∙ ap (poll_from server (before ++ t ∷ []) (tried ++ rest))
          (refused_unimplemented r (attempt (server t) r) (attempt-FailsClean (server t) r) h.0)
      ∙ poll_from_skips server r (before ++ t ∷ []) tried rest h.1
      ∙ ap (λ (l : List Bytes). poll_from server l rest r) (append_assoc before (t ∷ []) tried)

  resolve_first_attempt :
      (server : Bytes → Server) (r : Resolver) (tried rest : List Bytes) (m : Bytes)
      → r.method_priority ≡ tried ++ m ∷ rest
      → All (IsUnimplemented server r) tried
      → is_unimplemented (attempt (server m) r).1 ≡ false
      → poll server r ≡ ended tried m rest (attempt (server m) r)
  unfolding resolve resolve_from
  resolve_first_attempt server r tried rest m e h n =
      ap (λ (ms : List Bytes). poll_from server [] ms r) e
      ∙ poll_from_skips server r [] tried (m ∷ rest) h
      ∙ ap
          (λ (b : Bool).
            if b
            then poll_from server (tried ++ m ∷ []) rest (attempt (server m) r).0
            else ended tried m rest (attempt (server m) r))
          n

  ended-IsDecided :
      (r : Resolver) (tried rest : List Bytes) (m : Bytes) (x : Resolver × Outcome (Option Target))
      → r.method_priority ≡ tried ++ m ∷ rest
      → FailsClean r x
      → IsDecided (length tried) r x (ended tried m rest x)
  unfolding ended
  ended-IsDecided r tried rest m (s, refused e) h f = ap (λ (q : Resolver). (q, refused e)) f
  ended-IsDecided r tried rest m (s, done desc) h f = (
    refl,
    refl,
    refl,
    λ i.
        get_elem?-prioritized tried m rest i
        ∙ sym (ap (λ (ms : List Bytes). get_elem? ms (exchange (length tried) i)) h),
  )

  -- The first method in the order of priority that does not answer Unimplemented decides the poll.
  -- If its attempt fails, so does the poll, with that error and the state as it was; if it succeeds,
  -- the poll gives its description and leaves its hashes, and in the order of priority this method
  -- and the first one have changed places, and every other one stands where it stood.
  pub resolve_first :
      (server : Bytes → Server) (r : Resolver) (tried rest : List Bytes) (m : Bytes)
      → r.method_priority ≡ tried ++ m ∷ rest
      → All (IsUnimplemented server r) tried
      → is_unimplemented (attempt (server m) r).1 ≡ false
      → IsDecided (length tried) r (attempt (server m) r) (poll server r)
  resolve_first server r tried rest m e h n =
      subst (IsDecided (length tried) r (attempt (server m) r))
        (sym (resolve_first_attempt server r tried rest m e h n))
        (ended-IsDecided r tried rest m (attempt (server m) r) e (attempt-FailsClean (server m) r))

  In-prioritized :
      (k : Bytes) (tried : List Bytes) (m : Bytes) (rest : List Bytes)
      → In k (prioritized tried m rest) ↔ In k (tried ++ m ∷ rest)
  unfolding prioritized
  In-prioritized k [] m rest = (λ h. h, λ h. h)
  In-prioritized k (f ∷ tried) m rest = (to, from)
    where
      to : In k (m ∷ (tried ++ f ∷ rest)) → In k (f ∷ (tried ++ m ∷ rest))
      to (inl e) = inr (In-append_right k tried (m ∷ rest) (inl e))
      to (inr h) = elim (In-append k tried (f ∷ rest) h) [
        | inl i ↦ inr (In-append_left k tried (m ∷ rest) i)
        | inr (inl e) ↦ inl e
        | inr (inr i) ↦ inr (In-append_right k tried (m ∷ rest) (inr i))
      ]

      from : In k (f ∷ (tried ++ m ∷ rest)) → In k (m ∷ (tried ++ f ∷ rest))
      from (inl e) = inr (In-append_right k tried (f ∷ rest) (inl e))
      from (inr h) = elim (In-append k tried (m ∷ rest) h) [
        | inl i ↦ inr (In-append_left k tried (f ∷ rest) i)
        | inr (inl e) ↦ inl e
        | inr (inr i) ↦ inr (In-append_right k tried (f ∷ rest) (inr i))
      ]

  ended-KeepsMethods :
      (r : Resolver) (tried : List Bytes) (m : Bytes) (rest : List Bytes)
      (x : Resolver × Outcome (Option Target))
      → FailsClean r x
      → KeepsMethods (tried ++ m ∷ rest) r (ended tried m rest x)
  unfolding ended
  ended-KeepsMethods r tried m rest (s, refused e) f = f
  ended-KeepsMethods r tried m rest (s, done desc) f = λ k. In-prioritized k tried m rest

  poll_from-KeepsMethods :
      (server : Bytes → Server) (tried ms : List Bytes) (r : Resolver)
      → KeepsMethods (tried ++ ms) r (poll_from server tried ms r)
  unfolding resolve_from
  poll_from-KeepsMethods server tried [] r = refl
  poll_from-KeepsMethods server tried (m ∷ ms) r =
      elim (Bool-cases (is_unimplemented (attempt (server m) r).1)) [
        | inl y ↦
            let same =
              refused_unimplemented r (attempt (server m) r) (attempt-FailsClean (server m) r) y in
            rw (y, resolve_from)
              (subst
                (λ (x : Resolver).
                  KeepsMethods (tried ++ m ∷ ms) r (poll_from server (tried ++ m ∷ []) ms x))
                (sym same)
                (subst
                  (λ (l : List Bytes). KeepsMethods l r (poll_from server (tried ++ m ∷ []) ms r))
                  (append_assoc tried (m ∷ []) ms)
                  (poll_from-KeepsMethods server (tried ++ m ∷ []) ms r)))
        | inr n ↦
            rw (n, resolve_from)
              (ended-KeepsMethods r tried m ms (attempt (server m) r)
                (attempt-FailsClean (server m) r))
      ]

  -- A poll that fails leaves the resolver's state as it was, and one that succeeds keeps the set of
  -- its methods.
  pub resolve-KeepsMethods :
      (server : Bytes → Server) (r : Resolver) → KeepsMethods r.method_priority r (poll server r)
  unfolding resolve
  resolve-KeepsMethods server r = poll_from-KeepsMethods server [] r.method_priority r
