-- ===== src/Reflection/Files/Closed.antt =====
-- reflection/resolver.go: the files that a poll ends with have all their dependencies.
use grpcbridge.Base.{
  ℕ, zero, suc, ◌≡◌, refl, subst, List, [], ◌∷◌, ◌++◌, true, Bytes, arith, inl, inr, In,
}
use grpcbridge.Rpc.{plain}
use grpcbridge.Reflection.Client.{Outcome, done, refused}
use grpcbridge.Reflection.Files.{
  Bundle, Names, no_names, update_present, grow_missing, shrink_missing, new_bundles, Retrieval,
  unless_missing, received_files, retrieve, retrieve_dependencies,
}
use grpcbridge.Reflection.Files.Sets.{
  IsNamed, DependOn, Known, DependOn-DependOn, DependOn-append, IsNamed-append_left,
  IsNamed-append_right, update_present_lem, update_present_keeps, update_present-IsNamed,
  shrink_missing_lem, grow_missing-Known, new_bundles_lem, new_bundles-DependOn,
}

-- Each dependency of a file is one of the files.
abbrev pub IsClosed : List Bundle → Type 0
IsClosed bundles = DependOn (λ k. IsNamed k bundles) bundles

-- Present names are those of files, and each dependency of a file is known.
abbrev IsRetrieval : Retrieval → Type 0
IsRetrieval s =
    ((k : Bytes) → s.present k ≡ true → IsNamed k s.files)
    × DependOn (Known s.present s.missing) s.files

start-IsRetrieval :
    (files : List Bundle)
    → IsRetrieval (record {
      files = files;
      present = update_present files no_names;
      missing = grow_missing files (update_present files no_names) [];
    })
start-IsRetrieval files = (
  (λ k h. elim (update_present_lem k files no_names h) [ inl e ↦ absurd cc | inr n ↦ n ]),
  grow_missing-Known files (update_present files no_names) [],
)

unless_missing_done :
    (left : List Bytes) (next s : Retrieval)
    → unless_missing left next ≡ done s
    → (left ≡ []) × (next ≡ s)
unfolding unless_missing
unless_missing_done [] next s h = (refl, ground arith)
unless_missing_done (k ∷ left) next s h = absurd cc

-- What was known is present behind a round that leaves nothing missing.
update_present-Known :
    (deps : List Bundle) (present : Names) (missing : List Bytes) (k : Bytes)
    → shrink_missing deps missing ≡ []
    → Known present missing k
    → update_present deps present k ≡ true
update_present-Known deps present missing k e (inl p) = update_present_keeps k deps present p
update_present-Known deps present missing k e (inr i) = elim (shrink_missing_lem k deps missing i) [
  | inl n ↦ update_present-IsNamed k deps present n
  | inr m ↦ absurd (subst (In k) e m)
]

received_files-IsRetrieval :
    (s : Retrieval) (answer : Outcome (List Bundle)) (next : Retrieval)
    → received_files s answer ≡ done next
    → IsRetrieval s
    → IsRetrieval next
unfolding received_files
received_files-IsRetrieval s (refused e) next h r = absurd cc
received_files-IsRetrieval s (done deps) next h r =
    let (left, same) = unless_missing_done (shrink_missing deps s.missing) _ next h in
    subst IsRetrieval same (names, DependOn-append known s.files kept (old left) new)
  where
    present : Names
    present = update_present deps s.present

    kept : List Bundle
    kept = new_bundles s.present deps

    known : Bytes → Type 0
    known = Known present (grow_missing deps present [])

    names : (k : Bytes) → present k ≡ true → IsNamed k (s.files ++ kept)
    names k p = elim (update_present_lem k deps s.present p) [
      | inl e ↦ IsNamed-append_left k s.files kept (r.0 k e)
      | inr n ↦ elim (new_bundles_lem k s.present deps n) [
        | inl e ↦ IsNamed-append_left k s.files kept (r.0 k e)
        | inr m ↦ IsNamed-append_right k s.files kept m
      ]
    ]

    old : shrink_missing deps s.missing ≡ [] → DependOn known s.files
    old left =
        DependOn-DependOn (Known s.present s.missing) known s.files
          (λ k h. inl (update_present-Known deps s.present s.missing k left h)) r.1

    new : DependOn known kept
    new = new_bundles-DependOn known s.present deps (grow_missing-Known deps present [])

nothing_missing : (s : Retrieval) → s.missing ≡ [] → IsRetrieval s → IsClosed s.files
nothing_missing s e r =
    DependOn-DependOn (Known s.present s.missing) (λ k. IsNamed k s.files) s.files
      (λ k h. elim h [ inl p ↦ r.0 k p | inr i ↦ absurd (subst (In k) e i) ]) r.1

module _ (by_filenames : ℕ → List Bytes → Outcome (List Bundle)) where
  retrieve-IsClosed :
      (limit i : ℕ) (o : Outcome Retrieval) (files : List Bundle)
      → ((s : Retrieval) → o ≡ done s → IsRetrieval s)
      → retrieve by_filenames limit i o ≡ done files
      → IsClosed files
  unfolding retrieve
  retrieve-IsClosed limit i (refused e) files r h = absurd cc
  retrieve-IsClosed zero i (done s) files r h = at_end s.missing refl h
    where
      at_end :
          (left : List Bytes)
          → s.missing ≡ left
          → elim left [ [] ↦ done s.files | _ ∷ _ ↦ refused plain ] ≡ done files
          → IsClosed files
      at_end [] e h = subst IsClosed (ground arith) (nothing_missing s e (r s refl))
      at_end (k ∷ left) e h = absurd cc
  retrieve-IsClosed (suc limit) i (done s) files r h =
      at_round s.missing refl
        (retrieve-IsClosed limit (suc i) next files
          (λ t n. received_files-IsRetrieval s (by_filenames i s.missing) t n (r s refl)))
        h
    where
      next : Outcome Retrieval
      next = received_files s (by_filenames i s.missing)

      at_round :
          (left : List Bytes)
          → s.missing ≡ left
          → (retrieve by_filenames limit (suc i) next ≡ done files → IsClosed files)
          → elim left [ [] ↦ done s.files | _ ∷ _ ↦ retrieve by_filenames limit (suc i) next ]
            ≡ done files
          → IsClosed files
      at_round [] e ih h = subst IsClosed (ground arith) (nothing_missing s e (r s refl))
      at_round (k ∷ left) e ih h = ih h

  -- Whatever the server answers, if the files of the dependencies are retrieved within the limit,
  -- each dependency of each of the files is one of the files.
  pub retrieve_dependencies-IsClosed :
      (limit : ℕ) (files all : List Bundle)
      → retrieve_dependencies by_filenames limit files ≡ done all
      → IsClosed all
  unfolding retrieve_dependencies
  retrieve_dependencies-IsClosed limit files all h =
      retrieve-IsClosed limit 0 _ all
        (λ s e. subst IsRetrieval (ground arith) (start-IsRetrieval files)) h
