-- ===== src/Reflection/Files/Sets.antt =====
-- reflection/resolver.go: the sets of present and missing files.
use grpcbridge.Base.{
  ◌≡◌, refl, if◌then◌else◌, List, [], ◌∷◌, ◌++◌, true, Bytes, contains, arith, inl, inr, ◌⊎◌, In,
  Bool-cases, In-append_left, In-append_right,
}
use grpcbridge.Reflection.Files.{
  Bundle, Names, with_name, update_present, grow_one, grow_missing, without, shrink_missing,
  new_bundles,
}

-- Some file has the name.
abbrev pub IsNamed : Bytes → List Bundle → Type 0
IsNamed k [] = ⊥
IsNamed k (b ∷ bundles) = (k ≡ b.0.name) ⊎ IsNamed k bundles

-- The dependencies that the names hold.
abbrev pub AreNamed : (Bytes → Type 0) → List Bytes → Type 0
AreNamed P [] = Unit
AreNamed P (dep ∷ deps) = P dep × AreNamed P deps

abbrev pub DependOn : (Bytes → Type 0) → List Bundle → Type 0
DependOn P [] = Unit
DependOn P (b ∷ bundles) = AreNamed P b.0.dependency × DependOn P bundles

pub AreNamed-AreNamed :
    (P Q : Bytes → Type 0) (deps : List Bytes)
    → ((k : Bytes) → P k → Q k)
    → AreNamed P deps
    → AreNamed Q deps
AreNamed-AreNamed P Q [] f h = tt
AreNamed-AreNamed P Q (dep ∷ deps) f h = (f dep h.0, AreNamed-AreNamed P Q deps f h.1)

pub DependOn-DependOn :
    (P Q : Bytes → Type 0) (bundles : List Bundle)
    → ((k : Bytes) → P k → Q k)
    → DependOn P bundles
    → DependOn Q bundles
DependOn-DependOn P Q [] f h = tt
DependOn-DependOn P Q (b ∷ bundles) f h =
    (AreNamed-AreNamed P Q b.0.dependency f h.0, DependOn-DependOn P Q bundles f h.1)

pub DependOn-append :
    (P : Bytes → Type 0) (xs ys : List Bundle)
    → DependOn P xs
    → DependOn P ys
    → DependOn P (xs ++ ys)
DependOn-append P [] ys h k = k
DependOn-append P (x ∷ xs) ys h k = (h.0, DependOn-append P xs ys h.1 k)

pub IsNamed-append_left : (k : Bytes) (xs ys : List Bundle) → IsNamed k xs → IsNamed k (xs ++ ys)
IsNamed-append_left k [] ys h = absurd h
IsNamed-append_left k (x ∷ xs) ys (inl e) = inl e
IsNamed-append_left k (x ∷ xs) ys (inr h) = inr (IsNamed-append_left k xs ys h)

pub IsNamed-append_right : (k : Bytes) (xs ys : List Bundle) → IsNamed k ys → IsNamed k (xs ++ ys)
IsNamed-append_right k [] ys h = h
IsNamed-append_right k (x ∷ xs) ys h = inr (IsNamed-append_right k xs ys h)

-- Who is present is named in the files or was present.
pub update_present_lem :
    (k : Bytes) (bundles : List Bundle) (present : Names)
    → update_present bundles present k ≡ true
    → (present k ≡ true) ⊎ IsNamed k bundles
unfolding update_present
update_present_lem k [] present h = inl h
update_present_lem k (b ∷ bundles) present h =
    elim (update_present_lem k bundles (with_name b.0.name present) h) [
      | inr n ↦ inr (inr n)
      | inl e ↦ ground arith
    ]

pub update_present_keeps :
    (k : Bytes) (bundles : List Bundle) (present : Names)
    → present k ≡ true
    → update_present bundles present k ≡ true
unfolding update_present
update_present_keeps k [] present h = h
update_present_keeps k (b ∷ bundles) present h =
    update_present_keeps k bundles (with_name b.0.name present) (ground arith)

pub update_present-IsNamed :
    (k : Bytes) (bundles : List Bundle) (present : Names)
    → IsNamed k bundles
    → update_present bundles present k ≡ true
unfolding update_present
update_present-IsNamed k [] present h = absurd h
update_present-IsNamed k (b ∷ bundles) present (inl e) =
    update_present_keeps k bundles (with_name b.0.name present) (ground arith)
update_present-IsNamed k (b ∷ bundles) present (inr h) =
    update_present-IsNamed k bundles (with_name b.0.name present) h

-- What stays missing was not received.
without_lem :
    (k j : Bytes) (missing : List Bytes) → In k missing → (k ≡ j) ⊎ In k (without j missing)
without_lem k j [] h = absurd h
without_lem k j (m ∷ missing) (inl e) = ground arith
without_lem k j (m ∷ missing) (inr h) = ground (arith, without_lem k j missing h)

pub shrink_missing_lem :
    (k : Bytes) (bundles : List Bundle) (missing : List Bytes)
    → In k missing
    → IsNamed k bundles ⊎ In k (shrink_missing bundles missing)
unfolding shrink_missing
shrink_missing_lem k [] missing h = inr h
shrink_missing_lem k (b ∷ bundles) missing h = elim (without_lem k b.0.name missing h) [
  | inl e ↦ inl (inl e)
  | inr n ↦ elim (shrink_missing_lem k bundles (without b.0.name missing) n) [
    | inl i ↦ inl (inr i)
    | inr i ↦ inr i
  ]
]

-- Present, or found to be missing.
abbrev pub Known : Names → List Bytes → Bytes → Type 0
Known present missing k = (present k ≡ true) ⊎ In k missing

contains-In : (k : Bytes) (ks : List Bytes) → contains k ks ≡ true → In k ks
unfolding contains
contains-In k [] h = absurd cc
contains-In k (j ∷ ks) h = ground (arith, contains-In k ks)

grow_one_keeps :
    (k : Bytes) (present : Names) (deps missing : List Bytes)
    → In k missing
    → In k (grow_one present deps missing)
grow_one_keeps k present [] missing h = h
grow_one_keeps k present (dep ∷ deps) missing h = grow_one_keeps k present deps _ step
  where
    step : In k (
        if present dep
        then missing
        else if contains dep missing
        then missing
        else missing ++ dep ∷ [])
    step = ground (arith, In-append_left k missing (dep ∷ []) h)

added : (dep : Bytes) (missing : List Bytes) → In dep (missing ++ dep ∷ [])
added dep missing = In-append_right dep missing (dep ∷ []) (inl refl)

grow_one-Known :
    (present : Names) (deps missing : List Bytes)
    → AreNamed (Known present (grow_one present deps missing)) deps
grow_one-Known present [] missing = tt
grow_one-Known present (dep ∷ deps) missing = (first, grow_one-Known present deps _)
  where
    first : Known present (grow_one present (dep ∷ deps) missing) dep
    first = elim (Bool-cases (present dep)) [
      | inl y ↦ inl y
      | inr n ↦ inr (
          grow_one_keeps dep present deps _
            (ground (arith, contains-In dep missing, added dep missing)))
    ]

grow_missing_keeps :
    (k : Bytes) (bundles : List Bundle) (present : Names) (missing : List Bytes)
    → In k missing
    → In k (grow_missing bundles present missing)
unfolding grow_missing
grow_missing_keeps k [] present missing h = h
grow_missing_keeps k (b ∷ bundles) present missing h =
    grow_missing_keeps k bundles present (grow_one present b.0.dependency missing)
      (grow_one_keeps k present b.0.dependency missing h)

pub grow_missing-Known :
    (bundles : List Bundle) (present : Names) (missing : List Bytes)
    → DependOn (Known present (grow_missing bundles present missing)) bundles
unfolding grow_missing
grow_missing-Known [] present missing = tt
grow_missing-Known (b ∷ bundles) present missing =
    let grown = grow_one present b.0.dependency missing in
    (
      AreNamed-AreNamed (Known present grown) (Known present (grow_missing bundles present grown))
          b.0.dependency
          (λ k h. elim h [
            | inl e ↦ inl e
            | inr i ↦ inr (grow_missing_keeps k bundles present grown i)
          ])
          (grow_one-Known present b.0.dependency missing),
      grow_missing-Known bundles present grown,
    )

-- A new file is kept, and a present one is present.
pub new_bundles_lem :
    (k : Bytes) (present : Names) (bundles : List Bundle)
    → IsNamed k bundles
    → (present k ≡ true) ⊎ IsNamed k (new_bundles present bundles)
unfolding new_bundles
new_bundles_lem k present [] h = absurd h
new_bundles_lem k present (b ∷ bundles) (inl e) = ground arith
new_bundles_lem k present (b ∷ bundles) (inr h) =
    ground (arith, new_bundles_lem k present bundles h)

pub new_bundles-DependOn :
    (P : Bytes → Type 0) (present : Names) (bundles : List Bundle)
    → DependOn P bundles
    → DependOn P (new_bundles present bundles)
unfolding new_bundles
new_bundles-DependOn P present [] h = tt
new_bundles-DependOn P present (b ∷ bundles) h = elim (Bool-cases (present b.0.name)) [
  | inl y ↦ rw y (new_bundles-DependOn P present bundles h.1)
  | inr n ↦ rw n (h.0, new_bundles-DependOn P present bundles h.1)
]
