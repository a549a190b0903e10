-- ===== src/Base/Maps.antt =====
-- A Go map, or `sync.Map`, whose iteration order is never read: a function to the optional value.
use mathlib.Core.Logic.{ite}
use mathlib.Core.Option.{Option, none, some}
use mathlib.Core.List.{List, []}
use grpcbridge.Base.Lists.{Bytes, bytes_discrete}

abbrev pub Map {ℓ} : Type ℓ → Type ℓ
Map V = Bytes → Option V

module _ {ℓ} {V : Type ℓ} where
  abbrev pub empty : Map V
  empty _ = none

  -- `m[k] = v`
  abbrev pub put : Bytes → V → Map V → Map V
  put k v m j = ite (bytes_discrete j k) (some v) (m j)

  -- `delete(m, k)`
  abbrev pub delete : Bytes → Map V → Map V
  delete k m j = ite (bytes_discrete j k) none (m j)

-- A missing key of a map of slices reads as the nil slice.
abbrev pub or_nil {ℓ} : {A : Type ℓ} → Option (List A) → List A
or_nil none = []
or_nil (some l) = l
