-- ===== src/Transcoding/Paths.antt =====
-- transcoding/http.go: the traversal of field paths. A message is reached from the root by the names of the
-- message fields that lead to it. Cutting at one separator after another gives the pieces of a split.
pub mod Chains
use grpcbridge.Base.{
  ℕ, ◌&&◌, if◌then◌else◌, List, [], ◌∷◌, ◌++◌, Option, none, some, Bool, true, false, Bytes, codes,
  equals, split,
}

-- What the traversal reads of a field's descriptor: a message that is not repeated, or anything else.
pub data Field (Descriptor : Type 0) : Type 0 where
  message_field : Descriptor → Field Descriptor
  other_field : Field Descriptor

-- protobuf's descriptors of messages
pub record Schema : Type 1 where
  pub Descriptor : Type 0
  pub by_name : Descriptor → Bytes → Option (Field Descriptor)

-- The message, by the names that lead to it, and the field, nil for the message itself.
pub data Traversed : Type 0 where
  traversed : List Bytes → Option Bytes → Traversed
  invalid_path : Traversed

abbrev pub wildcard_path : Bytes
wildcard_path = codes "*"

module _ (schema : Schema) where
  open schema use {Descriptor, by_name}

  abbrev pub is_last : List Bytes → Bool
  is_last [] = true
  is_last ([] ∷ []) = true
  is_last ([] ∷ q ∷ rest) = false
  is_last ((c ∷ p) ∷ rest) = false

  -- The loop over the elements, at a message.
  unfoldable pub traverse_elements : Descriptor → List Bytes → List Bytes → Traversed
  traverse_elements d above [] = traversed above none
  traverse_elements d above ([] ∷ []) = traversed above none
  traverse_elements d above ([] ∷ q ∷ rest) = invalid_path
  traverse_elements d above ((c ∷ elem) ∷ rest) = elim (by_name d (c ∷ elem)) [
    | none ↦ invalid_path
    | some other_field ↦ if is_last rest then traversed above (some (c ∷ elem)) else invalid_path
    | some (message_field e) ↦
        if is_last rest
        then traversed above (some (c ∷ elem))
        else traverse_elements e (above ++ (c ∷ elem) ∷ []) rest
  ]

  unfoldable pub traverse_field_path : Descriptor → Bytes → Traversed
  traverse_field_path d [] = traversed [] none
  traverse_field_path d (c ∷ path) =
      if equals (c ∷ path) wildcard_path
      then traversed [] none
      else traverse_elements d [] (split b'.' (c ∷ path))
