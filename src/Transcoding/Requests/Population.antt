-- ===== src/Transcoding/Requests/Population.antt =====
-- transcoding/http.go: what the population of fields by a parameter and by the query promises.
use grpcbridge.Base.{◌≡◌, ◌⊎◌, List, ◌++◌, some, Bytes, split, In, All}
use grpcbridge.Web.Query.{Query}
use grpcbridge.Transcoding.Requests.{Messages}

abbrev pub IsPrefix : List Bytes → List Bytes → Type 0
IsPrefix path longer = (rest : List Bytes) × (longer ≡ path ++ rest)

-- No other path of the filter is below the path.
abbrev pub IsLowest : List (List Bytes) → List Bytes → Type 0
IsLowest filter path = All (λ (other : List Bytes). (other ≡ path) ⊎ (¬ IsPrefix path other)) filter

-- A path of the filter with no other below it is the path or one above it; where this is so,
-- `HasCommonPrefix` of grpc-gateway's DoubleArray holds.
abbrev pub IsSkipped : List (List Bytes) → List Bytes → Type 0
IsSkipped filter path =
    (above : List Bytes) × In above filter × IsLowest filter above × IsPrefix above path

-- `Holds m k v`: the field of the parameter `k` is as `v` makes it, if the message has one. `Apart`: a
-- population of the second path leaves the field at the first one as it is. `query_path`: the path of
-- a query's key, without its index in brackets and with JSON names replaced by the names of the
-- fields. A field holds what it was populated from, until a path that is not apart from its own is
-- populated; and the query populates no other paths than those of its keys, and none that is skipped.
pub record Population (messages : Messages) : Type 1 where
  pub Holds : messages.Msg → Bytes → Bytes → Type 0
  pub Apart : List Bytes → List Bytes → Type 0
  pub query_path : Bytes → List Bytes
  pub populate_holds :
      (m n : messages.Msg) (k v : Bytes) → messages.populate m k v ≡ some n → Holds n k v
  pub populate_keeps :
      (m n : messages.Msg) (j k v w : Bytes)
      → Apart (split b'.' j) (split b'.' k)
      → messages.populate m k v ≡ some n
      → Holds m j w
      → Holds n j w
  pub query_keeps :
      (m n : messages.Msg) (q : Query) (filter : List (List Bytes)) (k v : Bytes)
      → All
          (λ (e : Bytes × List Bytes).
            IsSkipped filter (query_path e.0) ⊎ Apart (split b'.' k) (query_path e.0))
          q
      → messages.populate_query m q filter ≡ some n
      → Holds m k v
      → Holds n k v
