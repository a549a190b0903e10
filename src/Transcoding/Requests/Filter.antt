-- ===== src/Transcoding/Requests/Filter.antt =====
-- transcoding/http.go: which paths of the query the filter skips.
use grpcbridge.Base.{
  ◌≡◌, refl, subst, List, [], ◌∷◌, ◌++◌, Bytes, equals, split, arith, inl, inr, ◌⊎◌, In, All,
  Bool-cases, append_assoc, In-append_right, All-In, ◌≢◌,
}
use grpcbridge.Transcoding.Requests.Population.{IsPrefix, IsLowest, IsSkipped}
use grpcbridge.Transcoding.Requests.{Bindings, paths_of, query_filter}

-- No other parameter's path, and not that of the body, is below the path.
abbrev pub HasNoneBelow : Bindings → List Bytes → Type 0
HasNoneBelow b path =
    All (λ (p : Bytes × Bytes). (split b'.' p.0 ≡ path) ⊎ (¬ IsPrefix path (split b'.' p.0)))
      b.path_params
    × ((b.request_body_path ≡ [])
        ⊎ ((split b'.' b.request_body_path ≡ path)
            ⊎ (¬ IsPrefix path (split b'.' b.request_body_path))))

-- The path is that of a parameter or of the body, with no other below it, or it is below that one.
abbrev pub IsBelow : Bindings → List Bytes → Type 0
IsBelow b path =
    ((p : Bytes × Bytes) × In p b.path_params
      × HasNoneBelow b (split b'.' p.0)
      × IsPrefix (split b'.' p.0) path)
    ⊎ ((b.request_body_path ≢ [])
        × HasNoneBelow b (split b'.' b.request_body_path)
        × IsPrefix (split b'.' b.request_body_path) path)

in_paths :
    (params : List (Bytes × Bytes)) (above : List (List Bytes))
    → All (λ (p : Bytes × Bytes). In (split b'.' p.0) (above ++ paths_of params)) params
in_paths [] above = tt
in_paths ((p, v) ∷ params) above = (
  In-append_right (split b'.' p) above (paths_of ((p, v) ∷ params)) (inl refl),
  subst (λ (l : List (List Bytes)). All (λ (x : Bytes × Bytes). In (split b'.' x.0) l) params)
      (append_assoc above (split b'.' p ∷ []) (paths_of params))
      (in_paths params (above ++ split b'.' p ∷ [])),
)

in_filter :
    (b : Bindings) → All (λ (p : Bytes × Bytes). In (split b'.' p.0) (query_filter b)) b.path_params
unfolding query_filter
in_filter b = elim (Bool-cases (equals b.request_body_path [])) [
  | inl y ↦ rw y (in_paths b.path_params [])
  | inr n ↦ rw n (in_paths b.path_params (split b'.' b.request_body_path ∷ []))
]

body_in_filter :
    (b : Bindings) → b.request_body_path ≢ [] → In (split b'.' b.request_body_path) (query_filter b)
unfolding query_filter
body_in_filter b h = elim (Bool-cases (equals b.request_body_path [])) [
  | inl y ↦ absurd (h (ground arith))
  | inr n ↦ rw n (inl refl)
]

paths_of-IsLowest :
    (params : List (Bytes × Bytes)) (path : List Bytes)
    → All
        (λ (p : Bytes × Bytes). (split b'.' p.0 ≡ path) ⊎ (¬ IsPrefix path (split b'.' p.0)))
        params
    → IsLowest (paths_of params) path
paths_of-IsLowest [] path h = tt
paths_of-IsLowest ((k, v) ∷ params) path h = (h.0, paths_of-IsLowest params path h.1)

query_filter-IsLowest :
    (b : Bindings) (path : List Bytes) → HasNoneBelow b path → IsLowest (query_filter b) path
unfolding query_filter
query_filter-IsLowest b path (params, body) = elim (Bool-cases (equals b.request_body_path [])) [
  | inl y ↦ rw y (paths_of-IsLowest b.path_params path params)
  | inr n ↦ elim body [
    | inl e ↦ absurd (ground arith)
    | inr low ↦ rw n (low, paths_of-IsLowest b.path_params path params)
  ]
]

pub below-IsSkipped :
    (b : Bindings) (path : List Bytes) → IsBelow b path → IsSkipped (query_filter b) path
below-IsSkipped b path (inl (p, i, low, is)) = (
  split b'.' p.0,
  All-In (λ (p : Bytes × Bytes). In (split b'.' p.0) (query_filter b)) b.path_params p (in_filter b)
      i,
  query_filter-IsLowest b (split b'.' p.0) low,
  is,
)
below-IsSkipped b path (inr (h, low, is)) = (
  split b'.' b.request_body_path,
  body_in_filter b h,
  query_filter-IsLowest b (split b'.' b.request_body_path) low,
  is,
)
