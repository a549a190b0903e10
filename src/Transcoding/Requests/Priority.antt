-- ===== src/Transcoding/Requests/Priority.antt =====
-- transcoding/http.go: path parameters take priority over the body and the query.
use grpcbridge.Base.{
  ◌≡◌, refl, subst, if◌then◌else◌, List, [], ◌∷◌, Option, none, some, Bool, true, false, Bytes,
  equals, split, arith, inl, inr, ◌⊎◌, In, All, Bool-cases, Option-cases, All-In, All-of_In,
}
use grpcbridge.Rpc.{Err, eof, status, plain, invalid_argument, internal}
use grpcbridge.Web.Query.{Query}
use grpcbridge.Transcoding.Paths.{
  Traversed, traversed, invalid_path, wildcard_path, traverse_field_path,
}
use grpcbridge.Transcoding.Requests.Population.{Population, IsSkipped}
use grpcbridge.Transcoding.Requests.Filter.{IsBelow, below-IsSkipped}
use grpcbridge.Transcoding.Requests.{
  Transcode, transcoded, fails, Messages, Bindings, and_then, or_status, query_filter, body_error,
  fill_at, fill_body, populate_params, fill_query, transcode_func,
}

module _ (messages : Messages) (laws : Population messages) where
  open messages use {Msg, populate, populate_query}
  open laws use {Holds, Apart, query_path, populate_holds, populate_keeps, query_keeps}

  -- No parameter overlaps with a later one.
  abbrev pub ArePairwiseApart : List (Bytes × Bytes) → Type 0
  ArePairwiseApart [] = Unit
  ArePairwiseApart ((k, v) ∷ params) =
      All (λ (p : Bytes × Bytes). Apart (split b'.' k) (split b'.' p.0)) params
      × ArePairwiseApart params

  abbrev pub HoldsAll : Msg → List (Bytes × Bytes) → Type 0
  HoldsAll m params = All (λ (p : Bytes × Bytes). Holds m p.0 p.1) params

  -- The path overlaps with no parameter.
  abbrev pub IsApart : Bindings → List Bytes → Type 0
  IsApart b path = All (λ (p : Bytes × Bytes). Apart (split b'.' p.0) path) b.path_params

  -- The query is not read, or each of its keys is at or below a parameter or the body, with no other
  -- one below that, or overlaps with no parameter.
  abbrev pub IsSpared : Bindings → Type 0
  IsSpared b =
      (b.request_body_path ≡ wildcard_path)
      ⊎ All (λ (e : Bytes × List Bytes). IsBelow b (query_path e.0) ⊎ IsApart b (query_path e.0))
          b.query

  populate_params_keeps :
      (params : List (Bytes × Bytes)) (m n : Msg) (j w : Bytes)
      → All (λ (p : Bytes × Bytes). Apart (split b'.' j) (split b'.' p.0)) params
      → populate_params messages params m ≡ transcoded n
      → Holds m j w
      → Holds n j w
  unfolding populate_params
  populate_params_keeps [] m n j w a h k = subst (λ (x : Msg). Holds x j w) (ground arith) k
  populate_params_keeps ((p, v) ∷ params) m n j w a h k = elim (Option-cases (populate m p v)) [
    | inl e ↦ absurd (cc (rw e at h))
    | inr (x, e) ↦
        populate_params_keeps params x n j w a.1 (rw e at h) (populate_keeps m x j p v w a.0 e k)
  ]

  populate_params_holds :
      (params : List (Bytes × Bytes)) (m n : Msg)
      → ArePairwiseApart params
      → populate_params messages params m ≡ transcoded n
      → HoldsAll n params
  unfolding populate_params
  populate_params_holds [] m n a h = tt
  populate_params_holds ((p, v) ∷ params) m n a h = elim (Option-cases (populate m p v)) [
    | inl e ↦ absurd (cc (rw e at h))
    | inr (x, e) ↦ (
      populate_params_keeps params x n p v a.0 (rw e at h) (populate_holds m x p v e),
      populate_params_holds params x n a.1 (rw e at h),
    )
  ]

  spared_keys :
      (b : Bindings) (p : Bytes × Bytes) (q : Query)
      → In p b.path_params
      → All (λ (e : Bytes × List Bytes). IsBelow b (query_path e.0) ⊎ IsApart b (query_path e.0)) q
      → All
          (λ (e : Bytes × List Bytes).
            IsSkipped (query_filter b) (query_path e.0) ⊎ Apart (split b'.' p.0) (query_path e.0))
          q
  spared_keys b p [] i h = tt
  spared_keys b p (e ∷ q) i (inl below, h) =
      (inl (below-IsSkipped b (query_path e.0) below), spared_keys b p q i h)
  spared_keys b p (e ∷ q) i (inr far, h) = (
    inr (
        All-In (λ (p : Bytes × Bytes). Apart (split b'.' p.0) (query_path e.0)) b.path_params p far
          i),
    spared_keys b p q i h,
  )

  populate_query_holds :
      (b : Bindings) (m n : Msg)
      → All
          (λ (e : Bytes × List Bytes). IsBelow b (query_path e.0) ⊎ IsApart b (query_path e.0))
          b.query
      → populate_query m b.query (query_filter b) ≡ some n
      → HoldsAll m b.path_params
      → HoldsAll n b.path_params
  populate_query_holds b m n q e k =
      All-of_In (λ (p : Bytes × Bytes). Holds n p.0 p.1) b.path_params
        (λ p i.
          query_keeps m n b.query (query_filter b) p.0 p.1 (spared_keys b p b.query i q) e
            (All-In (λ (p : Bytes × Bytes). Holds m p.0 p.1) b.path_params p k i))

  fill_query_holds :
      (b : Bindings) (m n : Msg)
      → IsSpared b
      → fill_query messages b m ≡ transcoded n
      → HoldsAll m b.path_params
      → HoldsAll n b.path_params
  unfolding fill_query
  fill_query_holds b m n q h k = elim (Bool-cases (equals b.request_body_path wildcard_path)) [
    | inl y ↦ subst (λ (x : Msg). HoldsAll x b.path_params) (ground arith) k
    | inr y ↦ elim q [
      | inl w ↦ absurd (ground arith)
      | inr each ↦ elim (Option-cases (populate_query m b.query (query_filter b))) [
        | inl e ↦ absurd (cc (rw e at rw y at h))
        | inr (x, e) ↦ populate_query_holds b m n each (ground arith) k
      ]
    ]
  ]

  -- If a request is transcoded, by any decoding of its body, over a population of fields with the
  -- laws named, the message holds each path parameter, where no two parameters overlap, and the
  -- body's path is the star or else the path of each key of the query overlaps with no parameter, or
  -- is at or below the path of a parameter or of the body that has no other such path below it.
  pub transcode_func-HoldsAll :
      (supports_eof : Bool) (f : List Bytes → Option Bytes → Msg → Transcode Msg) (b : Bindings)
      (m n : Msg)
      → ArePairwiseApart b.path_params
      → IsSpared b
      → transcode_func messages supports_eof f b m ≡ transcoded n
      → HoldsAll n b.path_params
  unfolding transcode_func
  transcode_func-HoldsAll supports_eof f b m n a q h =
      at_body (fill_body messages supports_eof f b m) h
    where
      at_params :
          (o : Transcode Msg)
          → ((x : Msg) → o ≡ transcoded x → HoldsAll x b.path_params)
          → and_then o (fill_query messages b) ≡ transcoded n
          → HoldsAll n b.path_params
      at_params (fails e) k h = absurd cc
      at_params (transcoded x) k h = fill_query_holds b x n q h (k x refl)

      at_body :
          (o : Transcode Msg)
          → and_then o (λ filled.
            and_then (populate_params messages b.path_params filled) (fill_query messages b))
            ≡ transcoded n
          → HoldsAll n b.path_params
      at_body (fails e) h = absurd cc
      at_body (transcoded filled) h =
          at_params (populate_params messages b.path_params filled)
            (λ x e. populate_params_holds b.path_params filled x a e) h

-- The error is one of the codes, or the end of a stream.
abbrev pub IsTranscodingError : Bool → Err → Type 0
IsTranscodingError supports_eof e =
    (e ≡ status invalid_argument) ⊎ ((e ≡ status internal) ⊎ ((e ≡ eof) × (supports_eof ≡ true)))

abbrev FailsWell : {A : Type 0} → Bool → Transcode A → Type 0
FailsWell supports_eof (transcoded a) = Unit
FailsWell supports_eof (fails e) = IsTranscodingError supports_eof e

and_then-FailsWell :
    {A B : Type 0} (s : Bool) (o : Transcode A) (f : A → Transcode B)
    → FailsWell s o
    → ((a : A) → FailsWell s (f a))
    → FailsWell s (and_then o f)
and_then-FailsWell s (fails e) f h k = h
and_then-FailsWell s (transcoded a) f h k = k a

or_status-FailsWell :
    {A : Type 0} (s : Bool) (o : Option A) → FailsWell s (or_status invalid_argument o)
or_status-FailsWell s none = inl refl
or_status-FailsWell s (some a) = tt

module _ (messages : Messages) where
  open messages use {Msg, schema, descriptor, populate, populate_query}

  body_error-FailsWell : (s : Bool) (o : Transcode Msg) → FailsWell s (body_error messages s o)
  unfolding body_error
  body_error-FailsWell s (transcoded m) = tt
  body_error-FailsWell true (fails eof) = inr (inr (refl, refl))
  body_error-FailsWell false (fails eof) = inl refl
  body_error-FailsWell s (fails (status c)) = inl refl
  body_error-FailsWell s (fails plain) = inl refl

  fill_body-FailsWell :
      (s : Bool) (f : List Bytes → Option Bytes → Msg → Transcode Msg) (b : Bindings) (m : Msg)
      → FailsWell s (fill_body messages s f b m)
  unfolding fill_body fill_at
  fill_body-FailsWell s f b m =
      at_path (equals b.request_body_path [])
        (traverse_field_path schema descriptor b.request_body_path)
    where
      at_path :
          (e : Bool) (t : Traversed)
          → FailsWell s (if e then transcoded m else fill_at messages s f m t)
      at_path true t = tt
      at_path false invalid_path = inr (inl refl)
      at_path false (traversed above field) = body_error-FailsWell s (f above field m)

  populate_params-FailsWell :
      (s : Bool) (params : List (Bytes × Bytes)) (m : Msg)
      → FailsWell s (populate_params messages params m)
  unfolding populate_params
  populate_params-FailsWell s [] m = tt
  populate_params-FailsWell s ((k, v) ∷ params) m =
      and_then-FailsWell s (or_status invalid_argument (populate m k v))
        (populate_params messages params) (or_status-FailsWell s (populate m k v))
        (populate_params-FailsWell s params)

  fill_query-FailsWell : (s : Bool) (b : Bindings) (m : Msg) → FailsWell s (fill_query messages b m)
  unfolding fill_query
  fill_query-FailsWell s b m =
      at_wildcard (equals b.request_body_path wildcard_path)
        (populate_query m b.query (query_filter b))
    where
      at_wildcard :
          (e : Bool) (o : Option Msg)
          → FailsWell s (if e then transcoded m else or_status invalid_argument o)
      at_wildcard true o = tt
      at_wildcard false o = or_status-FailsWell s o

  transcode_func-FailsWell :
      (s : Bool) (f : List Bytes → Option Bytes → Msg → Transcode Msg) (b : Bindings) (m : Msg)
      → FailsWell s (transcode_func messages s f b m)
  unfolding transcode_func
  transcode_func-FailsWell s f b m =
      and_then-FailsWell s (fill_body messages s f b m) _ (fill_body-FailsWell s f b m) (λ filled.
        and_then-FailsWell s (populate_params messages b.path_params filled) (fill_query messages b)
          (populate_params-FailsWell s b.path_params filled) (fill_query-FailsWell s b))

  -- A request that is not transcoded, by any decoding of its body, fails with InvalidArgument or
  -- Internal, or with EOF, which only a stream can.
  pub transcode_func-IsTranscodingError :
      (supports_eof : Bool) (f : List Bytes → Option Bytes → Msg → Transcode Msg) (b : Bindings)
      (m : Msg) (e : Err)
      → transcode_func messages supports_eof f b m ≡ fails e
      → IsTranscodingError supports_eof e
  transcode_func-IsTranscodingError supports_eof f b m e h =
      subst (FailsWell supports_eof) h (transcode_func-FailsWell supports_eof f b m)
