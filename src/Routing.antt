-- ===== src/Routing.antt =====
-- routing/routing.go: what the two routers share. The texts of errors are left out.
pub mod Watchers
pub mod Services
pub mod Patterns
use grpcbridge.Base.{ℕ, List, Option, Bytes}
use grpcbridge.Desc.{Target, Service, Method, Binding}

-- The codes of google.golang.org/grpc/codes that routing returns.
pub data Code : Type 0 where
  invalid_argument not_found unimplemented internal unavailable : Code

-- A gRPC status error, or one under the `StatusError` of internal/httperr with an HTTP status.
pub data RouteError : Type 0 where
  status : Code → RouteError
  http_status : ℕ → Code → RouteError

pub data Result {ℓ} (A : Type ℓ) : Type ℓ where
  ok : A → Result A
  err : RouteError → Result A

infixl 5 ◌>>=◌
abbrev pub ◌>>=◌ {ℓ κ} : {A : Type ℓ} {B : Type κ} → Result A → (A → Result B) → Result B
ok a >>= f = f a
err e >>= f = err e

abbrev pub or_fail {ℓ} : {A : Type ℓ} → Option A → RouteError → Result A
or_fail Option.none e = err e
or_fail (Option.some a) e = ok a

-- What routing reads of an `http.Request`.
pub record Request : Type 0 where
  pub http_method : Bytes
  pub path : Bytes
  pub raw_path : Bytes

pub record GrpcRoute : Type 0 where
  pub target : Target
  pub service : Service
  pub method : Method

pub record HttpRoute : Type 0 where
  pub target : Target
  pub service : Service
  pub method : Method
  pub binding : Binding
  -- `none` is the nil map; otherwise the bindings of the map.
  pub path_params : Option (List (Bytes × Bytes))
