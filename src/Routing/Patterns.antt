-- ===== src/Routing/Patterns.antt =====
-- routing/pattern_router.go: the routes of a target and the routing of a request by patterns.
-- The patterns are those of grpc-gateway: parsing, compiling and matching are parameters.
pub mod Builder
pub mod Matching
pub mod Requests
pub mod Errors
pub mod Table
use grpcbridge.Base.{List, Option, none, some, Bytes}
use grpcbridge.Desc.{Target, Service, Method, Binding}

-- The outcome of `Pattern.MatchAndEscape`: the path parameters, ErrNotMatch, or a
-- MalformedSequenceError.
pub data MatchResult : Type 0 where
  matches : List (Bytes × Bytes) → MatchResult
  not_match malformed_sequence : MatchResult

-- The functions of internal/httprule/gwbased and of grpc-gateway's runtime that the router calls.
pub record PatternLibrary : Type 1 where
  pub Template : Type 0
  pub Compiled : Type 0
  pub Pattern : Type 0
  pub parse : Bytes → Option Template
  pub compile : Template → Compiled
  pub new_pattern : Compiled → Option Pattern
  pub verb : Pattern → Bytes
  pub match_and_escape : Pattern → List Bytes → Bytes → MatchResult

pub record PatternRoute (Pattern : Type 0) : Type 0 where
  pub service : Service
  pub method : Method
  pub binding : Binding
  pub pattern_of : Pattern

-- The routes of a target for one HTTP method.
pub record TargetPatternRoutes (Pattern : Type 0) : Type 0 where
  pub target : Target
  pub routes : List (PatternRoute Pattern)
