-- ===== src/Desc/Parse.antt =====
-- bridgedesc/parse.go: the description of a target from its proto descriptors. The descriptors of
-- the protobuf library are records of what the code reads through their interfaces.
use grpcbridge.Base.{Bool, List, [], ◌∷◌, Option, none, some, map, Bytes, codes}
use grpcbridge.Desc.{dynamic_message, Binding, Method, Target, canonical_rpc_name}

-- The `oneof pattern` of google.api.HttpRule.
pub data HttpPattern : Type 0 where
  get put post delete patch : Bytes → HttpPattern
  custom : Bytes → Bytes → HttpPattern
  unset : HttpPattern

pub record HttpBinding : Type 0 where
  pub rule_pattern : HttpPattern
  pub body : Bytes
  pub response_body : Bytes

-- A rule and its `additional_bindings`, whose own additional bindings the code does not read.
pub record HttpRule : Type 0 where
  pub rule : HttpBinding
  pub additional_bindings : List HttpBinding

-- `http_extension` is the value of the `google.api.http` option where it is present.
pub record MethodDescriptor : Type 0 where
  pub name : Bytes
  pub input : Bytes
  pub output : Bytes
  pub is_streaming_client : Bool
  pub is_streaming_server : Bool
  pub http_extension : Option HttpRule

pub record ServiceDescriptor : Type 0 where
  pub full_name : Bytes
  pub methods : List MethodDescriptor

http_method_of : HttpPattern → Bytes
http_method_of (get _) = codes "GET"
http_method_of (put _) = codes "PUT"
http_method_of (post _) = codes "POST"
http_method_of (delete _) = codes "DELETE"
http_method_of (patch _) = codes "PATCH"
http_method_of (custom kind _) = kind
http_method_of unset = []

path_of : HttpPattern → Bytes
path_of (get path) = path
path_of (put path) = path
path_of (post path) = path
path_of (delete path) = path
path_of (patch path) = path
path_of (custom _ path) = path
path_of unset = []

unfoldable pub parse_binding : HttpBinding → Binding
unfolding http_method_of path_of
parse_binding b = record {
  http_method = http_method_of b.rule_pattern;
  pattern_text = path_of b.rule_pattern;
  request_body_path = b.body;
  response_body_path = b.response_body;
}

parse_bindings : Option HttpRule → List Binding
parse_bindings none = []
parse_bindings (some r) = parse_binding r.rule ∷ map parse_binding r.additional_bindings

unfoldable pub parse_method_descriptor : ServiceDescriptor → MethodDescriptor → Method
unfolding parse_bindings
parse_method_descriptor sd md = record {
  rpc_name = canonical_rpc_name sd.full_name md.name;
  input = dynamic_message md.input;
  output = dynamic_message md.output;
  client_streaming = md.is_streaming_client;
  server_streaming = md.is_streaming_server;
  bindings = parse_bindings md.http_extension;
}

-- `none` where the file resolver finds no service descriptor of the name.
unfoldable pub parse_service_descriptors : Option ServiceDescriptor → List Method
parse_service_descriptors none = []
parse_service_descriptors (some sd) = map (parse_method_descriptor sd) sd.methods

unfoldable pub parse_target : (Bytes → Option ServiceDescriptor) → Bytes → List Bytes → Target
parse_target find_service target_name svc_names = record {
  name = target_name;
  services =
      map (λ svc. record { name = svc; methods = parse_service_descriptors (find_service svc) })
        svc_names;
}
