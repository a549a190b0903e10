-- ===== src/Desc.antt =====
-- bridgedesc/types.go: the descriptions of targets, services and methods.
-- The two resolvers of a target are read by no modelled operation and are left out. A dynamic
-- message stands as the full name of its descriptor.
pub mod Parse
use grpcbridge.Base.{Bool, true, List, [], ◌++◌, Bytes, codes}

pub data Message : Type 0 where
  empty_message : Message
  dynamic_message : Bytes → Message

pub record Binding : Type 0 where
  pub http_method : Bytes
  pub pattern_text : Bytes
  pub request_body_path : Bytes
  pub response_body_path : Bytes

pub record Method : Type 0 where
  pub rpc_name : Bytes
  pub input : Message
  pub output : Message
  pub client_streaming : Bool
  pub server_streaming : Bool
  pub bindings : List Binding

pub record Service : Type 0 where
  pub name : Bytes
  pub methods : List Method

pub record Target : Type 0 where
  pub name : Bytes
  pub services : List Service

unfoldable pub canonical_rpc_name : Bytes → Bytes → Bytes
canonical_rpc_name svc_name method_name = codes "/" ++ (svc_name ++ (codes "/" ++ method_name))

unfoldable pub dummy_method : Bytes → Bytes → Method
dummy_method svc_name method_name = record {
  rpc_name = canonical_rpc_name svc_name method_name;
  input = empty_message;
  output = empty_message;
  client_streaming = true;
  server_streaming = true;
  bindings = [];
}

unfoldable pub default_binding : Method → Binding
default_binding method = record {
  http_method = codes "POST";
  pattern_text = method.rpc_name;
  request_body_path = codes "*";
  response_body_path = [];
}
