-- ===== src/Tests/Transcoding.antt =====
-- Runs of the transcoding, and its theorems there.
use grpcbridge.Base.{
  ◌≡◌, if◌then◌else◌, [], ◌∷◌, Option, none, some, true, false, Bytes, codes, equals, arith, All,
  ◌⊎◌,
}
use grpcbridge.Base.Maps.{put, empty}
use grpcbridge.Desc.{empty_message}
use grpcbridge.Routing.{ok, err, status, invalid_argument}
use grpcbridge.Transcoding.Paths.{
  Field, message_field, other_field, Schema, traversed, traverse_field_path,
}
use grpcbridge.Transcoding.Paths.Chains.{
  IsElement, LeadsTo, ends, goes_on, traverse_field_path_chain, traverse_field_path-LeadsTo,
}
use grpcbridge.Transcoding.Bind.{
  Marshaler, StandardTranscoder, BindRequest, Transcoders, unsupported_media_type, bind,
}
use grpcbridge.Transcoding.Bind.Chosen.{NoneKnown, IsChosen, IsWrongStream, bind-IsChosen}

-- An order with a customer, who has a name.
pub data Kind : Type 0 where
  order customer : Kind

abbrev pub fields : Kind → Bytes → Option (Field Kind)
fields order name = if equals name (codes "customer") then some (message_field customer) else none
fields customer name = if equals name (codes "name") then some other_field else none

abbrev pub orders : Schema
orders = record { Descriptor = Kind; by_name = fields }

name_of_customer : LeadsTo orders order (codes "customer" ∷ []) (codes "name")
name_of_customer =
    goes_on order customer (codes "customer") [] (codes "name") (ground arith)
      (ends customer other_field (codes "name") (ground arith))

are_elements : All IsElement (codes "customer" ∷ codes "name" ∷ [])
are_elements = (((λ e. absurd cc), ground arith), (((λ e. absurd cc), ground arith), tt))

traverse_field_path_chain_example :
    (traverse_field_path orders order (codes "customer.name")
      ≡ traversed (codes "customer" ∷ []) (some (codes "name")))
    × (traverse_field_path orders order (codes "customer.name.")
        ≡ traversed (codes "customer" ∷ []) (some (codes "name")))
traverse_field_path_chain_example =
    traverse_field_path_chain orders order (codes "customer" ∷ []) (codes "name") name_of_customer
      are_elements (λ e. absurd cc) (λ e. absurd cc)

customer_name-LeadsTo : LeadsTo orders order (codes "customer" ∷ []) (codes "name")
customer_name-LeadsTo =
    traverse_field_path-LeadsTo orders order (codes "customer.name") (codes "customer" ∷ [])
      (codes "name") traverse_field_path_chain_example.0

abbrev json : Marshaler
json = record { mime_type = codes "application/json"; binary = false; supports_streams = true }

abbrev standard : StandardTranscoder
standard = record { default_marshaler = json; marshalers = put json.mime_type json empty }

abbrev events : BindRequest
events = record {
  content_types = codes "application/json" ∷ [];
  accepts = codes "text/event-stream" ∷ [];
  method = record {
    rpc_name = codes "/s/m";
    input = empty_message;
    output = empty_message;
    client_streaming = false;
    server_streaming = true;
    bindings = [];
  };
}

abbrev as_written : Bytes → Option Bytes
as_written s = some s

bind-IsChosen_example :
    ((bind as_written standard events ≡ err unsupported_media_type)
      × NoneKnown as_written standard.marshalers events.content_types)
    ⊎ (((bind as_written standard events ≡ err (status invalid_argument))
          × IsWrongStream as_written standard events)
        ⊎ ((b : Transcoders) × (bind as_written standard events ≡ ok b)
            × IsChosen as_written standard events b))
bind-IsChosen_example = bind-IsChosen as_written standard events
