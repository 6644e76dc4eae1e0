-- ===== src/OpenApi/Samples.antt =====
-- A small registry with a service, to which the theorems on documents are applied.
use protoc_gen_apigw.Base.Text.{text_eq, codes, Text}
use protoc_gen_apigw.Base.{refl, some-eq, ◌++◌, false, sym, true, Bool, [], none, ℕ, ◌∷◌, List}
use protoc_gen_apigw.Descriptor.{
  no_oneof, empty_wkt, string_t, unknown_wkt, WellKnownType, scalar_type, Field, Message,
}
use protoc_gen_apigw.Api.{stability_unspecified, MessageOption, Operation}
use protoc_gen_apigw.OpenApi.Operation.Data.{ApiMethod, BuildState}
use protoc_gen_apigw.OpenApi.Operation.Build.Messages.{IsTracked}
use protoc_gen_apigw.OpenApi.Operation.Build.Closed.{IsOwn}
use protoc_gen_apigw.Base.OrderedMap.{value}
use protoc_gen_apigw.OpenApi.Schema.WellKnown.{is_well_known}
use protoc_gen_apigw.OpenApi.Service.{ApiService}

abbrev text_field : Text → Field
text_field n = record {
  name = n;
  json_name = none;
  snake_name = n;
  number = 1;
  type = scalar_type string_t;
  leading_comments = [];
  deprecated = false;
  message_name = codes "M";
  membership = no_oneof;
  options = [];
}

abbrev pub message_with : Text → Bool → WellKnownType → List MessageOption → Message
message_with n known wkt options = record {
  name = n;
  upper_camel_name = n;
  fully_qualified_name = codes ".p." ++ n;
  leading_comments = [];
  deprecated = false;
  is_well_known = known;
  well_known_type = wkt;
  fields = text_field (codes "shelf") ∷ [];
  non_one_of_fields = text_field (codes "shelf") ∷ [];
  synthetic_one_of_fields = [];
  real_one_ofs = [];
  options = options;
}

abbrev hook : MessageOption
hook = record {
  terraform_entity = none;
  title = [];
  force_expose = false;
  webhook_request_name = codes "created";
  name_override = [];
}

abbrev pub empty_message : Message
empty_message = message_with (codes "Empty") true empty_wkt []

-- A request, a response, a webhook's message and a well-known message.
abbrev pub shelf_messages : List Message
shelf_messages =
    message_with (codes "GetShelf") false unknown_wkt []
    ∷ message_with (codes "Shelf") false unknown_wkt []
    ∷ message_with (codes "Created") false unknown_wkt (hook ∷ [])
    ∷ empty_message
    ∷ []

abbrev pub operation_on : Text → Text → Operation
operation_on method route = record {
  method = method;
  route = route;
  query = [];
  stability = stability_unspecified;
  terraform_entity = [];
  summary = [];
  group = [];
  pagination = none;
  deprecation = none;
  group_override = [];
  name_override = [];
}

abbrev pub shelf_method : Operation → ℕ → ApiMethod
shelf_method operation output = record {
  name = codes "Call";
  fully_qualified_name = codes ".p.ShelfService.Call";
  leading_comments = [];
  deprecated = false;
  operations = operation ∷ [];
  input = 0;
  output = output;
}

abbrev pub get_shelf : Operation
get_shelf = operation_on (codes "GET") (codes "/shelves/{shelf}")

abbrev pub put_shelf : Operation
put_shelf = operation_on (codes "PUT") (codes "/shelves/{name}")

abbrev pub shelf_service : ApiService
shelf_service = record {
  fully_qualified_name = codes ".p.ShelfService";
  deprecated = false;
  options = none;
  methods = shelf_method get_shelf 1 ∷ shelf_method put_shelf 1 ∷ [];
}

abbrev pub no_state : BuildState
no_state = record { mapper = []; tracker = [] }

abbrev pub one_name : Text → List Text
one_name s = s ∷ []

-- The request and the response are not well known.
pub input-IsOwn : IsOwn shelf_messages 0
unfolding is_well_known text_eq
input-IsOwn m e = rw (sym (some-eq e)) refl

pub output-IsOwn : IsOwn shelf_messages 1
unfolding is_well_known text_eq
output-IsOwn m e = rw (sym (some-eq e)) refl

pub nothing-IsTracked : IsTracked shelf_messages []
unfolding value
nothing-IsTracked k sd e = cc
