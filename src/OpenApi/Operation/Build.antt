-- ===== src/OpenApi/Operation/Build.antt =====
-- The loops of `buildOperation` in internal/apigw/apigw_openapi.go, and the function itself.
pub mod Closed
pub mod Settling
pub mod Assembled
pub mod Names
pub mod Parameters
pub mod Messages
use protoc_gen_apigw.OpenApi.Schema.Data.{oas_bool, oas_true, SchemaProxy}
use protoc_gen_apigw.OpenApi.Tracker.{add, MsgTracker, add_input, sorted_keys}
use protoc_gen_apigw.Base.Text.{trim_space, split, codes, text_eq, Text}
use protoc_gen_apigw.Canonical.{snake_route, store_canonical_route, CanonicalRoute}
use protoc_gen_apigw.Base.{
  ◌||◌, false, if◌then◌else◌, [], some, ◌++◌, Bool, length, none, suc, ◌∷◌, Option, get_elem?, ℕ,
  List,
}
use protoc_gen_apigw.OpenApi.Operation.Labels.{or_default, operation_extensions, operation_summary}
use protoc_gen_apigw.OpenApi.Schema.Fields.{field}
use protoc_gen_apigw.Route.{parse_route, RouteToken}
use protoc_gen_apigw.Method.Params.{of_edge}
use protoc_gen_apigw.OpenApi.Schema.Options.{nicer_fqn}
use protoc_gen_apigw.OpenApi.Schema.Container.{new_schema_container, Built, Container, MessageCall}
use protoc_gen_apigw.OpenApi.Operation.Data.{
  in_path, BuiltOperation, in_query, BuildState, ApiOperation, ApiMethod, Parameter,
}
use protoc_gen_apigw.OpenApi.Yaml.{Extensions}
use protoc_gen_apigw.Base.OrderedMap.{value}
use protoc_gen_apigw.Base.Outcome.{panic, ◌>>=◌, err, ok, Outcome}
use protoc_gen_apigw.Api.{ServiceOptions, Operation}
use protoc_gen_apigw.Base.Sorting.{sort_by}
use protoc_gen_apigw.OpenApi.Schema.Build.{message}
use protoc_gen_apigw.Method.FieldPath.{path2field_numbers}
use protoc_gen_apigw.Descriptor.{Message}

-- What the loops over the parameters change: the parameters, the input filter and the container.
pub record Collected : Type 0 where
  pub parameters : List Parameter
  pub input_filter : List Text
  pub container : Container

-- what a pointer that may be nil points to
unfoldable pub of_pointer {ℓ} : {A : Type ℓ} → Option A → Outcome A
of_pointer none = panic (codes "nil pointer dereference")
of_pointer (some a) = ok a

module _ (registry : List Message) (transform_name : Text → Text) where
  -- `sc.Message(m, nil, readOnly, false)`, with fuel above the number of messages
  unfoldable pub message_call : MessageCall
  message_call id read_only c =
      message registry transform_name (suc (length registry)) id [] read_only false c

  -- `sc.Field(edgeField)` of the field that a dotted path leads to
  unfoldable pub edge_schema : Text → Message → Container → Built SchemaProxy
  unfolding path2field_numbers
  edge_schema path input c = do
    (numbers, edge) ← path2field_numbers registry (split path b'.') input
    f ← of_edge edge
    field registry message_call f c

  -- the parameter of a part, under the name that the canonical route has for it
  unfoldable pub named_parameter : Option Text → Message → RouteToken → Container → Built Parameter
  unfolding edge_schema
  named_parameter none input p c = panic (codes "index out of range")
  named_parameter (some name) input p c = edge_schema p.param_name input c >>= λ (schema, c').
      ok (record { name = name; location = in_path; required = oas_true; schema = schema }, c')

  -- the body of the loop over the parts of the route, for a parameter
  unfoldable pub path_parameter :
      CanonicalRoute → Message → RouteToken → Container → Built Parameter
  unfolding named_parameter
  path_parameter canon input p c = named_parameter (get_elem? canon.params p.param_index) input p c

  unfoldable pub path_parameters :
      CanonicalRoute → Message → List RouteToken → Collected → Outcome Collected
  unfolding path_parameter
  path_parameters canon input [] done = ok done
  path_parameters canon input (p ∷ ps) done =
      let skipped = path_parameters canon input ps done in
      let taken = path_parameter canon input p done.container >>= λ (parameter, c').
      path_parameters canon input ps (record {
        parameters = done.parameters ++ parameter ∷ [];
        input_filter = done.input_filter ++ p.param_name ∷ [];
        container = c';
      }) in
      if p.is_param then taken else skipped

  -- the parameter of the loop over the query parameters
  unfoldable pub query_parameter : Message → Text → Text → Container → Built Parameter
  unfolding edge_schema
  query_parameter input param target c = edge_schema target input c >>= λ (schema, c').
      ok (record { name = param; location = in_query; required = none; schema = schema }, c')

  -- the loop over the sorted query parameters
  unfoldable pub query_parameters : Message → List (Text × Text) → Collected → Outcome Collected
  unfolding query_parameter
  query_parameters input [] done = ok done
  query_parameters input ((param, target) ∷ params) done = do
    (parameter, c') ← query_parameter input param target done.container
    query_parameters input params (record {
      parameters = done.parameters ++ parameter ∷ [];
      input_filter = done.input_filter ++ target ∷ [];
      container = c';
    })

  -- the request body, for a method other than GET and HEAD
  unfoldable pub request_body :
      Text → ℕ → Message → List Text → MsgTracker → Outcome (Option SchemaProxy × MsgTracker)
  unfolding add_input text_eq
  request_body http_method id input filter tracker =
      let added = add_input id input.fully_qualified_name filter tracker >>= λ (proxy, tracker').
      ok (some proxy, tracker') in
      if text_eq http_method (codes "GET") || text_eq http_method (codes "HEAD")
      then ok (none, tracker)
      else added

  -- the body of the loop over `SortedKeys`
  unfoldable pub build_message : MsgTracker → Text → Container → Built SchemaProxy
  unfolding of_pointer
  build_message tracker key c = do
    sd ← of_pointer (value key tracker)
    message registry transform_name (suc (suc (length registry))) sd.msg sd.filter false false c

  unfoldable pub build_messages : MsgTracker → List Text → Container → Outcome Container
  unfolding build_message
  build_messages tracker [] c = ok c
  build_messages tracker (key ∷ rest) c = do
    (p, c') ← build_message tracker key c
    build_messages tracker rest c'

  -- the error of `ParseRoute`, wrapped
  unfoldable pub route_parsed : Text → Outcome (List RouteToken) → Outcome (List RouteToken)
  route_parsed route (err e) =
      err (codes "apigw: failed to parse route '" ++ (route ++ (codes "': " ++ e)))
  route_parsed route r = r

  -- a message that a method names
  unfoldable pub message_at : ℕ → Outcome Message
  unfolding of_pointer
  message_at id = of_pointer (get_elem? registry id)

  module _ (camel_split : Text → List Text) where
    -- `dm_v3.Operation` before the loops over the parameters
    unfoldable pub start_operation :
        ApiMethod → Operation → Message → SchemaProxy → Bool × Extensions → ApiOperation
    unfolding operation_summary
    start_operation method operation output proxy (deprecated, extensions) = record {
      operation_id = nicer_fqn method.fully_qualified_name;
      summary = operation_summary camel_split transform_name operation method.name;
      description =
          or_default (trim_space method.leading_comments)
            (codes "Invokes the " ++ (nicer_fqn method.fully_qualified_name ++ codes " method."));
      deprecated = oas_bool deprecated;
      response_description =
          or_default (trim_space output.leading_comments) (codes "Successful response");
      response_schema = proxy;
      extensions = extensions;
      parameters = [];
      request_body = none;
    }

    -- The part of `buildOperation` from the loops over the parameters on.
    unfoldable pub finish_operation :
        ApiMethod
        → Operation
        → List RouteToken
        → CanonicalRoute
        → Text
        → ApiOperation
        → BuildState
        → Outcome (BuiltOperation × BuildState)
    unfolding path_parameters query_parameters request_body build_messages message_at sorted_keys
        sort_by
    finish_operation method operation parts canon route op state = do
      input ← message_at method.input
      let empty : Collected = record {
        parameters = [];
        input_filter = [];
        container = new_schema_container;
      }
      with_path ← path_parameters canon input parts empty
      collected ← query_parameters input (sort_by (λ q. q.0) operation.query) with_path
      (body, tracker) ←
          request_body operation.method method.input input collected.input_filter state.tracker
      container ← build_messages tracker (sorted_keys tracker) collected.container
      ok (
        record {
          method = operation.method;
          route = route;
          operation = record op { parameters = collected.parameters; request_body = body };
          schemas = container.schemas;
        },
        record state { tracker = tracker },
      )

    -- `buildOperation` of a method's first operation
    unfoldable pub build_first :
        ApiMethod
        → Operation
        → Option ServiceOptions
        → BuildState
        → Outcome (BuiltOperation × BuildState)
    unfolding finish_operation start_operation operation_extensions
    build_first method operation service_options state = do
      parts ← route_parsed operation.route (parse_route operation.route)
      let (mapper, canon) = store_canonical_route operation.route parts state.mapper
      route ← snake_route parts canon
      output ← message_at method.output
      labels ← operation_extensions camel_split transform_name method operation service_options
      let (proxy, tracker) = add method.output output.fully_qualified_name state.tracker
      finish_operation method operation parts canon route
          (start_operation method operation output proxy labels)
          (record { mapper = mapper; tracker = tracker })

    -- `buildOperation` of a method with these operations; none is a nil route
    unfoldable pub build_of_operations :
        List Operation
        → ApiMethod
        → Option ServiceOptions
        → BuildState
        → Outcome (Option BuiltOperation × BuildState)
    unfolding build_first
    build_of_operations [] method service_options state = ok (none, state)
    build_of_operations (operation ∷ rest) method service_options state =
        build_first method operation service_options state >>= λ (built, state').
        ok (some built, state')

    -- `buildOperation`
    unfoldable pub build_operation :
        ApiMethod
        → Option ServiceOptions
        → BuildState
        → Outcome (Option BuiltOperation × BuildState)
    unfolding build_of_operations
    build_operation method service_options state =
        build_of_operations method.operations method service_options state
