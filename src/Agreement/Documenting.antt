-- ===== src/Agreement/Documenting.antt =====
-- What `buildOperation` documents of an operation: its parameters, and whether it has a body.
use protoc_gen_apigw.Base.{
  sym, ◌∷◌, refl, [], ℕ, not, none, ◌≡◌, true, ◌||◌, some, false, Bool, List, Option,
}
use mathlib.Core.Path.{subst}
use protoc_gen_apigw.OpenApi.Operation.Names.{build_first-IsNamed, IsNamed}
use protoc_gen_apigw.Base.Returns.{WhenOk-both, WhenOk-if, WhenOk-after, WhenOk->>=, WhenOk}
use protoc_gen_apigw.Base.Outcome.{ok}
use protoc_gen_apigw.OpenApi.Operation.Build.{
  build_of_operations, build_operation, start_operation, build_messages, query_parameters,
  path_parameters, Collected, message_at, route_parsed, request_body, build_first, finish_operation,
}
use protoc_gen_apigw.OpenApi.Tracker.{add, sorted_keys, add_input, MsgTracker}
use protoc_gen_apigw.Base.Sorting.{sort_by}
use protoc_gen_apigw.OpenApi.Operation.Labels.{operation_extensions}
use protoc_gen_apigw.Canonical.{snake_route, store_canonical_route, CanonicalRoute}
use protoc_gen_apigw.OpenApi.Schema.Container.{new_schema_container}
use protoc_gen_apigw.OpenApi.Schema.Data.{SchemaProxy}
use protoc_gen_apigw.Route.{parse_route, RouteToken}
use protoc_gen_apigw.OpenApi.Operation.Data.{ApiOperation, BuildState, ApiMethod, BuiltOperation}
use protoc_gen_apigw.Api.{ServiceOptions, Operation}
use protoc_gen_apigw.Base.Text.{codes, text_eq, Text}
use protoc_gen_apigw.Descriptor.{Message}

-- Whether the option is not empty.
abbrev pub is_some {ℓ} : {A : Type ℓ} → Option A → Bool
is_some none = false
is_some (some a) = true

-- The methods for which no request body is documented.
abbrev pub is_bodiless : Text → Bool
is_bodiless m = text_eq m (codes "GET") || text_eq m (codes "HEAD")

module _ (registry : List Message) (transform_name : Text → Text)
    (camel_split : Text → List Text) where
  request_body-is_some :
      (m : Text) (id : ℕ) (input : Message) (filter : List Text) (tracker : MsgTracker)
      → WhenOk
          (λ out. is_some out.0 ≡ not (is_bodiless m))
          (request_body registry transform_name m id input filter tracker)
  unfolding request_body
  request_body-is_some m id input filter tracker =
      WhenOk-if (λ out. is_some out.0 ≡ not (is_bodiless m)) (is_bodiless m) _ _
        (λ bodiless. rw bodiless refl)
        (λ other.
          WhenOk-after {D = Option SchemaProxy × MsgTracker}
            (λ out. is_some out.0 ≡ not (is_bodiless m))
            (add_input id input.fully_qualified_name filter tracker) _ (λ added. rw other refl))

  abbrev pub HasRequestBody : Operation → BuiltOperation × BuildState → Type 0
  HasRequestBody operation out =
      (out.0.method ≡ operation.method)
      × (is_some out.0.operation.request_body ≡ not (is_bodiless operation.method))

  finish_operation-HasRequestBody :
      (method : ApiMethod) (operation : Operation) (ts : List RouteToken) (canon : CanonicalRoute)
      (route : Text) (op : ApiOperation) (state : BuildState)
      → WhenOk (HasRequestBody operation) (
          finish_operation registry transform_name camel_split method operation ts canon route op
            state)
  unfolding finish_operation
  finish_operation-HasRequestBody method operation ts canon route op state =
      WhenOk-after {D = BuiltOperation × BuildState} (HasRequestBody operation)
        (message_at registry transform_name method.input) _
        (λ input.
          let empty : Collected = record {
            parameters = [];
            input_filter = [];
            container = new_schema_container;
          } in
          WhenOk-after {D = BuiltOperation × BuildState} (HasRequestBody operation)
            (path_parameters registry transform_name canon input ts empty) _
            (λ with_path.
              WhenOk-after {D = BuiltOperation × BuildState} (HasRequestBody operation)
                (query_parameters registry transform_name input (sort_by (λ q. q.0) operation.query)
                  with_path)
                _
                (λ done.
                  WhenOk->>= {D = BuiltOperation × BuildState}
                    (λ out. is_some out.0 ≡ not (is_bodiless operation.method))
                    (HasRequestBody operation)
                    (request_body registry transform_name operation.method method.input input
                      done.input_filter state.tracker)
                    _
                    (request_body-is_some operation.method method.input input done.input_filter
                      state.tracker)
                    (λ (body, tracker) h.
                      WhenOk-after {D = BuiltOperation × BuildState} (HasRequestBody operation)
                        (build_messages registry transform_name tracker (sorted_keys tracker)
                          done.container)
                        _ (λ c. (refl, h))))))

  build_first-HasRequestBody :
      (method : ApiMethod) (operation : Operation) (options : Option ServiceOptions)
      (state : BuildState)
      → WhenOk
          (HasRequestBody operation)
          (build_first registry transform_name camel_split method operation options state)
  unfolding build_first
  build_first-HasRequestBody method operation options state =
      WhenOk-after {D = BuiltOperation × BuildState} (HasRequestBody operation)
        (route_parsed registry transform_name operation.route (parse_route operation.route)) _
        (λ parts.
          let (mapper, canon) = store_canonical_route operation.route parts state.mapper in
          WhenOk-after {D = BuiltOperation × BuildState} (HasRequestBody operation)
            (snake_route parts canon) _
            (λ route.
              WhenOk-after {D = BuiltOperation × BuildState} (HasRequestBody operation)
                (message_at registry transform_name method.output) _
                (λ output.
                  WhenOk-after {D = BuiltOperation × BuildState} (HasRequestBody operation)
                    (operation_extensions camel_split transform_name method operation options) _
                    (λ labels.
                      finish_operation-HasRequestBody method operation parts canon route
                        (start_operation registry transform_name camel_split method operation output
                          (add method.output output.fully_qualified_name state.tracker).0 labels)
                        (record {
                          mapper = mapper;
                          tracker = (add method.output output.fully_qualified_name state.tracker).1;
                        })))))

  -- The labels of the documented parameters, and whether there is a body.
  abbrev pub Documented :
      Operation → CanonicalRoute → List RouteToken → Option BuiltOperation × BuildState → Type 0
  Documented operation canon parts out =
      (built : BuiltOperation) × (out.0 ≡ some built)
      × IsNamed registry transform_name camel_split operation canon parts built
      × (built.method ≡ operation.method)
      × (is_some built.operation.request_body ≡ not (is_bodiless operation.method))

  pub build_operation-Documented :
      (method : ApiMethod) (operation : Operation) (rest : List Operation)
      (options : Option ServiceOptions) (state : BuildState) (parts : List RouteToken)
      → method.operations ≡ operation ∷ rest
      → parse_route operation.route ≡ ok parts
      → WhenOk
          (Documented operation (store_canonical_route operation.route parts state.mapper).1 parts)
          (build_operation registry transform_name camel_split method options state)
  unfolding build_operation build_of_operations
  build_operation-Documented method operation rest options state parts listed parsed =
      let canon = (store_canonical_route operation.route parts state.mapper).1 in
      let named = λ (out : BuiltOperation × BuildState).
        IsNamed registry transform_name camel_split operation canon parts out.0 in
      let built = build_first registry transform_name camel_split method operation options state in
      subst
        (λ ops.
          WhenOk (Documented operation canon parts)
            (build_of_operations registry transform_name camel_split ops method options state))
        (sym listed)
        (WhenOk->>= {D = Option BuiltOperation × BuildState}
          (λ out. named out × HasRequestBody operation out) (Documented operation canon parts) built
          _
          (WhenOk-both named (HasRequestBody operation) built
            (build_first-IsNamed registry transform_name camel_split method operation options state
              parts parsed)
            (build_first-HasRequestBody method operation options state))
          (λ (b, s) (names, (same, body)). (b, refl, names, same, body)))
