-- ===== src/OpenApi/Operation/Sound.antt =====
-- `buildOperation` as a whole: its references resolve among the schemas that it returns.
use protoc_gen_apigw.OpenApi.Operation.Build.Assembled.{assembled-Leaves, Leaves}
use protoc_gen_apigw.OpenApi.Operation.Build.Closed.{add-Reference, IsOwn}
use protoc_gen_apigw.OpenApi.Tracker.{add}
use protoc_gen_apigw.OpenApi.Operation.Build.Settling.{
  operation_extensions-Settles, snake_route-Settles, route_parsed-Settles,
}
use protoc_gen_apigw.OpenApi.Operation.Labels.{operation_extensions}
use protoc_gen_apigw.Canonical.{snake_route, store_canonical_route, CanonicalRoute}
use protoc_gen_apigw.Base.{◌∷◌, [], get_elem?, ◌≡◌, some, List, Option}
use protoc_gen_apigw.Route.{parse_route, RouteToken}
use protoc_gen_apigw.OpenApi.Operation.Build.{
  build_of_operations, route_parsed, start_operation, build_first, build_operation,
  query_parameters, path_parameters, of_pointer, Collected, message_at, finish_operation,
}
use protoc_gen_apigw.Api.{ServiceOptions, Operation}
use protoc_gen_apigw.OpenApi.Operation.Build.Parameters.{
  query_parameters-IsSound, path_parameters-IsSound, IsSound, of_pointer-AllOk, AllOk->>=,
}
use protoc_gen_apigw.OpenApi.Operation.Build.Messages.{IsTracked}
use protoc_gen_apigw.OpenApi.Tracker.Keys.{HasKey}
use protoc_gen_apigw.OpenApi.Schema.Container.{new_schema_container, ref_to}
use protoc_gen_apigw.Base.Sorting.{sort_by}
use protoc_gen_apigw.OpenApi.Operation.Data.{ApiOperation, ApiMethod, BuildState, BuiltOperation}
use protoc_gen_apigw.Base.Text.{Text}
use protoc_gen_apigw.Base.OrderedMap.{value}
use protoc_gen_apigw.OpenApi.Schema.Ensures.{AllOk}
use protoc_gen_apigw.Descriptor.{Message}

module _ (registry : List Message) (transform_name : Text → Text)
    (camel_split : Text → List Text) where
  finish_operation-Leaves :
      (method : ApiMethod) (operation : Operation) (parts : List RouteToken)
      (canon : CanonicalRoute) (route : Text) (op : ApiOperation) (state : BuildState)
      → IsOwn registry method.input
      → IsTracked registry state.tracker
      → (k : Text) × (op.response_schema ≡ ref_to k) × HasKey state.tracker k
      → AllOk
          (λ (built, state'). Leaves registry (some built, state'))
          (finish_operation registry transform_name camel_split method operation parts canon route
            op state)
  unfolding finish_operation message_at new_schema_container value
  finish_operation-Leaves method operation parts canon route op state own tracked (k, e, has) =
      let empty : Collected = record {
        parameters = [];
        input_filter = [];
        container = new_schema_container;
      } in
      AllOk->>= {D = BuiltOperation × BuildState} (λ m. get_elem? registry method.input ≡ some m) _
        (of_pointer (get_elem? registry method.input)) _
        (of_pointer-AllOk (λ m. get_elem? registry method.input ≡ some m)
          (get_elem? registry method.input) (λ m found. found))
        (λ input found.
          AllOk->>= {D = BuiltOperation × BuildState} IsSound _
            (path_parameters registry transform_name canon input parts empty) _
            (path_parameters-IsSound registry transform_name canon input parts empty
              (((λ j p there. cc), tt), tt))
            (λ with_path sound1.
              AllOk->>= {D = BuiltOperation × BuildState} IsSound _
                (query_parameters registry transform_name input (sort_by (λ q. q.0) operation.query)
                  with_path)
                _
                (query_parameters-IsSound registry transform_name input
                  (sort_by (λ q. q.0) operation.query) with_path sound1)
                (λ collected sound2.
                  assembled-Leaves registry transform_name camel_split method operation route op
                    state input collected found own tracked (k, e, has) sound2)))

  build_first-Leaves :
      (method : ApiMethod) (operation : Operation) (options : Option ServiceOptions)
      (state : BuildState)
      → IsOwn registry method.input
      → IsOwn registry method.output
      → IsTracked registry state.tracker
      → AllOk
          (λ out. Leaves registry (some out.0, out.1))
          (build_first registry transform_name camel_split method operation options state)
  unfolding build_first message_at start_operation
  build_first-Leaves method operation options state own_in own_out tracked =
      AllOk->>= {D = BuiltOperation × BuildState} (λ _. Unit {0}) _
        (route_parsed registry transform_name operation.route (parse_route operation.route)) _
        (route_parsed-Settles registry transform_name operation.route)
        (λ parts _.
          let (mapper, canon) = store_canonical_route operation.route parts state.mapper in
          AllOk->>= {D = BuiltOperation × BuildState} (λ _. Unit {0}) _ (snake_route parts canon) _
            (snake_route-Settles canon parts)
            (λ route _.
              AllOk->>= {D = BuiltOperation × BuildState}
                (λ m. get_elem? registry method.output ≡ some m) _
                (of_pointer (get_elem? registry method.output)) _
                (of_pointer-AllOk (λ m. get_elem? registry method.output ≡ some m)
                  (get_elem? registry method.output) (λ m found. found))
                (λ output found.
                  AllOk->>= {D = BuiltOperation × BuildState} (λ _. Unit {0}) _
                    (operation_extensions camel_split transform_name method operation options) _
                    (operation_extensions-Settles camel_split transform_name method operation
                      options)
                    (λ labels _.
                      let (proxy, tracker) =
                        add method.output output.fully_qualified_name state.tracker in
                      let (tracked', kept, here) =
                        add-Reference registry method.output output found (own_out output found)
                          state.tracker tracked in
                      finish_operation-Leaves method operation parts canon route
                        (start_operation registry transform_name camel_split method operation output
                          proxy labels)
                        (record { mapper = mapper; tracker = tracker }) own_in tracked' here))))

  build_of_operations-Leaves :
      (operations : List Operation) (method : ApiMethod) (options : Option ServiceOptions)
      (state : BuildState)
      → IsOwn registry method.input
      → IsOwn registry method.output
      → IsTracked registry state.tracker
      → AllOk
          (Leaves registry)
          (build_of_operations registry transform_name camel_split operations method options state)
  unfolding build_of_operations
  build_of_operations-Leaves [] method options state own_in own_out tracked = tracked
  build_of_operations-Leaves (operation ∷ rest) method options state own_in own_out tracked =
      AllOk->>= {D = Option BuiltOperation × BuildState}
        (λ out. Leaves registry (some out.0, out.1)) (Leaves registry)
        (build_first registry transform_name camel_split method operation options state) _
        (build_first-Leaves method operation options state own_in own_out tracked) (λ out h. h)

  -- `buildOperation`, from a tracker whose messages are not well known, for a method whose input and
  -- output are not either, does not run out of fuel; where it returns an operation, every reference
  -- of the operation (in its response, its parameters and its request body) and of the schemas that
  -- come with it resolves in those schemas, and the tracker holds only such messages again.
  pub build_operation-Leaves :
      (method : ApiMethod) (options : Option ServiceOptions) (state : BuildState)
      → IsOwn registry method.input
      → IsOwn registry method.output
      → IsTracked registry state.tracker
      → AllOk
          (Leaves registry)
          (build_operation registry transform_name camel_split method options state)
  unfolding build_operation
  build_operation-Leaves method options state own_in own_out tracked =
      build_of_operations-Leaves method.operations method options state own_in own_out tracked
