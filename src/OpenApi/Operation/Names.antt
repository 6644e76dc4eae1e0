-- ===== src/OpenApi/Operation/Names.antt =====
-- The names of a built operation's parameters, against the route that it is listed under.
use protoc_gen_apigw.OpenApi.Operation.Build.Names.{
  query_parameters-Labelled, path_parameters-Labelled, Labelled, in_query_as, snake_route-renamed,
  in_path_as, label, renamed,
}
use protoc_gen_apigw.Base.Returns.{WhenOk-weaken, WhenOk-any, WhenOk->>=, WhenOk}
use protoc_gen_apigw.OpenApi.Operation.Build.{
  request_body, start_operation, build_messages, of_pointer, route_parsed, message_at, build_first,
  finish_operation, Collected, path_parameters, query_parameters,
}
use protoc_gen_apigw.OpenApi.Tracker.{sorted_keys, add}
use protoc_gen_apigw.Api.{ServiceOptions, Operation}
use protoc_gen_apigw.OpenApi.Operation.Labels.{operation_extensions}
use protoc_gen_apigw.Canonical.{store_canonical_route, snake_route, CanonicalRoute}
use protoc_gen_apigw.Route.{parse_route, RouteToken}
use protoc_gen_apigw.OpenApi.Schema.Container.{new_schema_container}
use protoc_gen_apigw.OpenApi.Operation.Data.{BuildState, ApiOperation, ApiMethod, BuiltOperation}
use protoc_gen_apigw.Base.Sorting.{sort_by}
use protoc_gen_apigw.Base.{◌∙◌, ap, refl, get_elem?, ◌++◌, map, [], ◌≡◌, List, Option}
use protoc_gen_apigw.Base.Outcome.{ok}
use protoc_gen_apigw.Method.Context.Laws.{param_names}
use protoc_gen_apigw.Route.Render.{render}
use protoc_gen_apigw.Descriptor.{Message}
use protoc_gen_apigw.Base.Text.{Text}

module _ (registry : List Message) (transform_name : Text → Text)
    (camel_split : Text → List Text) where
  -- The names of an operation's parameters, and its route.
  abbrev pub IsNamed : Operation → CanonicalRoute → List RouteToken → BuiltOperation → Type 0
  IsNamed operation canon ts built =
      (built.route ≡ render (map (renamed canon) ts))
      × (map label built.operation.parameters
          ≡ map in_path_as (param_names (map (renamed canon) ts))
            ++ map in_query_as (sort_by (λ q. q.0) operation.query))

  abbrev IsListed :
      Operation → CanonicalRoute → List RouteToken → Text → BuiltOperation × BuildState → Type 0
  IsListed operation canon ts route out =
      (out.0.route ≡ route)
      × (map label out.0.operation.parameters
          ≡ map in_path_as (param_names (map (renamed canon) ts))
            ++ map in_query_as (sort_by (λ q. q.0) operation.query))

  finish_operation-names :
      (method : ApiMethod) (operation : Operation) (ts : List RouteToken) (canon : CanonicalRoute)
      (route : Text) (op : ApiOperation) (state : BuildState)
      → WhenOk (IsListed operation canon ts route) (
          finish_operation registry transform_name camel_split method operation ts canon route op
            state)
  unfolding finish_operation message_at
  finish_operation-names method operation ts canon route op state =
      let empty : Collected = record {
        parameters = [];
        input_filter = [];
        container = new_schema_container;
      } in
      let paths = map in_path_as (param_names (map (renamed canon) ts)) in
      let sorted = sort_by (λ q. q.0) operation.query in
      WhenOk->>= {D = BuiltOperation × BuildState} (λ _. Unit {0}) _
        (of_pointer (get_elem? registry method.input)) _
        (WhenOk-any (of_pointer (get_elem? registry method.input)))
        (λ input _.
          WhenOk->>= {D = BuiltOperation × BuildState} (Labelled empty paths) _
            (path_parameters registry transform_name canon input ts empty) _
            (path_parameters-Labelled registry transform_name canon input ts empty)
            (λ with_path e.
              WhenOk->>= {D = BuiltOperation × BuildState}
                (Labelled with_path (map in_query_as sorted)) _
                (query_parameters registry transform_name input sorted with_path) _
                (query_parameters-Labelled registry transform_name input sorted with_path)
                (λ done e'.
                  WhenOk->>= {D = BuiltOperation × BuildState} (λ _. Unit {0}) _
                    (request_body registry transform_name operation.method method.input input
                      done.input_filter state.tracker)
                    _
                    (WhenOk-any (
                      request_body registry transform_name operation.method method.input input
                        done.input_filter state.tracker))
                    (λ (body, tracker) _.
                      WhenOk->>= {D = BuiltOperation × BuildState} (λ _. Unit {0}) _
                        (build_messages registry transform_name tracker (sorted_keys tracker)
                          done.container)
                        _
                        (WhenOk-any (
                          build_messages registry transform_name tracker (sorted_keys tracker)
                            done.container))
                        (λ c _. (refl, e' ∙ ap (λ ls. ls ++ map in_query_as sorted) e))))))

  -- Where `buildOperation` builds a method's first operation, the route that it is listed under is the
  -- written route with each parameter under the name that the canonical route has for it; and the
  -- operation has those names as its path parameters, each once and in the order of the route, and
  -- then the query parameters in the order of their names, and no other parameters.
  pub build_first-IsNamed :
      (method : ApiMethod) (operation : Operation) (options : Option ServiceOptions)
      (state : BuildState) (ts : List RouteToken)
      → parse_route operation.route ≡ ok ts
      → WhenOk
          (λ out.
            IsNamed operation (store_canonical_route operation.route ts state.mapper).1 ts out.0)
          (build_first registry transform_name camel_split method operation options state)
  unfolding build_first message_at route_parsed
  build_first-IsNamed method operation options state ts parsed =
      let (mapper, canon) = store_canonical_route operation.route ts state.mapper in
      rw parsed (
        WhenOk->>= {D = BuiltOperation × BuildState} (λ r. r ≡ render (map (renamed canon) ts)) _
          (snake_route ts canon) _ (snake_route-renamed canon ts)
          (λ route spelled.
            WhenOk->>= {D = BuiltOperation × BuildState} (λ _. Unit {0}) _
              (of_pointer (get_elem? registry method.output)) _
              (WhenOk-any (of_pointer (get_elem? registry method.output)))
              (λ output _.
                WhenOk->>= {D = BuiltOperation × BuildState} (λ _. Unit {0}) _
                  (operation_extensions camel_split transform_name method operation options) _
                  (WhenOk-any
                    (operation_extensions camel_split transform_name method operation options))
                  (λ labels _.
                    let (proxy, tracker) =
                      add method.output output.fully_qualified_name state.tracker in
                    WhenOk-weaken (IsListed operation canon ts route)
                      (λ out. IsNamed operation canon ts out.0) _
                      (λ out (same, names). (same ∙ spelled, names))
                      (finish_operation-names method operation ts canon route
                        (start_operation registry transform_name camel_split method operation output
                          proxy labels)
                        (record { mapper = mapper; tracker = tracker }))))))
