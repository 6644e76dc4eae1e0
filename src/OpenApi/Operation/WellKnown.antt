-- ===== src/OpenApi/Operation/WellKnown.antt =====
-- A response whose message is well known: its schema is not built, but referred to.
use protoc_gen_apigw.Base.{
  ap, Option, some-eq, inr, ◌∙◌, All, Bool-cases, inl, Option-cases, ◌∷◌, [], refl, some, true,
  get_elem?, if◌then◌else◌, false, ℕ, ◌≡◌, Bool, List,
}
use protoc_gen_apigw.OpenApi.Tracker.{sorted_keys, SchemaData, MsgTracker, add}
use protoc_gen_apigw.OpenApi.Operation.Data.{ApiOperation, ApiMethod, BuildState, BuiltOperation}
use protoc_gen_apigw.OpenApi.Operation.Build.{
  query_parameters, request_body, Collected, start_operation, of_pointer, route_parsed, message_at,
  build_first, build_message, build_messages, finish_operation, path_parameters,
}
use protoc_gen_apigw.Base.Sorting.{sort_by}
use protoc_gen_apigw.OpenApi.Schema.Container.{new_schema_container, ref_to, Container, MessageCall}
use protoc_gen_apigw.OpenApi.Operation.Labels.{operation_extensions}
use protoc_gen_apigw.Canonical.{snake_route, store_canonical_route, CanonicalRoute}
use protoc_gen_apigw.Route.{parse_route, RouteToken}
use mathlib.Core.Path.{subst}
use protoc_gen_apigw.Base.Text.{codes, text_eq, Text}
use protoc_gen_apigw.Base.OrderedMap.Laws.{value-set}
use protoc_gen_apigw.Base.Returns.{WhenOk-any, WhenOk-weaken, WhenOk->>=, WhenOk}
use protoc_gen_apigw.Api.{ServiceOptions, Operation}
use protoc_gen_apigw.OpenApi.Schema.WellKnown.{well_known_type, schema_for_wkt, is_well_known}
use protoc_gen_apigw.Base.Outcome.{ok}
use protoc_gen_apigw.OpenApi.Schema.Data.{SchemaProxy}
use protoc_gen_apigw.OpenApi.Schema.Options.{nicer_fqn}
use protoc_gen_apigw.Base.OrderedMap.{value}
use protoc_gen_apigw.OpenApi.Schema.Build.{message, message_of}
use protoc_gen_apigw.Descriptor.{Message}

-- Every entry of the tracker is a well-known message.
abbrev pub AllKnown : List Message → MsgTracker → Type 0
AllKnown registry tracker =
    (k : Text) (sd : SchemaData)
    → value k tracker ≡ some sd
    → (m : Message) × (get_elem? registry sd.msg ≡ some m) × (is_well_known m ≡ true)

if_false {ℓ} : {A : Type ℓ} (b : Bool) (x y : A) → b ≡ false → (if b then x else y) ≡ y
if_false true x y h = cc
if_false false x y h = refl

add-AllKnown :
    (registry : List Message) (id : ℕ) (m : Message) (tracker : MsgTracker)
    → get_elem? registry id ≡ some m
    → is_well_known m ≡ true
    → AllKnown registry tracker
    → AllKnown registry (add id m.fully_qualified_name tracker).1
unfolding add
add-AllKnown registry id m tracker found known all k sd there =
    let key = nicer_fqn m.fully_qualified_name in
    let new : SchemaData = record { path = key; msg = id; filter = [] } in
    elim (Bool-cases (text_eq key k)) [
      | inl same ↦
          let stored : new ≡ sd = some-eq (rw (value-set, same) at there) in
          subst
            (λ (d : SchemaData).
              (n : Message) × (get_elem? registry d.msg ≡ some n) × (is_well_known n ≡ true))
            stored (m, found, known)
      | inr other ↦ all k sd (rw (value-set, other) at there)
    ]

module _ (registry : List Message) (transform_name : Text → Text) where
  message_of-known :
      (call : MessageCall) (m : Message) (filter : List Text) (read_only forced : Bool)
      (c : Container)
      → is_well_known m ≡ true
      → WhenOk
          (λ out. out.1 ≡ c)
          (message_of registry transform_name call (some m) filter read_only forced c)
  unfolding message_of
  message_of-known call m filter read_only forced c known = rw known (
      WhenOk->>= {D = SchemaProxy × Container} (λ _. Unit {0}) (λ out. out.1 ≡ c)
        (schema_for_wkt (well_known_type m)) _ (WhenOk-any (schema_for_wkt (well_known_type m)))
        (λ s _. refl))

  build_message-known :
      (tracker : MsgTracker) (k : Text) (c : Container)
      → AllKnown registry tracker
      → WhenOk (λ out. out.1 ≡ c) (build_message registry transform_name tracker k c)
  unfolding build_message message of_pointer
  build_message-known tracker k c all = elim (Option-cases (value k tracker)) [
    | inl missing ↦ rw missing tt
    | inr (sd, there) ↦
        let (m, found, known) = all k sd there in
        rw (there, found) (message_of-known _ m sd.filter false false c known)
  ]

  build_messages-known :
      (tracker : MsgTracker) (ks : List Text) (c : Container)
      → AllKnown registry tracker
      → WhenOk (λ c'. c' ≡ c) (build_messages registry transform_name tracker ks c)
  unfolding build_messages
  build_messages-known tracker [] c all = refl
  build_messages-known tracker (k ∷ ks) c all =
      WhenOk->>= {D = Container} (λ out. out.1 ≡ c) (λ c'. c' ≡ c)
        (build_message registry transform_name tracker k c) _ (build_message-known tracker k c all)
        (λ (p, c') same.
          WhenOk-weaken (λ d. d ≡ c') (λ d. d ≡ c)
            (build_messages registry transform_name tracker ks c') (λ d e. e ∙ same)
            (build_messages-known tracker ks c' all))

  no_path_parameters :
      (canon : CanonicalRoute) (input : Message) (ts : List RouteToken) (done : Collected)
      → All (λ t. t.is_param ≡ false) ts
      → path_parameters registry transform_name canon input ts done ≡ ok done
  unfolding path_parameters
  no_path_parameters canon input [] done h = refl
  no_path_parameters canon input (t ∷ ts) done (static, h) =
      if_false t.is_param _ _ static ∙ no_path_parameters canon input ts done h

  module _ (camel_split : Text → List Text) where
    -- A response that the schemas built with it do not have.
    abbrev pub Dangles : Message → BuiltOperation × BuildState → Type 0
    Dangles m out =
        (out.0.schemas ≡ [])
        × (out.0.operation.response_schema ≡ ref_to (nicer_fqn m.fully_qualified_name))

    finish_operation-Dangles :
        (m : Message) (method : ApiMethod) (operation : Operation) (ts : List RouteToken)
        (canon : CanonicalRoute) (route : Text) (op : ApiOperation) (state : BuildState)
        → text_eq operation.method (codes "GET") ≡ true
        → operation.query ≡ []
        → All (λ t. t.is_param ≡ false) ts
        → AllKnown registry state.tracker
        → op.response_schema ≡ ref_to (nicer_fqn m.fully_qualified_name)
        → WhenOk (Dangles m) (
            finish_operation registry transform_name camel_split method operation ts canon route op
              state)
    unfolding finish_operation request_body new_schema_container sort_by query_parameters
    finish_operation-Dangles m method operation ts canon route op state get bare static known e =
        let empty : Collected = record {
          parameters = [];
          input_filter = [];
          container = new_schema_container;
        } in
        WhenOk->>= {D = BuiltOperation × BuildState} (λ _. Unit {0}) (Dangles m)
          (message_at registry transform_name method.input) _
          (WhenOk-any (message_at registry transform_name method.input))
          (λ input _.
            rw (no_path_parameters canon input ts empty static, bare, get)
              (WhenOk->>= {D = BuiltOperation × BuildState}
                (λ (c : Container). c ≡ new_schema_container) (Dangles m)
                (build_messages registry transform_name state.tracker (sorted_keys state.tracker)
                  new_schema_container)
                _
                (build_messages-known state.tracker (sorted_keys state.tracker) new_schema_container
                  known)
                (λ c same. (ap (λ (d : Container). d.schemas) same, e))))

    -- Where `buildOperation` builds the first operation of a method whose response is a well-known
    -- message, and the operation is a GET without parameters and every message used so far is well
    -- known, the response refers to a schema under that message's name, while no schema at all comes
    -- with the operation.
    pub build_first-Dangles :
        (m : Message) (method : ApiMethod) (operation : Operation) (options : Option ServiceOptions)
        (state : BuildState) (ts : List RouteToken)
        → get_elem? registry method.output ≡ some m
        → is_well_known m ≡ true
        → text_eq operation.method (codes "GET") ≡ true
        → operation.query ≡ []
        → parse_route operation.route ≡ ok ts
        → All (λ t. t.is_param ≡ false) ts
        → AllKnown registry state.tracker
        → WhenOk
            (Dangles m)
            (build_first registry transform_name camel_split method operation options state)
    unfolding build_first message_at route_parsed of_pointer start_operation add
    build_first-Dangles m method operation options state ts found known get bare parsed static all =
        let (mapper, canon) = store_canonical_route operation.route ts state.mapper in
        rw (parsed, found)
          (WhenOk->>= {D = BuiltOperation × BuildState} (λ _. Unit {0}) (Dangles m)
            (snake_route ts canon) _ (WhenOk-any (snake_route ts canon))
            (λ route _.
              WhenOk->>= {D = BuiltOperation × BuildState} (λ _. Unit {0}) (Dangles m)
                (operation_extensions camel_split transform_name method operation options) _
                (WhenOk-any
                  (operation_extensions camel_split transform_name method operation options))
                (λ labels _.
                  let (proxy, tracker) = add method.output m.fully_qualified_name state.tracker in
                  finish_operation-Dangles m method operation ts canon route
                    (start_operation registry transform_name camel_split method operation m proxy
                      labels)
                    (record { mapper = mapper; tracker = tracker }) get bare static
                    (add-AllKnown registry method.output m state.tracker found known all) refl)))
