-- ===== src/OpenApi/Operation/Build/Assembled.antt =====
-- The end of `buildOperation`: the request body, and the schemas of the tracked messages.
use protoc_gen_apigw.OpenApi.Schema.Build.Proper.{IsProper}
use protoc_gen_apigw.OpenApi.Operation.Build.Closed.{add_input-Reference, Reference, IsOwn}
use protoc_gen_apigw.OpenApi.Tracker.{sorted_keys, add_input, MsgTracker}
use protoc_gen_apigw.Base.{◌||◌, get_elem?, ℕ, sym, ◌≡◌, none, All, some, List, Option}
use protoc_gen_apigw.OpenApi.Operation.Build.{build_messages, Collected, request_body}
use protoc_gen_apigw.Api.{Operation}
use protoc_gen_apigw.OpenApi.Operation.Build.Parameters.{
  parameters_mono, IsSound, AllOk->>=, AllOk-if, ParameterResolves,
}
use protoc_gen_apigw.OpenApi.Operation.Build.Messages.{sorted_messages-AllFilled, IsTracked}
use protoc_gen_apigw.OpenApi.Tracker.Keys.{HasKey}
use protoc_gen_apigw.OpenApi.Schema.Closed.{Grows}
use protoc_gen_apigw.OpenApi.Schema.Container.{Container, ref_to}
use protoc_gen_apigw.Base.Outcome.{ok, ◌>>=◌}
use protoc_gen_apigw.OpenApi.Operation.Data.{ApiOperation, ApiMethod, BuildState, BuiltOperation}
use protoc_gen_apigw.Base.Text.{codes, text_eq, Text}
use protoc_gen_apigw.Base.OrderedMap.{OrderedMap}
use protoc_gen_apigw.OpenApi.Schema.Ensures.{AllOk, Resolves}
use mathlib.Core.Path.{subst}
use protoc_gen_apigw.OpenApi.Schema.Data.{SchemaProxy}
use protoc_gen_apigw.Descriptor.{Message}

-- The schema of a request body, if there is one, refers to schemas that are there.
abbrev pub BodyResolves : Option SchemaProxy → OrderedMap SchemaProxy → Type 0
BodyResolves none s = Unit
BodyResolves (some p) s = Resolves p s

-- Every reference of an operation resolves in the schemas.
abbrev pub RefersTo : ApiOperation → OrderedMap SchemaProxy → Type 0
RefersTo op s =
    Resolves op.response_schema s
    × All (λ p. ParameterResolves p s) op.parameters
    × BodyResolves op.request_body s

-- Every reference of a built operation, and of the schemas built with it, resolves in those schemas,
-- which stand under different keys.
abbrev pub IsSelfContained : BuiltOperation → Type 0
IsSelfContained built = IsProper built.schemas × RefersTo built.operation built.schemas

module _ (registry : List Message) where
  -- What `buildOperation` leaves where it returns: no operation, or one that is self-contained; and
  -- a tracker that the next call may start from.
  abbrev pub Leaves : Option BuiltOperation × BuildState → Type 0
  Leaves (none, state) = IsTracked registry state.tracker
  Leaves (some built, state) = IsTracked registry state.tracker × IsSelfContained built

  -- What the part for the request body leaves of a tracker.
  abbrev pub BodyTracked : MsgTracker → Option SchemaProxy × MsgTracker → Type 0
  BodyTracked tracker (none, tracker') =
      IsTracked registry tracker' × ((k : Text) → HasKey tracker k → HasKey tracker' k)
  BodyTracked tracker (some p, tracker') =
      IsTracked registry tracker'
      × ((k : Text) → HasKey tracker k → HasKey tracker' k)
      × ((k : Text) × (p ≡ ref_to k) × HasKey tracker' k)

module _ (registry : List Message) (transform_name : Text → Text) where
  request_body-BodyTracked :
      (http_method : Text) (id : ℕ) (m : Message) (filter : List Text) (tracker : MsgTracker)
      → get_elem? registry id ≡ some m
      → IsOwn registry id
      → IsTracked registry tracker
      → AllOk
          (BodyTracked registry tracker)
          (request_body registry transform_name http_method id m filter tracker)
  unfolding request_body
  request_body-BodyTracked http_method id m filter tracker found own tracked =
      AllOk-if (BodyTracked registry tracker)
        (text_eq http_method (codes "GET") || text_eq http_method (codes "HEAD")) _ _
        (tracked, λ k h. h)
        (AllOk->>= (Reference registry id m found (own m found) tracker)
          (BodyTracked registry tracker) (add_input id m.fully_qualified_name filter tracker) _
          (add_input-Reference registry id m found (own m found) filter tracker tracked)
          (λ (p, tracker') h. h))

  body_tracked :
      (tracker : MsgTracker) (body : Option SchemaProxy) (tracker' : MsgTracker)
      → BodyTracked registry tracker (body, tracker')
      → IsTracked registry tracker'
  body_tracked tracker none tracker' (tracked, kept) = tracked
  body_tracked tracker (some p) tracker' (tracked, kept, here) = tracked

  module _ (camel_split : Text → List Text) where
    -- The end of `finish_operation`, once the schemas are built.
    finished :
        (body : Option SchemaProxy) (tracker tracker' : MsgTracker) (s : OrderedMap SchemaProxy)
        → BodyTracked registry tracker (body, tracker')
        → ((k : Text) → HasKey tracker' k → Resolves (ref_to k) s)
        → IsTracked registry tracker'
          × BodyResolves body s
          × ((k : Text) → HasKey tracker k → Resolves (ref_to k) s)
    finished none tracker tracker' s (tracked, kept) filled =
        (tracked, tt, λ k h. filled k (kept k h))
    finished (some p) tracker tracker' s (tracked, kept, (k, e, has)) filled =
        (tracked, subst (λ q. Resolves q s) (sym e) (filled k has), λ j h. filled j (kept j h))

    -- The part of `finish_operation` after the loops over the parameters.
    pub assembled-Leaves :
        (method : ApiMethod) (operation : Operation) (route : Text) (op : ApiOperation)
        (state : BuildState) (input : Message) (done : Collected)
        → get_elem? registry method.input ≡ some input
        → IsOwn registry method.input
        → IsTracked registry state.tracker
        → (k : Text) × (op.response_schema ≡ ref_to k) × HasKey state.tracker k
        → IsSound done
        → AllOk
            (λ out. Leaves registry (some out.0, out.1))
            (◌>>=◌ {B = BuiltOperation × BuildState}
              (request_body registry transform_name operation.method method.input input
                done.input_filter state.tracker)
              (λ out.
                ◌>>=◌ {B = BuiltOperation × BuildState}
                  (build_messages registry transform_name out.1 (sorted_keys out.1) done.container)
                  (λ container. ok (
                    record {
                      method = operation.method;
                      route = route;
                      operation = record op { parameters = done.parameters; request_body = out.0 };
                      schemas = container.schemas;
                    },
                    record state { tracker = out.1 },
                  ))))
    assembled-Leaves method operation route op state input done found own tracked (k, e, has)
          (closed, params) =
        AllOk->>= {D = BuiltOperation × BuildState} (BodyTracked registry state.tracker)
          (λ out. Leaves registry (some out.0, out.1))
          (request_body registry transform_name operation.method method.input input
            done.input_filter state.tracker)
          _
          (request_body-BodyTracked operation.method method.input input done.input_filter
            state.tracker found own tracked)
          (λ (body, tracker) h.
            AllOk->>= {D = BuiltOperation × BuildState}
              (λ (x : Container).
                Grows done.container.schemas x.schemas
                × IsProper x.schemas
                × ((j : Text) → HasKey tracker j → Resolves (ref_to j) x.schemas))
              (λ out. Leaves registry (some out.0, out.1))
              (build_messages registry transform_name tracker (sorted_keys tracker) done.container)
              _
              (sorted_messages-AllFilled registry transform_name tracker done.container
                (body_tracked state.tracker body tracker h) closed)
              (λ c (grows, closed', filled).
                let (tracked', resolved, kept) =
                  finished body state.tracker tracker c.schemas h filled in
                (
                  tracked',
                  (
                    closed',
                    (
                      subst (λ q. Resolves q c.schemas) (sym e) (kept k has),
                      parameters_mono done.parameters grows params,
                      resolved,
                    ),
                  ),
                )))
