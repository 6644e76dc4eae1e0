-- ===== src/Method/Context/Laws.antt =====
-- The parameters that `methodContext` gives to the templates.
use protoc_gen_apigw.Method.Params.{
  Written, query_param, query_params, route_param, route_params, MethodInfo,
}
use protoc_gen_apigw.Base.Outcome.{exhausted, panic, err, ◌>>=◌, Outcome, ok}
use protoc_gen_apigw.Base.{
  is_empty, sym, none, some, Option, refl, inl, inr, Bool-cases, map, ◌≡◌, [], ℕ, if◌then◌else◌,
  ◌∷◌, List,
}
use protoc_gen_apigw.Method.Context.{
  http_method_of, operation_context, context_of_route, method_context, route_valid,
  template_context, finish_method_context, MethodTemplateContext,
}
use mathlib.Core.Path.{subst}
use protoc_gen_apigw.Base.Sorting.{sort_by-Perm, sort_by}
use mathlib.Core.List.{Perm}
use protoc_gen_apigw.Route.{parse_route, RouteToken}
use protoc_gen_apigw.Api.{Operation}
use protoc_gen_apigw.Descriptor.{Field, Message}
use protoc_gen_apigw.Base.Text.{split, Text}
use protoc_gen_apigw.Method.FieldPath.{path2field_numbers}
use protoc_gen_apigw.Method.Converter.{ParamContext, ImportTracker}
use mathlib.Core.List.Perm

abbrev pub param_names : List RouteToken → List Text
param_names [] = []
param_names (part ∷ parts) =
    if part.is_param then part.param_name ∷ param_names parts else param_names parts

module _ (registry : List Message) (method : MethodInfo) where
  abbrev Named : Text → Outcome (ParamContext × ImportTracker × ℕ) → Type 0
  Named name (ok (p, ix, offset)) = p.param_name ≡ name
  Named name _ = Unit

  Named->>= :
      (name : Text) (m : Outcome (ParamContext × ImportTracker × ℕ))
      → Named name (m >>= λ (fc, ix, offset). ok (record fc { param_name = name }, ix, offset))
  Named->>= name (ok r) = refl
  Named->>= name (err e) = tt
  Named->>= name (panic e) = tt
  Named->>= name exhausted = tt

  Named-after :
      (name : Text) (m : Outcome (List ℕ × Option Field))
      (g : List ℕ × Option Field → Outcome (ParamContext × ImportTracker × ℕ))
      → ((x : List ℕ × Option Field) → Named name (g x))
      → Named name (m >>= g)
  Named-after name (ok x) g h = h x
  Named-after name (err e) g h = tt
  Named-after name (panic e) g h = tt
  Named-after name exhausted g h = tt

  route_param-Named :
      (part : RouteToken) (ix : ImportTracker) (offset : ℕ)
      → Named part.param_name (route_param registry method part ix offset)
  unfolding route_param
  route_param-Named part ix offset =
      Named-after part.param_name
        (path2field_numbers registry (split part.param_name b'.') method.input) _
        (λ x. Named->>= part.param_name _)

  query_param-Named :
      (param target values : Text) (ix : ImportTracker) (offset : ℕ)
      → Named param (query_param registry method param target values ix offset)
  unfolding query_param
  query_param-Named param target values ix offset =
      Named-after param (path2field_numbers registry (target ∷ []) method.input) _
        (λ x. Named->>= param _)

  -- Parameters with these names.
  abbrev AllNamed : List Text → Outcome Written → Type 0
  AllNamed names (ok (ps, ix, offset)) = map (λ p. p.param_name) ps ≡ names
  AllNamed names _ = Unit

  AllNamed-cons :
      (name : Text) (names : List Text) (p : ParamContext) (r : Outcome Written)
      → p.param_name ≡ name
      → AllNamed names r
      → AllNamed (name ∷ names) (r >>= λ (rest, ix, last). ok (p ∷ rest, ix, last))
  AllNamed-cons name names p (ok (rest, ix, last)) e h = rw (e, h) refl
  AllNamed-cons name names p (err e) _ h = tt
  AllNamed-cons name names p (panic e) _ h = tt
  AllNamed-cons name names p exhausted _ h = tt

  AllNamed->>= :
      (name : Text) (names : List Text) (m : Outcome (ParamContext × ImportTracker × ℕ))
      (f : ImportTracker → ℕ → Outcome Written)
      → Named name m
      → ((ix : ImportTracker) (offset : ℕ) → AllNamed names (f ix offset))
      → AllNamed
          (name ∷ names)
          (m >>= λ (fc, ix, offset). f ix offset >>= λ (rest, ix', last). ok (fc ∷ rest, ix', last))
  AllNamed->>= name names (ok (p, ix, offset)) f e h = AllNamed-cons name names p _ e (h ix offset)
  AllNamed->>= name names (err e) f _ h = tt
  AllNamed->>= name names (panic e) f _ h = tt
  AllNamed->>= name names exhausted f _ h = tt

  route_params-AllNamed :
      (parts : List RouteToken) (ix : ImportTracker) (offset : ℕ)
      → AllNamed (param_names parts) (route_params registry method parts ix offset)
  unfolding route_params
  route_params-AllNamed [] ix offset = refl
  route_params-AllNamed (part ∷ parts) ix offset = elim (Bool-cases part.is_param) [
    | inr static ↦ rw static (route_params-AllNamed parts ix offset)
    | inl taken ↦ rw taken (
        AllNamed->>= part.param_name (param_names parts)
          (route_param registry method part ix offset) (route_params registry method parts)
          (route_param-Named part ix offset) (route_params-AllNamed parts))
  ]

  query_params-AllNamed :
      (params : List (Text × Text)) (values : Text) (ix : ImportTracker) (offset : ℕ)
      → AllNamed (map (λ q. q.0) params) (query_params registry method params values ix offset)
  unfolding query_params
  query_params-AllNamed [] values ix offset = refl
  query_params-AllNamed ((param, target) ∷ params) values ix offset =
      AllNamed->>= param (map (λ q. q.0) params)
        (query_param registry method param target values ix offset)
        (query_params registry method params values)
        (query_param-Named param target values ix offset) (query_params-AllNamed params values)

  -- The parameters of a context: those of the parsed route, in its order, and one for each of the
  -- operation's query parameters.
  abbrev pub HasParams : Operation → Outcome (Option MethodTemplateContext × ImportTracker) → Type 0
  HasParams operation (ok (some context, ix)) =
      ((parts : List RouteToken) × (parse_route operation.route ≡ ok parts)
        × (map (λ p. p.param_name) context.route_params ≡ param_names parts))
      × Perm (map (λ p. p.param_name) context.query_params) (map (λ q. q.0) operation.query)
  HasParams operation (ok (none, ix)) = ⊥
  HasParams operation _ = Unit

  finish-HasParams :
      (operation : Operation) (http_method : Option Text) (values : Text) (parts : List RouteToken)
      (rpc qpc : List ParamContext) (ix : ImportTracker)
      → parse_route operation.route ≡ ok parts
      → map (λ p. p.param_name) rpc ≡ param_names parts
      → map (λ p. p.param_name) qpc ≡ map (λ q. q.0) (sort_by (λ q. q.0) operation.query)
      → HasParams operation (
          finish_method_context registry method operation http_method values rpc
            (sort_by (λ q. q.param_name) qpc)
            ix)
  unfolding finish_method_context template_context
  finish-HasParams operation none values parts rpc qpc ix e r q = tt
  finish-HasParams operation (some http_method) values parts rpc qpc ix e r q =
      let by_name =
        Perm.map (λ p. p.param_name) (Perm.symm (sort_by-Perm (λ q. q.param_name) qpc)) in
      let by_param = Perm.map (λ q. q.0) (Perm.symm (sort_by-Perm (λ q. q.0) operation.query)) in
      (
        (parts, e, r),
        Perm.trans by_name
            (subst (λ ns. Perm ns (map (λ q. q.0) operation.query)) (sym q) by_param),
      )

  HasParams->>= :
      (operation : Operation) (names : List Text) (m : Outcome Written)
      (f : Written → Outcome (Option MethodTemplateContext × ImportTracker))
      → AllNamed names m
      → ((w : Written) → map (λ p. p.param_name) w.0 ≡ names → HasParams operation (f w))
      → HasParams operation (m >>= f)
  HasParams->>= operation names (ok w) f h k = k w h
  HasParams->>= operation names (err e) f h k = tt
  HasParams->>= operation names (panic e) f h k = tt
  HasParams->>= operation names exhausted f h k = tt

  context_of_route-HasParams :
      (operation : Operation) (parts : List RouteToken) (w : Written)
      → parse_route operation.route ≡ ok parts
      → map (λ p. p.param_name) w.0 ≡ param_names parts
      → HasParams operation (context_of_route registry method operation w)
  unfolding context_of_route
  context_of_route-HasParams operation parts (rpc, ix, offset) e h =
      let sorted = sort_by (λ q. q.0) operation.query in
      HasParams->>= operation (map (λ q. q.0) sorted) _ _ (query_params-AllNamed sorted _ ix _)
        (λ (qpc, ix', last) named.
          finish-HasParams operation (http_method_of operation.method) _ parts rpc qpc ix' e h
            named)

  of_parsed :
      (operation : Operation) (r : Outcome (List RouteToken)) (ix : ImportTracker)
      → parse_route operation.route ≡ r
      → HasParams operation (
          route_valid registry method r >>= λ parts.
          route_params registry method parts ix 0 >>= context_of_route registry method operation)
  of_parsed operation (ok parts) ix e =
      HasParams->>= operation (param_names parts) (route_params registry method parts ix 0) _
        (route_params-AllNamed parts ix 0) (λ w h. context_of_route-HasParams operation parts w e h)
  of_parsed operation (err m) ix e = tt
  of_parsed operation (panic m) ix e = tt
  of_parsed operation exhausted ix e = tt

  -- For a method with one operation, where `methodContext` returns a context, that context has one
  -- converter for each parameter of the operation's parsed route, named like it and in the order of
  -- the route, and one for each query parameter of the operation, named like it.
  pub method_context-HasParams :
      (operation : Operation) (ix : ImportTracker)
      → method.operations ≡ operation ∷ []
      → HasParams operation (method_context registry method ix)
  unfolding method_context operation_context
  method_context-HasParams operation ix e = rw e (elim (Bool-cases (is_empty operation.route)) [
    | inl empty ↦ rw empty tt
    | inr other ↦ rw other (of_parsed operation (parse_route operation.route) _ refl)
  ])
