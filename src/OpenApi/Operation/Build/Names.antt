-- ===== src/OpenApi/Operation/Build/Names.antt =====
-- The names that the loops of `buildOperation` give to the parameters and write into the route.
use protoc_gen_apigw.Base.Returns.{WhenOk-any, WhenOk-weaken, WhenOk->>=, WhenOk-if, WhenOk}
use protoc_gen_apigw.OpenApi.Operation.Build.{
  edge_schema, named_parameter, Collected, path_parameter, path_parameters, query_parameter,
  query_parameters,
}
use protoc_gen_apigw.Canonical.{param_part, snake_route, CanonicalRoute}
use protoc_gen_apigw.Route.{RouteToken}
use protoc_gen_apigw.OpenApi.Schema.Container.{Container}
use protoc_gen_apigw.OpenApi.Operation.Data.{in_path, in_query, Location, Parameter}
use protoc_gen_apigw.Base.{
  inr, ◌∙◌, ap, append-nil, inl, refl, Option-cases, get_elem?, none, sym, ◌++◌, ◌∷◌, if◌then◌else◌,
  map, some, true, [], ◌≡◌, List, Option,
}
use protoc_gen_apigw.Base.Outcome.{ok}
use protoc_gen_apigw.Method.Context.Laws.{param_names}
use protoc_gen_apigw.Route.Render.{render, render_token}
use protoc_gen_apigw.Descriptor.{Message}
use protoc_gen_apigw.Base.Text.{Text}

abbrev or_empty : Option Text → Text
or_empty none = []
or_empty (some name) = name

-- A token under the name that the canonical route has for its parameter.
unfoldable pub renamed : CanonicalRoute → RouteToken → RouteToken
renamed canon t =
    if t.is_param
    then record t { param_name = or_empty (get_elem? canon.params t.param_index) }
    else t

-- Where a parameter stands, and its name.
abbrev pub label : Parameter → Location × Text
label p = (p.location, p.name)

abbrev pub in_path_as : Text → Location × Text
in_path_as name = (in_path, name)

abbrev pub in_query_as : Text × Text → Location × Text
in_query_as q = (in_query, q.0)

module _ (canon : CanonicalRoute) where
  param_part-name :
      (t : RouteToken)
      → t.is_param ≡ true
      → WhenOk (λ part. part ≡ render_token (renamed canon t)) (param_part canon t.param_index)
  unfolding param_part render_token renamed
  param_part-name t h = elim (Option-cases (get_elem? canon.params t.param_index)) [
    | inl missing ↦ rw (missing, param_part) tt
    | inr (name, there) ↦ rw (there, param_part, h) refl
  ]

  pub snake_route-renamed :
      (ts : List RouteToken)
      → WhenOk (λ r. r ≡ render (map (renamed canon) ts)) (snake_route ts canon)
  unfolding snake_route render
  snake_route-renamed [] = refl
  snake_route-renamed (t ∷ ts) =
      WhenOk->>= {D = Text} (λ part. part ≡ render_token (renamed canon t)) _
        (if t.is_param then param_part canon t.param_index else ok t.value) _
        (WhenOk-if (λ part. part ≡ render_token (renamed canon t)) t.is_param
          (param_part canon t.param_index) (ok t.value) (param_part-name t)
          (λ h. unfold render_token in unfold renamed in rw h refl))
        (λ part e.
          WhenOk->>= {D = Text} (λ r. r ≡ render (map (renamed canon) ts)) _ (snake_route ts canon)
            _ (snake_route-renamed ts) (λ rest e'. rw (e, e') refl))

-- The labels of the parameters that a loop leaves.
abbrev pub Labelled : Collected → List (Location × Text) → Collected → Type 0
Labelled done names d = map label d.parameters ≡ map label done.parameters ++ names

module _ (registry : List Message) (transform_name : Text → Text) where
  path_parameter-name :
      (canon : CanonicalRoute) (input : Message) (t : RouteToken) (c : Container)
      → WhenOk
          (λ out. label out.0 ≡ in_path_as (or_empty (get_elem? canon.params t.param_index)))
          (path_parameter registry transform_name canon input t c)
  unfolding path_parameter named_parameter
  path_parameter-name canon input t c = elim (Option-cases (get_elem? canon.params t.param_index)) [
    | inl missing ↦ rw missing tt
    | inr (name, there) ↦ rw there (
        WhenOk->>= {D = Parameter × Container} (λ _. Unit {0})
          (λ out. label out.0 ≡ in_path_as name)
          (edge_schema registry transform_name t.param_name input c) _
          (WhenOk-any (edge_schema registry transform_name t.param_name input c)) (λ out _. refl))
  ]

  query_parameter-name :
      (input : Message) (param target : Text) (c : Container)
      → WhenOk
          (λ out. label out.0 ≡ (in_query, param))
          (query_parameter registry transform_name input param target c)
  unfolding query_parameter
  query_parameter-name input param target c =
      WhenOk->>= {D = Parameter × Container} (λ _. Unit {0})
        (λ out. label out.0 ≡ (in_query, param))
        (edge_schema registry transform_name target input c) _
        (WhenOk-any (edge_schema registry transform_name target input c)) (λ out _. refl)

  labels-append :
      (ps : List Parameter) (p : Parameter) (l : Location × Text) (names : List (Location × Text))
      → label p ≡ l
      → map label (ps ++ p ∷ []) ++ names ≡ map label ps ++ l ∷ names
  labels-append [] p l names e = rw e refl
  labels-append (q ∷ ps) p l names e = ap (λ ls. label q ∷ ls) (labels-append ps p l names e)

  pub path_parameters-Labelled :
      (canon : CanonicalRoute) (input : Message) (ts : List RouteToken) (done : Collected)
      → WhenOk
          (Labelled done (map in_path_as (param_names (map (renamed canon) ts))))
          (path_parameters registry transform_name canon input ts done)
  unfolding path_parameters renamed
  path_parameters-Labelled canon input [] done = sym (append-nil (map label done.parameters))
  path_parameters-Labelled canon input (t ∷ ts) done =
      WhenOk-if (Labelled done (map in_path_as (param_names (map (renamed canon) (t ∷ ts)))))
        t.is_param _ _
        (λ h.
          WhenOk->>= {D = Collected}
            (λ out. label out.0 ≡ in_path_as (or_empty (get_elem? canon.params t.param_index)))
            (Labelled done (map in_path_as (param_names (map (renamed canon) (t ∷ ts)))))
            (path_parameter registry transform_name canon input t done.container) _
            (path_parameter-name canon input t done.container)
            (λ (p, c) e.
              let done' : Collected = record {
                parameters = done.parameters ++ p ∷ [];
                input_filter = done.input_filter ++ t.param_name ∷ [];
                container = c;
              } in
              let names = map in_path_as (param_names (map (renamed canon) ts)) in
              WhenOk-weaken (Labelled done' names) _ _
                (λ d g. g ∙ labels-append done.parameters p _ names e ∙ rw h refl)
                (path_parameters-Labelled canon input ts done')))
        (λ h.
          WhenOk-weaken (Labelled done (map in_path_as (param_names (map (renamed canon) ts)))) _ _
            (λ d g. g ∙ rw h refl) (path_parameters-Labelled canon input ts done))

  pub query_parameters-Labelled :
      (input : Message) (qs : List (Text × Text)) (done : Collected)
      → WhenOk
          (Labelled done (map in_query_as qs))
          (query_parameters registry transform_name input qs done)
  unfolding query_parameters
  query_parameters-Labelled input [] done = sym (append-nil (map label done.parameters))
  query_parameters-Labelled input ((param, target) ∷ qs) done =
      WhenOk->>= {D = Collected} (λ out. label out.0 ≡ (in_query, param))
        (Labelled done (map in_query_as ((param, target) ∷ qs)))
        (query_parameter registry transform_name input param target done.container) _
        (query_parameter-name input param target done.container)
        (λ (p, c) e.
          let done' : Collected = record {
            parameters = done.parameters ++ p ∷ [];
            input_filter = done.input_filter ++ target ∷ [];
            container = c;
          } in
          WhenOk-weaken (Labelled done' (map in_query_as qs)) _ _
            (λ d h. h ∙ labels-append done.parameters p (in_query, param) (map in_query_as qs) e)
            (query_parameters-Labelled input qs done'))
