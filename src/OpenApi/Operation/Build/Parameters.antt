-- ===== src/OpenApi/Operation/Build/Parameters.antt =====
-- The parameters of an operation: their schemas refer to schemas that were built, and building them
-- does not run out of fuel.
use protoc_gen_apigw.OpenApi.Schema.Build.Proper.{message-GoodCall-IsProper, IsProper}
use protoc_gen_apigw.Base.{
  false, true, if◌then◌else◌, Bool, inr, get_elem?, inl, All-append, refl, Option-cases, [], none,
  ◌++◌, All, some, ◌∷◌, ◌≡◌, List, Option, ℕ,
}
use protoc_gen_apigw.OpenApi.Operation.Build.{
  query_parameter, named_parameter, edge_schema, message_call, path_parameter, path_parameters,
  query_parameters, Collected, of_pointer,
}
use protoc_gen_apigw.OpenApi.Operation.Data.{Parameter}
use protoc_gen_apigw.OpenApi.Schema.Closed.{Grows-refl, Known-Grows, ProxyClosed-mono, Grows}
use protoc_gen_apigw.OpenApi.Schema.Ensures.{
  Ensures->>=, Ensures-pure, Ensures, GoodCall, Resolves, AllOk,
}
use protoc_gen_apigw.OpenApi.Schema.Build.Parts.{field-closed}
use protoc_gen_apigw.Base.Outcome.{exhausted, panic, err, ok, ◌>>=◌, Outcome}
use protoc_gen_apigw.Base.Text.{split, Text}
use protoc_gen_apigw.Method.FieldPath.{embedded, find_field, go_deeper, follow, path2field_numbers}
use protoc_gen_apigw.Route.{RouteToken}
use protoc_gen_apigw.Canonical.{CanonicalRoute}
use protoc_gen_apigw.Method.Params.{of_edge}
use protoc_gen_apigw.OpenApi.Schema.Container.{Container, Built}
use protoc_gen_apigw.OpenApi.Schema.Data.{SchemaProxy}
use protoc_gen_apigw.Descriptor.{Field, Message}
use protoc_gen_apigw.Base.OrderedMap.{OrderedMap}

-- A call that does not run out of fuel.
abbrev pub Settles : {A : Type 0} → Outcome A → Type 0
Settles m = AllOk (λ _. Unit {0}) m

pub AllOk->>= :
    {A D : Type 0} (P : A → Type 0) (Q : D → Type 0) (m : Outcome A) (f : A → Outcome D)
    → AllOk P m
    → ((a : A) → P a → AllOk Q (f a))
    → AllOk Q (m >>= f)
AllOk->>= P Q (ok a) f h k = k a h
AllOk->>= P Q (err e) f h k = tt
AllOk->>= P Q (panic e) f h k = tt
AllOk->>= P Q exhausted f h k = h

pub AllOk-weaken :
    {A : Type 0} (P Q : A → Type 0) (m : Outcome A) → ((a : A) → P a → Q a) → AllOk P m → AllOk Q m
AllOk-weaken P Q (ok a) f h = f a h
AllOk-weaken P Q (err e) f h = tt
AllOk-weaken P Q (panic e) f h = tt
AllOk-weaken P Q exhausted f h = h

pub AllOk-if :
    {A : Type 0} (P : A → Type 0) (b : Bool) (x y : Outcome A)
    → AllOk P x
    → AllOk P y
    → AllOk P (if b then x else y)
AllOk-if P true x y h k = h
AllOk-if P false x y h k = k

pub AllOk-if_by :
    {A : Type 0} (P : A → Type 0) (b : Bool) (x y : Outcome A)
    → (b ≡ true → AllOk P x)
    → (b ≡ false → AllOk P y)
    → AllOk P (if b then x else y)
AllOk-if_by P true x y h k = h refl
AllOk-if_by P false x y h k = k refl

pub of_pointer-AllOk :
    {A : Type 0} (P : A → Type 0) (o : Option A)
    → ((a : A) → o ≡ some a → P a)
    → AllOk P (of_pointer o)
unfolding of_pointer
of_pointer-AllOk P none h = tt
of_pointer-AllOk P (some a) h = h a refl

of_edge-Settles : (o : Option Field) → Settles (of_edge o)
of_edge-Settles none = tt
of_edge-Settles (some f) = tt

follow-Settles :
    (registry : List Message) (deeper : Message → Outcome (List ℕ × Option Field))
    (path rest : List Text) (m : Message) (found : Option Field)
    → ((n : Message) → Settles (deeper n))
    → Settles (follow registry deeper path rest m found)
unfolding follow go_deeper
follow-Settles registry deeper path rest m none h = tt
follow-Settles registry deeper path [] m (some f) h = tt
follow-Settles registry deeper path (p ∷ ps) m (some f) h =
    elim (Option-cases (embedded registry f.type)) [
      | inl leaf ↦ rw leaf tt
      | inr (n, nested) ↦ rw nested (
          AllOk->>= {D = List ℕ × Option Field} (λ _. Unit {0}) (λ _. Unit {0}) (deeper n) _ (h n)
            (λ a _. tt))
    ]

path2field_numbers-Settles :
    (registry : List Message) (path : List Text) (m : Message)
    → Settles (path2field_numbers registry path m)
unfolding path2field_numbers
path2field_numbers-Settles registry [] m = tt
path2field_numbers-Settles registry (next ∷ rest) m =
    AllOk->>= {D = List ℕ × Option Field} (λ _. Unit {0}) (λ _. Unit {0})
      (follow registry (λ nested. path2field_numbers registry rest nested) (next ∷ rest) rest m
        (find_field next m.fields))
      _
      (follow-Settles registry (λ nested. path2field_numbers registry rest nested) (next ∷ rest)
        rest m (find_field next m.fields) (path2field_numbers-Settles registry rest))
      (λ a _. tt)

-- Where the schema of a parameter refers to.
abbrev pub ParameterResolves : Parameter → OrderedMap SchemaProxy → Type 0
ParameterResolves p s = Resolves p.schema s

-- What holds between the rounds of the loops: every reference resolves.
abbrev pub IsSound : Collected → Type 0
IsSound done =
    IsProper done.container.schemas
    × All (λ p. ParameterResolves p done.container.schemas) done.parameters

pub Resolves-Grows :
    {s t : OrderedMap SchemaProxy} (p : SchemaProxy) → Grows s t → Resolves p s → Resolves p t
Resolves-Grows p g h = ProxyClosed-mono (Known-Grows g) p h

pub parameters_mono :
    {s t : OrderedMap SchemaProxy} (ps : List Parameter)
    → Grows s t
    → All (λ p. ParameterResolves p s) ps
    → All (λ p. ParameterResolves p t) ps
parameters_mono [] g h = tt
parameters_mono (p ∷ ps) g (h, hs) = (Resolves-Grows p.schema g h, parameters_mono ps g hs)

-- One more parameter.
abbrev collected : Collected → Parameter → Text → Container → Collected
collected done p name c = record {
  parameters = done.parameters ++ p ∷ [];
  input_filter = done.input_filter ++ name ∷ [];
  container = c;
}

collect-IsSound :
    (done : Collected) (m : Built Parameter) (name : Text)
    (k : Parameter × Container → Outcome Collected)
    → IsSound done
    → Ensures IsProper ParameterResolves done.container m
    → ((p : Parameter) (c : Container)
        → IsSound (collected done p name c)
        → AllOk IsSound (k (p, c)))
    → AllOk IsSound (m >>= k)
collect-IsSound done (ok (p, c)) name k (closed, own) (g, closed', h) next = next p c (
  closed',
  All-append (λ q. ParameterResolves q c.schemas) done.parameters (p ∷ [])
      (parameters_mono done.parameters g own) (h, tt),
)
collect-IsSound done (err e) name k sound h next = tt
collect-IsSound done (panic e) name k sound h next = tt
collect-IsSound done exhausted name k sound h next = h

module _ (registry : List Message) (transform_name : Text → Text) where
  message_call-GoodCall : GoodCall IsProper (message_call registry transform_name)
  unfolding message_call
  message_call-GoodCall = message-GoodCall-IsProper registry transform_name

  edge_schema-closed :
      (path : Text) (input : Message) (c : Container)
      → IsProper c.schemas
      → Ensures IsProper Resolves c (edge_schema registry transform_name path input c)
  unfolding edge_schema
  edge_schema-closed path input c closed =
      Ensures-pure IsProper (λ _. Unit) Resolves c
        (path2field_numbers registry (split path b'.') input) _
        (path2field_numbers-Settles registry (split path b'.') input)
        (λ (numbers, edge) _.
          Ensures-pure IsProper (λ _. Unit) Resolves c (of_edge edge) _ (of_edge-Settles edge)
            (λ f _.
              field-closed IsProper registry (message_call registry transform_name) f c
                message_call-GoodCall closed))

  path_parameter-closed :
      (canon : CanonicalRoute) (input : Message) (p : RouteToken) (c : Container)
      → IsProper c.schemas
      → Ensures IsProper ParameterResolves c
          (path_parameter registry transform_name canon input p c)
  unfolding path_parameter named_parameter
  path_parameter-closed canon input p c closed =
      elim (Option-cases (get_elem? canon.params p.param_index)) [
        | inl missing ↦ rw missing tt
        | inr (name, found) ↦ rw found (
            Ensures->>= IsProper Resolves ParameterResolves c
              (edge_schema registry transform_name p.param_name input c) _
              (edge_schema-closed p.param_name input c closed)
              (λ q c' g closed' h. (Grows-refl c'.schemas, closed', h)))
      ]

  pub path_parameters-IsSound :
      (canon : CanonicalRoute) (input : Message) (ps : List RouteToken) (done : Collected)
      → IsSound done
      → AllOk IsSound (path_parameters registry transform_name canon input ps done)
  unfolding path_parameters
  path_parameters-IsSound canon input [] done sound = sound
  path_parameters-IsSound canon input (p ∷ ps) done sound =
      AllOk-if IsSound p.is_param _ _
        (collect-IsSound done (path_parameter registry transform_name canon input p done.container)
          p.param_name _ sound (path_parameter-closed canon input p done.container sound.0)
          (λ q c next.
            path_parameters-IsSound canon input ps (collected done q p.param_name c) next))
        (path_parameters-IsSound canon input ps done sound)

  query_parameter-closed :
      (input : Message) (param target : Text) (c : Container)
      → IsProper c.schemas
      → Ensures IsProper ParameterResolves c
          (query_parameter registry transform_name input param target c)
  unfolding query_parameter
  query_parameter-closed input param target c closed =
      Ensures->>= IsProper Resolves ParameterResolves c
        (edge_schema registry transform_name target input c) _
        (edge_schema-closed target input c closed)
        (λ q c' g closed' h. (Grows-refl c'.schemas, closed', h))

  pub query_parameters-IsSound :
      (input : Message) (qs : List (Text × Text)) (done : Collected)
      → IsSound done
      → AllOk IsSound (query_parameters registry transform_name input qs done)
  unfolding query_parameters
  query_parameters-IsSound input [] done sound = sound
  query_parameters-IsSound input ((param, target) ∷ qs) done sound =
      collect-IsSound done
        (query_parameter registry transform_name input param target done.container) target _ sound
        (query_parameter-closed input param target done.container sound.0)
        (λ q c next. query_parameters-IsSound input qs (collected done q target c) next)
