-- ===== src/OpenApi/Service/Listing.antt =====
-- The paths of a service's document against an abstract map from routes and verbs to operations.
-- Whether an operation was built for this verb of this route.
use protoc_gen_apigw.Base.{
  sym, ap, ◌∙◌, ◌++◌, inl, inr, Bool-cases, false, refl, ◌&&◌, if◌then◌else◌, none, ◌≡◌, Bool, ◌∷◌,
  some, [], List, Option,
}
use protoc_gen_apigw.OpenApi.Document.{
  head_verb, patch_verb, delete_verb, put_verb, post_verb, get_verb, item_at, verb_of, Verb,
  Document,
}
use protoc_gen_apigw.OpenApi.Service.{
  service_of, extensions_of, ServiceDocument, empty_document, ApiService, build_methods,
  build_open_api_service, add_built, operation_failed,
}
use protoc_gen_apigw.Base.Returns.{WhenOk-weaken, WhenOk->>=, WhenOk-after, WhenOk}
use protoc_gen_apigw.OpenApi.Operation.Build.{build_operation}
use protoc_gen_apigw.Canonical.{Mapper}
use protoc_gen_apigw.OpenApi.Operation.Data.{BuildState, ApiMethod, ApiOperation, BuiltOperation}
use protoc_gen_apigw.Api.{ServiceOptions}
use protoc_gen_apigw.Base.OrderedMap.{value}
use protoc_gen_apigw.Descriptor.{Message}
use protoc_gen_apigw.OpenApi.Service.Adding.{verb_is_iff, verb_is}
use mathlib.Core.Path.{subst}
use protoc_gen_apigw.Base.Text.Laws.{text_eq_iff}
use protoc_gen_apigw.Base.Outcome.{exhausted, panic, err, ok, Outcome}
use protoc_gen_apigw.OpenApi.Document.Laws.{AddsIf, add_operation-verb_of, operation_at}
use protoc_gen_apigw.Base.Text.{text_eq, Text}

abbrev pub is_built_for : BuiltOperation → Text → Verb → Bool
is_built_for built r v =
    text_eq built.route r && elim (verb_of built.method) [ none ↦ false | some w ↦ verb_is w v ]

-- The abstract document: an operation replaces the one that was there for its route and verb.
abbrev pub listed : List BuiltOperation → Text → Verb → Option ApiOperation → Option ApiOperation
listed [] r v before = before
listed (built ∷ rest) r v before =
    listed rest r v (if is_built_for built r v then some built.operation else before)

abbrev of_option : Option BuiltOperation → List BuiltOperation
of_option none = []
of_option (some built) = built ∷ []

AddsIf-step :
    (built : BuiltOperation) (doc : Document ApiOperation) (verb : Option Verb)
    (out : Outcome (Document ApiOperation))
    → verb_of built.method ≡ verb
    → AddsIf built.route built.operation built.schemas doc verb out
    → WhenOk
        (λ doc'.
          (r : Text) (v : Verb)
          → operation_at r v doc' ≡ listed (built ∷ []) r v (operation_at r v doc))
        out
AddsIf-step built doc (some verb) (ok doc') e (added, _) = λ r v.
    rw e (elim (Bool-cases (text_eq built.route r)) [
      | inr other ↦
          rw other (added.other_paths r v (λ e'. let same = (text_eq_iff built.route r).1 e' in cc))
      | inl same ↦
          subst
            (λ t. operation_at t v doc' ≡ (
              if text_eq built.route t && verb_is verb v
              then some built.operation
              else operation_at t v doc))
            ((text_eq_iff built.route r).0 same)
            (rw ((text_eq_iff built.route built.route).1 refl) (elim (Bool-cases (verb_is verb v)) [
              | inl here ↦ rw here (
                  subst (λ w. operation_at built.route w doc' ≡ some built.operation)
                    ((verb_is_iff verb v).0 here) added.there)
              | inr apart ↦
                  rw apart (added.other_verbs v (λ e'. let here = (verb_is_iff verb v).1 e' in cc))
            ]))
    ])
AddsIf-step built doc none (panic t) e h = tt
AddsIf-step built doc none (ok d) e h = absurd h
AddsIf-step built doc (some verb) (panic t) e h = absurd h
AddsIf-step built doc (some verb) (err t) e h = absurd h
AddsIf-step built doc (some verb) exhausted e h = absurd h
AddsIf-step built doc none (err t) e h = absurd h
AddsIf-step built doc none exhausted e h = absurd h

add_built-step :
    (built : Option BuiltOperation) (doc : Document ApiOperation)
    → WhenOk
        (λ doc'.
          (r : Text) (v : Verb)
          → operation_at r v doc' ≡ listed (of_option built) r v (operation_at r v doc))
        (add_built built doc)
unfolding add_built
add_built-step none doc = λ r v. refl
add_built-step (some built) doc =
    AddsIf-step built doc (verb_of built.method) _ refl
      (add_operation-verb_of built.route built.method built.operation built.schemas doc)

operation_failed-WhenOk :
    {A : Type 0} (fqn : Text) (m : Outcome A) → WhenOk (λ a. m ≡ ok a) (operation_failed fqn m)
unfolding operation_failed
operation_failed-WhenOk fqn (ok a) = refl
operation_failed-WhenOk fqn (err e) = tt
operation_failed-WhenOk fqn (panic e) = tt
operation_failed-WhenOk fqn exhausted = tt

listed-append :
    (xs ys : List BuiltOperation) (r : Text) (v : Verb) (before : Option ApiOperation)
    → listed (xs ++ ys) r v before ≡ listed ys r v (listed xs r v before)
listed-append [] ys r v before = refl
listed-append (x ∷ xs) ys r v before =
    listed-append xs ys r v (if is_built_for x r v then some x.operation else before)

module _ (registry : List Message) (transform_name : Text → Text)
    (camel_split : Text → List Text) where
  -- The operations are those that `buildOperation` returns for the methods one after the other, each
  -- call in the state that the one before it left; a method without operations gives none.
  abbrev pub Builds :
      List ApiMethod
      → Option ServiceOptions
      → BuildState
      → List BuiltOperation
      → BuildState
      → Type 0
  Builds [] options state all last = (all ≡ []) × (last ≡ state)
  Builds (m ∷ ms) options state all last =
      (built : Option BuiltOperation) × (next : BuildState) × (rest : List BuiltOperation)
      × (build_operation registry transform_name camel_split m options state ≡ ok (built, next))
      × (all ≡ of_option built ++ rest)
      × Builds ms options next rest last

  -- The document lists what the methods build, over what it listed before.
  abbrev pub Lists :
      List ApiMethod
      → Option ServiceOptions
      → BuildState
      → Document ApiOperation
      → Document ApiOperation × BuildState
      → Type 0
  Lists ms options state doc out =
      (all : List BuiltOperation) × Builds ms options state all out.1
      × ((r : Text) (v : Verb) → operation_at r v out.0 ≡ listed all r v (operation_at r v doc))

  build_methods-Lists :
      (ms : List ApiMethod) (options : Option ServiceOptions) (state : BuildState)
      (doc : Document ApiOperation)
      → WhenOk
          (Lists ms options state doc)
          (build_methods registry transform_name camel_split ms options state doc)
  unfolding build_methods
  build_methods-Lists [] options state doc = ([], (refl, refl), λ r v. refl)
  build_methods-Lists (m ∷ ms) options state doc =
      let call = build_operation registry transform_name camel_split m options state in
      WhenOk->>= {D = Document ApiOperation × BuildState} (λ a. call ≡ ok a)
        (Lists (m ∷ ms) options state doc) (operation_failed m.fully_qualified_name call) _
        (operation_failed-WhenOk m.fully_qualified_name call)
        (λ (built, next) returned.
          WhenOk->>= {D = Document ApiOperation × BuildState}
            (λ doc'.
              (r : Text) (v : Verb)
              → operation_at r v doc' ≡ listed (of_option built) r v (operation_at r v doc))
            (Lists (m ∷ ms) options state doc) (add_built built doc) _ (add_built-step built doc)
            (λ doc' step.
              WhenOk-weaken (Lists ms options next doc') (Lists (m ∷ ms) options state doc)
                (build_methods registry transform_name camel_split ms options next doc')
                (λ out (rest, builds, views). (
                  of_option built ++ rest,
                  (built, next, rest, returned, refl, builds),
                  λ r v.
                      views r v
                      ∙ ap (listed rest r v) (step r v)
                      ∙ sym (listed-append (of_option built) rest r v (operation_at r v doc)),
                ))
                (build_methods-Lists ms options next doc')))

  empty_document-operation : (r : Text) (v : Verb) → operation_at r v empty_document ≡ none
  unfolding value operation_at item_at
  empty_document-operation r get_verb = refl
  empty_document-operation r post_verb = refl
  empty_document-operation r put_verb = refl
  empty_document-operation r delete_verb = refl
  empty_document-operation r patch_verb = refl
  empty_document-operation r head_verb = refl

  -- A document that `buildOpenAPIService` returns lists, for every route and verb, the last of the
  -- operations that `buildOperation` returned for them when it was called for the service's methods in
  -- their order, from an empty tracker and the mapper that was given; it lists nothing else, and the
  -- mapper that is returned is the one that the last call left.
  pub build_open_api_service-Lists :
      (service : ApiService) (mapper : Mapper)
      → WhenOk
          (λ out.
            (all : List BuiltOperation) × (last : BuildState) × Builds service.methods
              service.options
              (record { mapper = mapper; tracker = [] })
              all
              last
            × (out.1 ≡ last.mapper)
            × ((r : Text) (v : Verb) → operation_at r v out.0.document ≡ listed all r v none))
          (build_open_api_service registry transform_name camel_split service mapper)
  unfolding build_open_api_service
  build_open_api_service-Lists service mapper =
      let start : BuildState = record { mapper = mapper; tracker = [] } in
      WhenOk-after {D = ServiceDocument × Mapper} _
        (extensions_of service.fully_qualified_name service.deprecated (service_of service.options))
        _
        (λ extensions.
          WhenOk->>= {D = ServiceDocument × Mapper}
            (Lists service.methods service.options start empty_document) _
            (build_methods registry transform_name camel_split service.methods service.options start
              empty_document)
            _ (build_methods-Lists service.methods service.options start empty_document)
            (λ (doc, last) (all, builds, views). (
              all,
              last,
              builds,
              refl,
              λ r v. views r v ∙ ap (listed all r v) (empty_document-operation r v),
            )))
