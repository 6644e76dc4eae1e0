-- ===== src/OpenApi/Service/Adding.antt =====
-- What `addOperation` keeps of a document whose references resolve.
use protoc_gen_apigw.Base.{
  Bool, true, zero, suc, ==_iff, some-eq, ap, ◌∙◌, inl, inr, refl, [], sym, ◌==◌, ◌∷◌, Bool-cases,
  none, All, some, ◌≢◌, ◌⊎◌, ◌≡◌, List, Option, ℕ,
}
use protoc_gen_apigw.OpenApi.Service.Merge.{Known-added, Known-kept, IsProper-set_all}
use protoc_gen_apigw.OpenApi.Service.{add_built}
use protoc_gen_apigw.Base.Text.Laws.{text_eq_iff}
use protoc_gen_apigw.OpenApi.Document.{
  head_verb, patch_verb, delete_verb, verb_of, put_verb, post_verb, get_verb, Document, Verb,
}
use protoc_gen_apigw.Base.Outcome.{exhausted, panic, err, ok, Outcome}
use protoc_gen_apigw.Base.Text.{text_eq, Text}
use protoc_gen_apigw.OpenApi.Operation.Build.Parameters.{ParameterResolves}
use protoc_gen_apigw.OpenApi.Document.Laws.{add_operation-verb_of, Added, AddsIf, operation_at}
use mathlib.Core.Path.{subst}
use protoc_gen_apigw.Base.OrderedMap.{set_all, OrderedMap}
use protoc_gen_apigw.OpenApi.Schema.Closed.{ProxyClosed-mono, Known}
use protoc_gen_apigw.OpenApi.Operation.Build.Assembled.{BodyResolves, IsSelfContained, RefersTo}
use protoc_gen_apigw.OpenApi.Operation.Data.{BuiltOperation, Parameter, ApiOperation}
use protoc_gen_apigw.OpenApi.Schema.Ensures.{AllOk}
use protoc_gen_apigw.OpenApi.Schema.Data.{SchemaProxy}
use protoc_gen_apigw.OpenApi.Schema.Build.Proper.{IsProper}

-- The schemas are proper, and the references of every operation resolve among them.
abbrev pub IsSoundDocument : Document ApiOperation → Type 0
IsSoundDocument doc =
    IsProper doc.schemas
    × ((r : Text) (v : Verb) (op : ApiOperation)
        → operation_at r v doc ≡ some op
        → RefersTo op doc.schemas)

BodyResolves-mono :
    (body : Option SchemaProxy) (s t : OrderedMap SchemaProxy)
    → ((k : Text) → Known s k → Known t k)
    → BodyResolves body s
    → BodyResolves body t
BodyResolves-mono none s t f h = tt
BodyResolves-mono (some p) s t f h = ProxyClosed-mono f p h

later_parameters :
    (ps : List Parameter) (s t : OrderedMap SchemaProxy)
    → ((k : Text) → Known s k → Known t k)
    → All (λ p. ParameterResolves p s) ps
    → All (λ p. ParameterResolves p t) ps
later_parameters [] s t f h = tt
later_parameters (p ∷ ps) s t f (h, hs) =
    (ProxyClosed-mono f p.schema h, later_parameters ps s t f hs)

RefersTo-mono :
    (op : ApiOperation) (s t : OrderedMap SchemaProxy)
    → ((k : Text) → Known s k → Known t k)
    → RefersTo op s
    → RefersTo op t
RefersTo-mono op s t f (response, params, body) = (
  ProxyClosed-mono f op.response_schema response,
  later_parameters op.parameters s t f params,
  BodyResolves-mono op.request_body s t f body,
)

abbrev verb_number : Verb → ℕ
verb_number get_verb = 0
verb_number post_verb = 1
verb_number put_verb = 2
verb_number delete_verb = 3
verb_number patch_verb = 4
verb_number head_verb = 5

abbrev numbered_verb : ℕ → Verb
numbered_verb zero = get_verb
numbered_verb (suc zero) = post_verb
numbered_verb (suc (suc zero)) = put_verb
numbered_verb (suc (suc (suc zero))) = delete_verb
numbered_verb (suc (suc (suc (suc zero)))) = patch_verb
numbered_verb (suc (suc (suc (suc (suc n))))) = head_verb

numbered_verb-verb_number : (v : Verb) → numbered_verb (verb_number v) ≡ v
numbered_verb-verb_number get_verb = refl
numbered_verb-verb_number post_verb = refl
numbered_verb-verb_number put_verb = refl
numbered_verb-verb_number delete_verb = refl
numbered_verb-verb_number patch_verb = refl
numbered_verb-verb_number head_verb = refl

-- Whether two verbs are the same.
abbrev pub verb_is : Verb → Verb → Bool
verb_is v w = verb_number v == verb_number w

pub verb_is_iff : (v w : Verb) → (verb_is v w ≡ true → v ≡ w) × (v ≡ w → verb_is v w ≡ true)
verb_is_iff v w = (
  λ same.
      sym (numbered_verb-verb_number v)
      ∙ ap numbered_verb ((==_iff (verb_number v) (verb_number w)).0 same)
      ∙ numbered_verb-verb_number w,
  λ e. (==_iff (verb_number v) (verb_number w)).1 (ap verb_number e),
)

Verb-cases : (v w : Verb) → (v ≡ w) ⊎ (v ≢ w)
Verb-cases v w = elim (Bool-cases (verb_is v w)) [
  | inl same ↦ inl ((verb_is_iff v w).0 same)
  | inr other ↦ inr (λ e. let same = (verb_is_iff v w).1 e in cc)
]

module _ (route : Text) (op : ApiOperation) (schemas : OrderedMap SchemaProxy)
    (doc : Document ApiOperation) (proper : IsProper schemas) (refers : RefersTo op schemas)
    (sound : IsSoundDocument doc) where
  after-RefersTo :
      (verb : Verb) (doc' : Document ApiOperation)
      → Added route verb op doc doc'
      → doc'.schemas ≡ set_all schemas doc.schemas
      → (r : Text) (v : Verb) (found : ApiOperation) → operation_at r v doc' ≡ some found
      → RefersTo found (set_all schemas doc.schemas)
  after-RefersTo verb doc' added e r v found there = elim (Bool-cases (text_eq route r)) [
    | inr other ↦
        let kept = added.other_paths r v (λ e'. let same = (text_eq_iff route r).1 e' in cc) in
        RefersTo-mono found doc.schemas (set_all schemas doc.schemas)
          (Known-kept schemas doc.schemas proper.1) (sound.1 r v found (sym kept ∙ there))
    | inl same ↦
        let at_route : operation_at route v doc' ≡ some found =
          subst (λ t. operation_at t v doc' ≡ some found) (sym ((text_eq_iff route r).0 same))
            there in
        elim (Verb-cases verb v) [
          | inl here ↦
              let own : op ≡ found = some-eq (
                sym (subst (λ w. operation_at route w doc' ≡ some op) here added.there)
                ∙ at_route) in
              subst (λ o. RefersTo o (set_all schemas doc.schemas)) own
                (RefersTo-mono op schemas (set_all schemas doc.schemas)
                  (Known-added schemas doc.schemas proper.1) refers)
          | inr apart ↦
              RefersTo-mono found doc.schemas (set_all schemas doc.schemas)
                (Known-kept schemas doc.schemas proper.1)
                (sound.1 route v found (sym (added.other_verbs v apart) ∙ at_route))
        ]
  ]

  AddsIf-Sound :
      (verb : Option Verb) (out : Outcome (Document ApiOperation))
      → AddsIf route op schemas doc verb out
      → AllOk IsSoundDocument out
  AddsIf-Sound (some verb) (ok doc') (added, e) = (
    subst IsProper (sym e) (IsProper-set_all schemas doc.schemas proper.1 proper sound.0),
    λ r v found there.
        subst (RefersTo found) (sym e) (after-RefersTo verb doc' added e r v found there),
  )
  AddsIf-Sound none (panic e) h = tt
  AddsIf-Sound none (ok d) h = absurd h
  AddsIf-Sound (some verb) (panic e) h = absurd h
  AddsIf-Sound (some verb) (err e) h = absurd h
  AddsIf-Sound (some verb) exhausted h = absurd h
  AddsIf-Sound none (err e) h = absurd h
  AddsIf-Sound none exhausted h = absurd h

pub add_built-Sound :
    (built : BuiltOperation) (doc : Document ApiOperation)
    → IsSelfContained built
    → IsSoundDocument doc
    → AllOk IsSoundDocument (add_built (some built) doc)
unfolding add_built
add_built-Sound built doc (proper, refers) sound =
    AddsIf-Sound built.route built.operation built.schemas doc proper refers sound
      (verb_of built.method) _
      (add_operation-verb_of built.route built.method built.operation built.schemas doc)
