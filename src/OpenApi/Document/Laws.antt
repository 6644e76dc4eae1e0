-- ===== src/OpenApi/Document/Laws.antt =====
-- What `addOperation` makes of the document's paths.
use protoc_gen_apigw.Base.{inr, false, inl, Bool-cases, none, refl, some, Option, ◌≡◌, ◌≢◌}
use protoc_gen_apigw.Base.Text.Laws.{text_eq_iff}
use protoc_gen_apigw.Base.Text.{codes, text_eq, Text}
use protoc_gen_apigw.Base.OrderedMap.Laws.{value-set_other, value-set_self}
use protoc_gen_apigw.Base.Outcome.{panic, ok, Outcome, ◌>>=◌}
use protoc_gen_apigw.Base.OrderedMap.{set_all, OrderedMap, value}
use protoc_gen_apigw.OpenApi.Document.{
  verb_of, add_at, add_operation, head_verb, patch_verb, delete_verb, put_verb, post_verb, get_verb,
  item_at, Document, PathItem, Verb, assign,
}
use protoc_gen_apigw.OpenApi.Schema.Data.{SchemaProxy}

-- The methods of net/http by their names.
abbrev pub verb_name : Verb → Text
verb_name get_verb = codes "GET"
verb_name post_verb = codes "POST"
verb_name put_verb = codes "PUT"
verb_name delete_verb = codes "DELETE"
verb_name patch_verb = codes "PATCH"
verb_name head_verb = codes "HEAD"

-- Whether the verb is the one that the method names, or the method names none.
abbrev pub IsVerbOf : Text → Option Verb → Type 0
IsVerbOf method (some verb) = method ≡ verb_name verb
IsVerbOf method none = (verb : Verb) → method ≢ verb_name verb

no_verb :
    (method : Text)
    → ((verb : Verb) → text_eq method (verb_name verb) ≡ false)
    → IsVerbOf method none
no_verb method h =
    λ verb e. let same = (text_eq_iff method (verb_name verb)).1 e in let other = h verb in cc

none_of :
    (method : Text)
    → text_eq method (codes "GET") ≡ false
    → text_eq method (codes "POST") ≡ false
    → text_eq method (codes "PUT") ≡ false
    → text_eq method (codes "DELETE") ≡ false
    → text_eq method (codes "PATCH") ≡ false
    → text_eq method (codes "HEAD") ≡ false
    → (verb : Verb) → text_eq method (verb_name verb) ≡ false
none_of method g o p d a h get_verb = g
none_of method g o p d a h post_verb = o
none_of method g o p d a h put_verb = p
none_of method g o p d a h delete_verb = d
none_of method g o p d a h patch_verb = a
none_of method g o p d a h head_verb = h

verb_of-IsVerbOf : (method : Text) → IsVerbOf method (verb_of method)
unfolding verb_of
verb_of-IsVerbOf method = elim (Bool-cases (text_eq method (codes "GET"))) [
  | inl g ↦ rw g ((text_eq_iff method (codes "GET")).0 g)
  | inr g ↦ rw g (elim (Bool-cases (text_eq method (codes "POST"))) [
    | inl o ↦ rw o ((text_eq_iff method (codes "POST")).0 o)
    | inr o ↦ rw o (elim (Bool-cases (text_eq method (codes "PUT"))) [
      | inl p ↦ rw p ((text_eq_iff method (codes "PUT")).0 p)
      | inr p ↦ rw p (elim (Bool-cases (text_eq method (codes "DELETE"))) [
        | inl d ↦ rw d ((text_eq_iff method (codes "DELETE")).0 d)
        | inr d ↦ rw d (elim (Bool-cases (text_eq method (codes "PATCH"))) [
          | inl a ↦ rw a ((text_eq_iff method (codes "PATCH")).0 a)
          | inr a ↦ rw a (elim (Bool-cases (text_eq method (codes "HEAD"))) [
            | inl h ↦ rw h ((text_eq_iff method (codes "HEAD")).0 h)
            | inr h ↦ rw h (no_verb method (none_of method g o p d a h))
          ])
        ])
      ])
    ])
  ])
]

module _ {Op : Type 0} where
  abbrev pub operation_of : Verb → PathItem Op → Option Op
  operation_of get_verb item = item.get
  operation_of post_verb item = item.post
  operation_of put_verb item = item.put
  operation_of delete_verb item = item.delete
  operation_of patch_verb item = item.patch
  operation_of head_verb item = item.head

  -- The operation of a document at a path and a verb.
  unfoldable pub operation_at : Text → Verb → Document Op → Option Op
  operation_at route verb doc = operation_of verb (item_at (value route doc.path_items))

  operation_of-assign :
      (v : Verb) (op : Op) (item : PathItem Op) → operation_of v (assign v op item) ≡ some op
  unfolding assign
  operation_of-assign get_verb op item = refl
  operation_of-assign post_verb op item = refl
  operation_of-assign put_verb op item = refl
  operation_of-assign delete_verb op item = refl
  operation_of-assign patch_verb op item = refl
  operation_of-assign head_verb op item = refl

  operation_of-assign_other :
      (v w : Verb) (op : Op) (item : PathItem Op)
      → v ≢ w
      → operation_of w (assign v op item) ≡ operation_of w item
  unfolding assign
  operation_of-assign_other get_verb get_verb op item h = absurd (h refl)
  operation_of-assign_other post_verb post_verb op item h = absurd (h refl)
  operation_of-assign_other put_verb put_verb op item h = absurd (h refl)
  operation_of-assign_other delete_verb delete_verb op item h = absurd (h refl)
  operation_of-assign_other patch_verb patch_verb op item h = absurd (h refl)
  operation_of-assign_other head_verb head_verb op item h = absurd (h refl)
  operation_of-assign_other _ _ op item h = refl

  -- What adding an operation to the paths leaves: the operation at its path and verb, and every
  -- other operation as it was.
  pub record Added (route : Text) (verb : Verb) (op : Op) (doc doc' : Document Op) : Type 0 where
    pub there : operation_at route verb doc' ≡ some op
    pub other_verbs : (v : Verb) → verb ≢ v → operation_at route v doc' ≡ operation_at route v doc
    pub other_paths :
        (r : Text) (v : Verb) → route ≢ r → operation_at r v doc' ≡ operation_at r v doc

  -- What `addOperation` returns for a method, by whether it is supported.
  abbrev pub AddsIf :
      Text
      → Op
      → OrderedMap SchemaProxy
      → Document Op
      → Option Verb
      → Outcome (Document Op)
      → Type 0
  AddsIf route op schemas doc (some verb) (ok doc') =
      Added route verb op doc doc' × (doc'.schemas ≡ set_all schemas doc.schemas)
  AddsIf route op schemas doc none (panic e) = Unit
  AddsIf route op schemas doc _ _ = ⊥

  add_at-AddsIf :
      (route method : Text) (op : Op) (schemas : OrderedMap SchemaProxy) (doc : Document Op)
      (verb : Option Verb)
      → AddsIf route op schemas doc verb (
          add_at route method op verb doc >>= λ doc'.
          ok (record doc' { schemas = set_all schemas doc'.schemas }))
  unfolding add_at operation_at
  add_at-AddsIf route method op schemas doc none = tt
  add_at-AddsIf route method op schemas doc (some verb) =
      let item = item_at (value route doc.path_items) in
      let found = value-set_self route (assign verb op item) doc.path_items in
      (
        record {
          there = rw (found, item_at) (operation_of-assign verb op item);
          other_verbs = λ v h. rw (found, item_at) (operation_of-assign_other verb v op item h);
          other_paths =
              λ r v h. rw (value-set_other route r (assign verb op item) doc.path_items h) refl;
        },
        refl,
      )

  pub add_operation-verb_of :
      (route method : Text) (op : Op) (schemas : OrderedMap SchemaProxy) (doc : Document Op)
      → AddsIf route op schemas doc (verb_of method) (add_operation route method op schemas doc)
  unfolding add_operation
  add_operation-verb_of route method op schemas doc =
      add_at-AddsIf route method op schemas doc (verb_of method)

  -- For the methods GET, POST, PUT, DELETE, PATCH and HEAD, `addOperation` returns a document that has
  -- the operation at its path and in the field of its method, every other operation of that path and
  -- of the other paths as before, and the components' schemas set over those of the document; for any
  -- other method it panics.
  pub add_operation-AddsIf :
      (route method : Text) (op : Op) (schemas : OrderedMap SchemaProxy) (doc : Document Op)
      → (verb : Option Verb) × IsVerbOf method verb
        × AddsIf route op schemas doc verb (add_operation route method op schemas doc)
  add_operation-AddsIf route method op schemas doc =
      (verb_of method, verb_of-IsVerbOf method, add_operation-verb_of route method op schemas doc)
