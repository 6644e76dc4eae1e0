-- ===== src/OpenApi/Service/Webhooks/Sound.antt =====
-- The references of the definitions without a service resolve.
use protoc_gen_apigw.OpenApi.Service.Merge.{Known-added, IsProper-set_all}
use protoc_gen_apigw.OpenApi.Schema.Closed.{ProxyClosed-mono}
use protoc_gen_apigw.OpenApi.Schema.Container.{new_schema_container, Built}
use protoc_gen_apigw.Base.{
  ap, if◌then◌else◌, length, suc, ◌∙◌, refl, sym, inr, none, some-eq, [], inl, get_elem?, is_empty,
  true, ◌||◌, Bool-cases, some, ◌∷◌, ◌≡◌, false, Bool, ℕ, List, Option,
}
use protoc_gen_apigw.OpenApi.Service.Webhooks.{
  Definitions, build_open_api_without_service, webhook_name, has_force_prop, force_messages,
  Webhook, webhook_of, Forced, add_webhook, add_webhook_under,
}
use protoc_gen_apigw.OpenApi.Operation.Build.Parameters.{
  AllOk-if_by, AllOk-weaken, Resolves-Grows, of_pointer-AllOk, AllOk->>=,
}
use protoc_gen_apigw.OpenApi.Schema.Build.Proper.{message-IsProper, IsProper}
use protoc_gen_apigw.OpenApi.Schema.Build.{message}
use protoc_gen_apigw.Base.Outcome.{exhausted, panic, err, ok, ◌>>=◌, Outcome}
use mathlib.Core.Path.{subst}
use protoc_gen_apigw.Base.OrderedMap.Laws.{value-set}
use protoc_gen_apigw.OpenApi.Operation.Build.{of_pointer, message_at}
use protoc_gen_apigw.OpenApi.Schema.Options.{get_message_options}
use protoc_gen_apigw.Base.Text.{text_eq, Text}
use protoc_gen_apigw.OpenApi.Schema.Ensures.{AllOk, Ensures, Resolves}
use protoc_gen_apigw.Base.OrderedMap.{value, OrderedMap}
use protoc_gen_apigw.OpenApi.Schema.Data.{SchemaProxy}
use protoc_gen_apigw.Descriptor.{Message}

-- Whether a message of the registry is exposed without a service.
abbrev forced_at : Option Message → Bool
forced_at none = false
forced_at (some m) = has_force_prop (get_message_options m)

abbrev pub any_forced : List Message → List ℕ → Bool
any_forced registry [] = false
any_forced registry (id ∷ ids) = forced_at (get_elem? registry id) || any_forced registry ids

-- Every webhook's schema resolves.
abbrev pub WebhooksResolve : OrderedMap Webhook → OrderedMap SchemaProxy → Type 0
WebhooksResolve webhooks s =
    (name : Text) (w : Webhook) → value name webhooks ≡ some w → Resolves w.schema s

-- What holds between the rounds of the loop.
abbrev IsSoundForced : Forced → Type 0
IsSoundForced done =
    IsProper done.container.schemas × WebhooksResolve done.webhooks done.container.schemas

add_webhook_under-Resolve :
    (name : Text) (p : SchemaProxy) (there : Option Webhook) (webhooks : OrderedMap Webhook)
    (s : OrderedMap SchemaProxy)
    → Resolves p s
    → WebhooksResolve webhooks s
    → WebhooksResolve (add_webhook_under name p there webhooks) s
unfolding add_webhook_under webhook_of
add_webhook_under-Resolve name p (some v) webhooks s h all j w e = all j w e
add_webhook_under-Resolve name p none webhooks s h all j w e = elim (Bool-cases (text_eq name j)) [
  | inl same ↦
      let stored : webhook_of name p ≡ w = some-eq (rw (value-set, same) at e) in
      subst (λ (v : Webhook). Resolves v.schema s) stored h
  | inr other ↦ all j w (rw (value-set, other) at e)
]

add_webhook-Resolve :
    (name : Text) (p : SchemaProxy) (webhooks : OrderedMap Webhook) (s : OrderedMap SchemaProxy)
    → Resolves p s
    → WebhooksResolve webhooks s
    → WebhooksResolve (add_webhook name p webhooks) s
unfolding add_webhook
add_webhook-Resolve name p webhooks s h all = elim (Bool-cases (is_empty name)) [
  | inl unnamed ↦ rw unnamed all
  | inr named ↦ rw named (add_webhook_under-Resolve name p (value name webhooks) webhooks s h all)
]

or-false : (b : Bool) → (b || false) ≡ b
or-false true = refl
or-false false = refl

or-true : (b c : Bool) → c ≡ true → (b || c) ≡ true
or-true true c h = refl
or-true false c h = h

module _ (registry : List Message) (transform_name : Text → Text) where
  -- What the rest of the loop comes to.
  abbrev Forces : List ℕ → Forced → Outcome Forced → Type 0
  Forces ids done r =
      AllOk (λ d. IsSoundForced d × (d.found ≡ (done.found || any_forced registry ids))) r

  exposed_next :
      (m : Message) (ids : List ℕ) (done : Forced) (r : Built SchemaProxy)
      (rest : Forced → Outcome Forced)
      → IsSoundForced done
      → Ensures IsProper Resolves done.container r
      → ((d : Forced) → IsSoundForced d → Forces ids d (rest d))
      → AllOk
          (λ d. IsSoundForced d × (d.found ≡ true))
          (r >>= λ (p, c). rest (record {
            found = true;
            webhooks = add_webhook (webhook_name (get_message_options m)) p done.webhooks;
            container = c;
          }))
  exposed_next m ids done (ok (p, c)) rest (proper, all) (g, proper', h) next =
      let d : Forced = record {
        found = true;
        webhooks = add_webhook (webhook_name (get_message_options m)) p done.webhooks;
        container = c;
      } in
      next d (
        proper',
        add_webhook-Resolve (webhook_name (get_message_options m)) p done.webhooks c.schemas h
            (λ k w e. Resolves-Grows w.schema g (all k w e)),
      )
  exposed_next m ids done (err e) rest sound h next = tt
  exposed_next m ids done (panic e) rest sound h next = tt
  exposed_next m ids done exhausted rest sound h next = h

  force_messages-Forces :
      (ids : List ℕ) (done : Forced)
      → IsSoundForced done
      → Forces ids done (force_messages registry transform_name ids done)
  unfolding force_messages message_at
  force_messages-Forces [] done sound = (sound, sym (or-false done.found))
  force_messages-Forces (id ∷ ids) done sound =
      AllOk->>= {D = Forced} (λ m. get_elem? registry id ≡ some m) _
        (of_pointer (get_elem? registry id)) _
        (of_pointer-AllOk (λ m. get_elem? registry id ≡ some m) (get_elem? registry id) (λ m e. e))
        (λ m e.
          AllOk-if_by
            (λ d. IsSoundForced d × (d.found ≡ (done.found || any_forced registry (id ∷ ids))))
            (has_force_prop (get_message_options m)) _ _
            (λ forced.
              let here : any_forced registry (id ∷ ids) ≡ true = rw (e, forced) refl in
              AllOk-weaken (λ (d : Forced). IsSoundForced d × (d.found ≡ true)) _ _
                (λ d (s, f).
                  (s, f ∙ sym (or-true done.found (any_forced registry (id ∷ ids)) here)))
                (exposed_next m ids done
                  (message registry transform_name (suc (suc (length registry))) id [] false true
                    done.container)
                  (force_messages registry transform_name ids) sound
                  (message-IsProper registry transform_name id [] false true done.container sound.0)
                  (force_messages-Forces ids)))
            (λ plain.
              let rest : any_forced registry (id ∷ ids) ≡ any_forced registry ids =
                rw (e, plain) refl in
              AllOk-weaken
                (λ (d : Forced).
                  IsSoundForced d × (d.found ≡ (done.found || any_forced registry ids)))
                _ _ (λ d (s, f). (s, f ∙ ap (λ b. done.found || b) (sym rest)))
                (force_messages-Forces ids done sound)))

  -- What `buildOpenAPIWithoutService` returns for these messages: no document if none of them is
  -- exposed, and otherwise one whose references resolve.
  abbrev pub Defines : List ℕ → Option Definitions → Type 0
  Defines ids none = any_forced registry ids ≡ false
  Defines ids (some doc) =
      (any_forced registry ids ≡ true)
      × IsProper doc.schemas
      × WebhooksResolve doc.webhooks doc.schemas

  Defines-if :
      (ids : List ℕ) (doc : Definitions) (b : Bool)
      → b ≡ any_forced registry ids
      → IsProper doc.schemas × WebhooksResolve doc.webhooks doc.schemas
      → AllOk (Defines ids) (if b then ok (some doc) else ok none)
  Defines-if ids doc true e (h, g) = (sym e, h, g)
  Defines-if ids doc false e h = sym e

  -- `buildOpenAPIWithoutService` does not run out of fuel. It returns a document exactly if a message
  -- of the file is to be exposed or has a webhook, and then every reference of the document's schemas
  -- and of its webhooks resolves in the schemas, which stand under different keys.
  pub build_open_api_without_service-Defines :
      (full_name : Text) (ids : List ℕ)
      → AllOk (Defines ids) (build_open_api_without_service registry transform_name full_name ids)
  unfolding build_open_api_without_service new_schema_container value
  build_open_api_without_service-Defines full_name ids =
      let start : Forced = record {
        found = false;
        webhooks = [];
        container = new_schema_container;
      } in
      AllOk->>= {D = Option Definitions}
        (λ (d : Forced). IsSoundForced d × (d.found ≡ (false || any_forced registry ids)))
        (Defines ids) (force_messages registry transform_name ids start) _
        (force_messages-Forces ids start (((λ k p e. cc), tt), λ k w e. cc))
        (λ d ((proper, all), f). Defines-if ids _ d.found f (
          IsProper-set_all d.container.schemas [] proper.1 proper ((λ k p e. cc), tt),
          λ k w e.
              ProxyClosed-mono (Known-added d.container.schemas [] proper.1) w.schema (all k w e),
        ))
