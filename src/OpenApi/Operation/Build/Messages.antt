-- ===== src/OpenApi/Operation/Build/Messages.antt =====
-- The schemas of the messages that an operation uses: each message of the tracker that is not well
-- known has one after the loop over the sorted keys.
use protoc_gen_apigw.OpenApi.Schema.Build.Proper.{message-IsProper, IsProper}
use protoc_gen_apigw.OpenApi.Schema.Build.{
  message_object, message_key, message, message_of, message_under,
}
use protoc_gen_apigw.OpenApi.Operation.Build.Parameters.{
  of_pointer-AllOk, Resolves-Grows, AllOk-weaken,
}
use protoc_gen_apigw.OpenApi.Schema.Ensures.{Ensures-pure, AllOk, Ensures, Resolves}
use protoc_gen_apigw.Base.Outcome.{exhausted, panic, err, ok, ◌>>=◌, Outcome}
use protoc_gen_apigw.Base.{
  length, none, suc, Option, Bool, false, ℕ, get_elem?, [], some, ◌∷◌, All, ◌≡◌, List,
}
use protoc_gen_apigw.OpenApi.Schema.Data.{inline, Schema, SchemaProxy}
use protoc_gen_apigw.Base.OrderedMap.{set, OrderedMap, value}
use protoc_gen_apigw.OpenApi.Schema.Closed.{Grows-trans, Grows-refl, Grows}
use protoc_gen_apigw.OpenApi.Schema.Container.{ref_to, Built, MessageCall, Container}
use protoc_gen_apigw.OpenApi.Operation.Build.{of_pointer, build_message, build_messages}
use protoc_gen_apigw.OpenApi.Schema.WellKnown.{is_well_known}
use protoc_gen_apigw.OpenApi.Tracker.{sorted_keys, SchemaData, MsgTracker}
use protoc_gen_apigw.Descriptor.{Message}
use mathlib.Core.Path.{subst}
use protoc_gen_apigw.Base.Text.{Text}
use protoc_gen_apigw.OpenApi.Tracker.Keys.{All-contains, HasKey, contains_text-sorted}

Ensures-weaken :
    (P Q : SchemaProxy → OrderedMap SchemaProxy → Type 0) (c : Container) (r : Built SchemaProxy)
    → ((p : SchemaProxy) (s : OrderedMap SchemaProxy) → P p s → Q p s)
    → Ensures IsProper P c r
    → Ensures IsProper Q c r
Ensures-weaken P Q c (ok (p, c')) f (g, closed, h) = (g, closed, f p c'.schemas h)
Ensures-weaken P Q c (err e) f h = tt
Ensures-weaken P Q c (panic e) f h = tt
Ensures-weaken P Q c exhausted f h = h

-- Where a call returns, its reference resolves.
abbrev Refers : Text → SchemaProxy → OrderedMap SchemaProxy → Type 0
Refers k p s = Resolves (ref_to k) s

-- Every entry of the tracker is a message that is not well known, under the key of its schema.
abbrev pub IsTracked : List Message → MsgTracker → Type 0
IsTracked registry tracker =
    (k : Text) (sd : SchemaData)
    → value k tracker ≡ some sd
    → (m : Message) × (get_elem? registry sd.msg ≡ some m)
      × (is_well_known m ≡ false)
      × (message_key m sd.filter ≡ k)

module _ (registry : List Message) (transform_name : Text → Text) where
  started-Refers :
      (key : Text) (c : Container) (r : Built Schema)
      → Ensures IsProper Resolves c (
          r >>= λ (obj, c').
          ok (ref_to key, record c' { schemas = set key (inline obj) c'.schemas }))
      → Ensures IsProper (Refers key) c (
          r >>= λ (obj, c').
          ok (ref_to key, record c' { schemas = set key (inline obj) c'.schemas }))
  started-Refers key c (ok (obj, c')) h = h
  started-Refers key c (err t) h = h
  started-Refers key c (panic t) h = h
  started-Refers key c exhausted h = h

  message_under-Refers :
      (call : MessageCall) (m : Message) (filter : List Text) (forced : Bool) (key : Text)
      (there : Option SchemaProxy) (c : Container)
      → Ensures IsProper Resolves c
          (message_under registry transform_name call m filter forced key there c)
      → Ensures IsProper
          (Refers key)
          c
          (message_under registry transform_name call m filter forced key there c)
  unfolding message_under
  message_under-Refers call m filter forced key (some p) c h = h
  message_under-Refers call m filter forced key none c h =
      let started : Container = record c { schemas = set key (ref_to key) c.schemas } in
      started-Refers key c (message_object registry transform_name call m filter forced started) h

  message_of-Refers :
      (call : MessageCall) (m : Message) (filter : List Text) (forced : Bool) (c : Container)
      → is_well_known m ≡ false
      → Ensures IsProper Resolves c
          (message_of registry transform_name call (some m) filter false forced c)
      → Ensures IsProper
          (Refers (message_key m filter))
          c
          (message_of registry transform_name call (some m) filter false forced c)
  unfolding message_of
  message_of-Refers call m filter forced c own h = rw own (
      message_under-Refers call m filter forced (message_key m filter)
        (value (message_key m filter) c.schemas) c (rw own at h))

  -- The schema of a message that is not well known is there after a call of `Message` from proper
  -- schemas, which does not run out of fuel.
  pub message-Refers :
      (id : ℕ) (m : Message) (filter : List Text) (forced : Bool) (c : Container)
      → get_elem? registry id ≡ some m
      → is_well_known m ≡ false
      → IsProper c.schemas
      → Ensures IsProper
          (Refers (message_key m filter))
          c
          (message registry transform_name (suc (suc (length registry))) id filter false forced c)
  unfolding message
  message-Refers id m filter forced c found own closed =
      let sound = message-IsProper registry transform_name id filter false forced c closed in
      rw found (message_of-Refers _ m filter forced c own (rw found at sound))

  build_message-Refers :
      (tracker : MsgTracker) (k : Text) (c : Container)
      → IsTracked registry tracker
      → IsProper c.schemas
      → Ensures IsProper
          (λ p s. HasKey tracker k → Resolves (ref_to k) s)
          c
          (build_message registry transform_name tracker k c)
  unfolding build_message of_pointer
  build_message-Refers tracker k c tracked closed =
      Ensures-pure IsProper (λ sd. value k tracker ≡ some sd)
        (λ p s. HasKey tracker k → Resolves (ref_to k) s) c (of_pointer (value k tracker)) _
        (of_pointer-AllOk (λ sd. value k tracker ≡ some sd) (value k tracker) (λ sd e. e))
        (λ sd there.
          let (m, found, own, key) = tracked k sd there in
          Ensures-weaken (Refers (message_key m sd.filter))
            (λ p s. HasKey tracker k → Resolves (ref_to k) s) c _
            (λ p s h has. subst (λ j. Resolves (ref_to j) s) key h)
            (message-Refers sd.msg m sd.filter false c found own closed))

  -- What the loop over the sorted keys leaves.
  abbrev AllFilled : MsgTracker → List Text → Container → Container → Type 0
  AllFilled tracker ks c c' =
      Grows c.schemas c'.schemas
      × IsProper c'.schemas
      × All (λ k. HasKey tracker k → Resolves (ref_to k) c'.schemas) ks

  filled_more :
      (tracker : MsgTracker) (k : Text) (ks : List Text) (c c' : Container) (r : Outcome Container)
      → Grows c.schemas c'.schemas
      → (HasKey tracker k → Resolves (ref_to k) c'.schemas)
      → AllOk (AllFilled tracker ks c') r
      → AllOk (AllFilled tracker (k ∷ ks) c) r
  filled_more tracker k ks c c' (ok d) g here (more, closed, rest) =
      (Grows-trans g more, closed, ((λ has. Resolves-Grows (ref_to k) more (here has)), rest))
  filled_more tracker k ks c c' (err e) g here h = tt
  filled_more tracker k ks c c' (panic e) g here h = tt
  filled_more tracker k ks c c' exhausted g here h = h

  filled_next :
      (tracker : MsgTracker) (k : Text) (ks : List Text) (c : Container) (r : Built SchemaProxy)
      (rest : Container → Outcome Container)
      → Ensures IsProper (λ p s. HasKey tracker k → Resolves (ref_to k) s) c r
      → ((c' : Container) → IsProper c'.schemas → AllOk (AllFilled tracker ks c') (rest c'))
      → AllOk (AllFilled tracker (k ∷ ks) c) (r >>= λ (p, c'). rest c')
  filled_next tracker k ks c (ok (p, c')) rest (g, closed, here) h =
      filled_more tracker k ks c c' (rest c') g here (h c' closed)
  filled_next tracker k ks c (err e) rest h next = tt
  filled_next tracker k ks c (panic e) rest h next = tt
  filled_next tracker k ks c exhausted rest h next = h

  build_messages-AllFilled :
      (tracker : MsgTracker) (ks : List Text) (c : Container)
      → IsTracked registry tracker
      → IsProper c.schemas
      → AllOk (AllFilled tracker ks c) (build_messages registry transform_name tracker ks c)
  unfolding build_messages
  build_messages-AllFilled tracker [] c tracked closed = (Grows-refl c.schemas, closed, tt)
  build_messages-AllFilled tracker (k ∷ ks) c tracked closed =
      filled_next tracker k ks c (build_message registry transform_name tracker k c)
        (λ c'. build_messages registry transform_name tracker ks c')
        (build_message-Refers tracker k c tracked closed)
        (λ c' closed'. build_messages-AllFilled tracker ks c' tracked closed')

  -- From proper schemas, the loop over the sorted keys of a tracker whose messages are not well known
  -- does not run out of fuel, and where it returns, the reference to every key of the tracker
  -- resolves.
  pub sorted_messages-AllFilled :
      (tracker : MsgTracker) (c : Container)
      → IsTracked registry tracker
      → IsProper c.schemas
      → AllOk
          (λ c'.
            Grows c.schemas c'.schemas
            × IsProper c'.schemas
            × ((k : Text) → HasKey tracker k → Resolves (ref_to k) c'.schemas))
          (build_messages registry transform_name tracker (sorted_keys tracker) c)
  sorted_messages-AllFilled tracker c tracked closed =
      AllOk-weaken (AllFilled tracker (sorted_keys tracker) c)
        (λ (x : Container).
          Grows c.schemas x.schemas
          × IsProper x.schemas
          × ((k : Text) → HasKey tracker k → Resolves (ref_to k) x.schemas))
        (build_messages registry transform_name tracker (sorted_keys tracker) c)
        (λ c' (g, closed', h). (
          g,
          closed',
          λ k has.
              All-contains (λ j. HasKey tracker j → Resolves (ref_to j) c'.schemas) k
                (sorted_keys tracker) h (contains_text-sorted tracker k has) has,
        ))
        (build_messages-AllFilled tracker (sorted_keys tracker) c tracked closed)
