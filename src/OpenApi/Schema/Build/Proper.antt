-- ===== src/OpenApi/Schema/Build/Proper.antt =====
-- Schemas under different keys: `Message` keeps them so.
use protoc_gen_apigw.Base.OrderedMap.Laws.{value-set-ne-none}
use protoc_gen_apigw.OpenApi.Schema.Build.Fuel.{
  absent-Keeps, message-IsClosed, absent-le-length, IsClosed-started, absent-set, message-GoodCall,
  Ready,
}
use protoc_gen_apigw.Base.{
  length, sym, inr, inl, Bool-cases, ◌∷◌, refl, zero, get_elem?, none, some, suc, arith, ◌≡◌, Bool,
  Option, false, [], All, ℕ, ◌≢◌, List,
}
use protoc_gen_apigw.Base.Text.Laws.{text_eq_iff}
use protoc_gen_apigw.Base.Text.{text_eq, Text}
use protoc_gen_apigw.Base.Returns.{WhenOk-any, WhenOk->>=, WhenOk-if, WhenOk}
use protoc_gen_apigw.OpenApi.Schema.WellKnown.{well_known_type, schema_for_wkt, is_well_known}
use protoc_gen_apigw.OpenApi.Schema.Build.Closed.{message_object-closed}
use protoc_gen_apigw.OpenApi.Schema.Build.{
  message_object, message_key, message_of, message_under, message,
}
use protoc_gen_apigw.OpenApi.Schema.Closed.{Known, SchemaClosed, IsClosed}
use protoc_gen_apigw.Base.Outcome.{exhausted, panic, err, ok, ◌>>=◌}
use protoc_gen_apigw.OpenApi.Schema.Data.{inline, Schema, SchemaProxy}
use protoc_gen_apigw.Base.OrderedMap.{value, OrderedMap, set}
use protoc_gen_apigw.OpenApi.Schema.Container.{ref_to, Container, MessageCall, Built}
use protoc_gen_apigw.OpenApi.Schema.Ensures.{Resolves, Ensures, GoodCall}
use protoc_gen_apigw.Descriptor.{Message}
use protoc_gen_apigw.Base.Sorting.Laws.{Differing}

-- Each key of the schemas is different from the later ones.
abbrev pub Distinct {ℓ} : {V : Type ℓ} → OrderedMap V → Type 0
Distinct m = Differing (λ q. q.0) m

Distinct_other {ℓ} :
    {V : Type ℓ} (k j : Text) (v : V) (m : OrderedMap V)
    → j ≢ k
    → All (λ q. q.0 ≢ k) m
    → All (λ q. q.0 ≢ k) (set j v m)
unfolding set
Distinct_other k j v [] h g = (h, tt)
Distinct_other k j v ((i, w) ∷ m) h (here, g) = elim (Bool-cases (text_eq i j)) [
  | inl same ↦ rw same (here, g)
  | inr other ↦ rw other (here, Distinct_other k j v m h g)
]

pub Distinct-set {ℓ} :
    {V : Type ℓ} (k : Text) (v : V) (m : OrderedMap V) → Distinct m → Distinct (set k v m)
unfolding set
Distinct-set k v [] h = (tt, tt)
Distinct-set k v ((j, w) ∷ m) (here, h) = elim (Bool-cases (text_eq j k)) [
  | inl same ↦ rw same (here, h)
  | inr other ↦
      let apart : k ≢ j = λ e. let same = (text_eq_iff j k).1 (sym e) in cc in
      rw other (Distinct_other j k v m apart here, Distinct-set k v m h)
]

-- Every reference in the schemas resolves, and they stand under different keys.
abbrev pub IsProper : OrderedMap SchemaProxy → Type 0
IsProper s = IsClosed s × Distinct s

abbrev LeavesDistinct : Built SchemaProxy → Type 0
LeavesDistinct r = WhenOk (λ out. Distinct out.1.schemas) r

ended-Distinct :
    (B : OrderedMap SchemaProxy → Type 0) (keep : (s : OrderedMap SchemaProxy) → B s → Distinct s)
    (Q : Schema → OrderedMap SchemaProxy → Type 0) (key : Text) (c : Container) (r : Built Schema)
    → Ensures B Q c r
    → LeavesDistinct (
        r >>= λ (obj, c'). ok (ref_to key, record c' { schemas = set key (inline obj) c'.schemas }))
ended-Distinct B keep Q key c (ok (obj, c')) (g, b, q) =
    Distinct-set key (inline obj) c'.schemas (keep c'.schemas b)
ended-Distinct B keep Q key c (err e) h = tt
ended-Distinct B keep Q key c (panic e) h = tt
ended-Distinct B keep Q key c exhausted h = tt

module _ (B : OrderedMap SchemaProxy → Type 0)
    (keep : (s : OrderedMap SchemaProxy) → B s → Distinct s) (registry : List Message)
    (call : MessageCall) (good : GoodCall B call) (transform_name : Text → Text) where
  message_under-Distinct :
      (m : Message) (filter : List Text) (forced : Bool) (key : Text) (there : Option SchemaProxy)
      (c : Container)
      → value key c.schemas ≡ there
      → Distinct c.schemas
      → (value key c.schemas ≡ none → B (set key (ref_to key) c.schemas))
      → LeavesDistinct (message_under registry transform_name call m filter forced key there c)
  unfolding message_under
  message_under-Distinct m filter forced key (some p) c e h start = h
  message_under-Distinct m filter forced key none c e h start =
      let started : Container = record c { schemas = set key (ref_to key) c.schemas } in
      ended-Distinct B keep (λ s n. SchemaClosed (Known n) s) key started
        (message_object registry transform_name call m filter forced started)
        (message_object-closed B registry call good transform_name m filter forced started
          (start e))

  message_of-Distinct :
      (o : Option Message) (filter : List Text) (read_only forced : Bool) (c : Container)
      → Distinct c.schemas
      → ((m : Message)
          → o ≡ some m
          → value (message_key m filter) c.schemas ≡ none
          → B (set (message_key m filter) (ref_to (message_key m filter)) c.schemas))
      → LeavesDistinct (message_of registry transform_name call o filter read_only forced c)
  unfolding message_of
  message_of-Distinct none filter read_only forced c h start = tt
  message_of-Distinct (some m) filter read_only forced c h start =
      WhenOk-if (λ out. Distinct out.1.schemas) (is_well_known m) _ _
        (λ known.
          WhenOk->>= {D = SchemaProxy × Container} (λ _. Unit {0}) (λ out. Distinct out.1.schemas)
            (schema_for_wkt (well_known_type m)) _ (WhenOk-any (schema_for_wkt (well_known_type m)))
            (λ s _. h))
        (λ own.
          message_under-Distinct m filter forced (message_key m filter)
            (value (message_key m filter) c.schemas) c refl h (start m refl))

with_Distinct :
    (B : OrderedMap SchemaProxy → Type 0) (c : Container) (r : Built SchemaProxy)
    → Ensures B Resolves c r
    → LeavesDistinct r
    → Ensures (λ s. B s × Distinct s) Resolves c r
with_Distinct B c (ok (p, c')) (g, b, q) d = (g, (b, d), q)
with_Distinct B c (err e) h d = tt
with_Distinct B c (panic e) h d = tt
with_Distinct B c exhausted h d = h

module _ (registry : List Message) (transform_name : Text → Text) where
  -- A state in which a call of `Message` with this much fuel neither runs out of it nor meets a
  -- repeated key.
  abbrev ReadyDistinct : ℕ → OrderedMap SchemaProxy → Type 0
  ReadyDistinct n s = Ready registry transform_name n s × Distinct s

  message-ReadyDistinct :
      (fuel : ℕ)
      → GoodCall (ReadyDistinct fuel) (λ n r c. message registry transform_name fuel n [] r false c)
  unfolding message
  message-ReadyDistinct zero n r c ((closed, h), d) = absurd (omega arith)
  message-ReadyDistinct (suc fuel) n r c ((closed, h), d) =
      with_Distinct (Ready registry transform_name (suc fuel)) c _
        (message-GoodCall registry transform_name (suc fuel) n r c (closed, h))
        (message_of-Distinct (ReadyDistinct fuel) (λ s b. b.1) registry
          (λ m r' c'. message registry transform_name fuel m [] r' false c')
          (message-ReadyDistinct fuel) transform_name (get_elem? registry n) [] r false c d
          (λ m e gone.
            let key = message_key m [] in
            let fewer = absent-set registry n m (ref_to key) c.schemas e gone in
            (
              (IsClosed-started registry transform_name key c.schemas closed, omega arith),
              Distinct-set key (ref_to key) c.schemas d,
            )))

  Ensures-IsProper :
      (n : ℕ) (c : Container) (r : Built SchemaProxy)
      → Ensures (ReadyDistinct n) Resolves c r
      → Ensures IsProper Resolves c r
  Ensures-IsProper n c (ok (p, c')) (g, ((closed, h), d), q) = (g, (closed, d), q)
  Ensures-IsProper n c (err e) h = tt
  Ensures-IsProper n c (panic e) h = tt
  Ensures-IsProper n c exhausted h = h

  -- With fuel above the number of messages, a call of `Message` without a filter keeps schemas proper.
  pub message-GoodCall-IsProper :
      GoodCall IsProper
        (λ n r c. message registry transform_name (suc (length registry)) n [] r false c)
  message-GoodCall-IsProper n r c (closed, d) =
      let bound = absent-le-length registry c.schemas in
      Ensures-IsProper (suc (length registry)) c _
        (message-ReadyDistinct (suc (length registry)) n r c ((closed, omega arith), d))

  -- With fuel above that, so does a call with a filter.
  pub message-IsProper :
      (id : ℕ) (filter : List Text) (read_only forced : Bool) (c : Container)
      → IsProper c.schemas
      → Ensures IsProper Resolves c (
          message registry transform_name
            (suc (suc (length registry)))
            id
            filter
            read_only
            forced
            c)
  unfolding message
  message-IsProper id filter read_only forced c (closed, d) =
      let bound = absent-le-length registry c.schemas in
      let fuel = suc (length registry) in
      with_Distinct IsClosed c _
        (message-IsClosed registry transform_name fuel id filter read_only forced c closed
          (omega arith))
        (message_of-Distinct (ReadyDistinct fuel) (λ s b. b.1) registry
          (λ m r' c'. message registry transform_name fuel m [] r' false c')
          (message-ReadyDistinct fuel) transform_name (get_elem? registry id) filter read_only
          forced c d
          (λ m e gone.
            let key = message_key m filter in
            let fewer =
              absent-Keeps registry c.schemas (set key (ref_to key) c.schemas)
                (λ k. value-set-ne-none key k (ref_to key) c.schemas) in
            (
              (IsClosed-started registry transform_name key c.schemas closed, omega arith),
              Distinct-set key (ref_to key) c.schemas d,
            )))
