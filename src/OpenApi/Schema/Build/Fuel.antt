-- ===== src/OpenApi/Schema/Build/Fuel.antt =====
-- The depth of `Message`: how many messages still lack a schema bounds the recursion.
use protoc_gen_apigw.Base.{
  length, zero, false, some-eq, ◌+◌, [], inr, suc, inl, refl, ◌<◌, ◌≡◌, Bool, Option-cases, arith,
  get_elem?, none, some, ◌∷◌, ℕ, ◌≢◌, ◌≤◌, List, Option,
}
use protoc_gen_apigw.OpenApi.Schema.Ensures.{Resolves, Ensures, GoodCall}
use protoc_gen_apigw.OpenApi.Schema.Closed.{
  Known-set_self, Known, ref-closed, IsClosed-set, IsClosed, Grows,
}
use protoc_gen_apigw.Base.OrderedMap.Laws.{value-set-ne-none, value-set_self}
use protoc_gen_apigw.Base.Outcome.{panic, err, ok, exhausted}
use protoc_gen_apigw.OpenApi.Schema.Build.Closed.{message_of-IsClosed}
use protoc_gen_apigw.OpenApi.Schema.Container.{ref_to, Built, Container}
use protoc_gen_apigw.Base.OrderedMap.{set, value, OrderedMap}
use protoc_gen_apigw.OpenApi.Schema.Build.{message_key, message}
use protoc_gen_apigw.Base.Text.{Text}
use protoc_gen_apigw.OpenApi.Schema.Data.{SchemaProxy}
use protoc_gen_apigw.Descriptor.{Message}

abbrev missing : Option SchemaProxy → ℕ
missing none = 1
missing (some p) = 0

missing_mono : (a b : Option SchemaProxy) → (a ≢ none → b ≢ none) → missing b ≤ missing a
missing_mono none none h = omega arith
missing_mono none (some q) h = omega arith
missing_mono (some p) (some q) h = omega arith
missing_mono (some p) none h = absurd (h (λ e. cc) refl)

missing_le_one : (o : Option SchemaProxy) → missing o ≤ 1
missing_le_one none = omega arith
missing_le_one (some p) = omega arith

-- How many messages of the registry have no schema yet.
abbrev pub absent : List Message → OrderedMap SchemaProxy → ℕ
absent [] s = 0
absent (m ∷ ms) s = missing (value (message_key m []) s) + absent ms s

abbrev Keeps : OrderedMap SchemaProxy → OrderedMap SchemaProxy → Type 0
Keeps s t = (k : Text) → value k s ≢ none → value k t ≢ none

Keeps-Grows : (s t : OrderedMap SchemaProxy) → Grows s t → Keeps s t
Keeps-Grows s t g k there gone = elim (Option-cases (value k s)) [
  | inl none_s ↦ there none_s
  | inr (p, e) ↦ let kept = g.stable k p e in cc
]

pub absent-Keeps :
    (ms : List Message) (s t : OrderedMap SchemaProxy) → Keeps s t → absent ms t ≤ absent ms s
absent-Keeps [] s t h = omega arith
absent-Keeps (m ∷ ms) s t h =
    let here =
      missing_mono (value (message_key m []) s) (value (message_key m []) t)
        (h (message_key m [])) in
    let rest = absent-Keeps ms s t h in omega arith

pub absent-le-length : (ms : List Message) (s : OrderedMap SchemaProxy) → absent ms s ≤ length ms
absent-le-length [] s = omega arith
absent-le-length (m ∷ ms) s =
    let here = missing_le_one (value (message_key m []) s) in
    let rest = absent-le-length ms s in omega arith

pub absent-set :
    (ms : List Message) (id : ℕ) (m : Message) (p : SchemaProxy) (s : OrderedMap SchemaProxy)
    → get_elem? ms id ≡ some m
    → value (message_key m []) s ≡ none
    → absent ms (set (message_key m []) p s) < absent ms s
absent-set [] id m p s e gone = cc
absent-set (n ∷ ms) zero m p s e gone =
    let same : n ≡ m = some-eq e in
    let key = message_key m [] in
    let after = value-set_self key p s in
    let rest = absent-Keeps ms s (set key p s) (λ k. value-set-ne-none key k p s) in
    rw (same, after, gone) omega arith
absent-set (n ∷ ms) (suc id) m p s e gone =
    let key = message_key m [] in
    let here =
      missing_mono (value (message_key n []) s) (value (message_key n []) (set key p s))
        (value-set-ne-none key (message_key n []) p s) in
    let rest = absent-set ms id m p s e gone in omega arith

module _ (registry : List Message) (transform_name : Text → Text) where
  -- A state in which a call of `Message` with this much fuel does not run out of it.
  abbrev pub Ready : ℕ → OrderedMap SchemaProxy → Type 0
  Ready n s = IsClosed s × (absent registry s < n)

  Ready-Ensures :
      (n : ℕ) (c : Container) (r : Built SchemaProxy)
      → absent registry c.schemas < n
      → Ensures IsClosed Resolves c r
      → Ensures (Ready n) Resolves c r
  Ready-Ensures n c (ok (p, c')) h (g, closed, q) =
      let fewer = absent-Keeps registry c.schemas c'.schemas (Keeps-Grows c.schemas c'.schemas g) in
      (g, (closed, omega arith), q)
  Ready-Ensures n c (err e) h k = tt
  Ready-Ensures n c (panic e) h k = tt
  Ready-Ensures n c exhausted h k = k

  pub IsClosed-started :
      (key : Text) (s : OrderedMap SchemaProxy) → IsClosed s → IsClosed (set key (ref_to key) s)
  IsClosed-started key s closed =
      IsClosed-set key (ref_to key) s closed
        (ref-closed (Known (set key (ref_to key) s)) key (Known-set_self key (ref_to key) s))

  pub message-GoodCall :
      (fuel : ℕ)
      → GoodCall (Ready fuel) (λ n r c. message registry transform_name fuel n [] r false c)
  unfolding message
  message-GoodCall zero n r c (closed, h) = absurd (omega arith)
  message-GoodCall (suc fuel) n r c (closed, h) = Ready-Ensures (suc fuel) c _ h (
      message_of-IsClosed (Ready fuel) registry
        (λ m r' c'. message registry transform_name fuel m [] r' false c') (message-GoodCall fuel)
        transform_name (λ s k. k.0) (get_elem? registry n) [] r false c closed
        (λ m e gone.
          let key = message_key m [] in
          let fewer = absent-set registry n m (ref_to key) c.schemas e gone in
          (IsClosed-started key c.schemas closed, omega arith)))

  -- From schemas whose references all resolve, and with fuel that is by more than one above the number
  -- of messages that have no schema yet, `Message` does not run out of fuel; and where it returns, every reference of the
  -- schemas that it leaves, and of the proxy that it returns, resolves in those schemas, each schema
  -- that was there is unchanged, and each new one is an inline schema: no placeholder is left.
  pub message-IsClosed :
      (fuel id : ℕ) (filter : List Text) (read_only forced : Bool) (c : Container)
      → IsClosed c.schemas
      → absent registry c.schemas < fuel
      → Ensures IsClosed Resolves c
          (message registry transform_name (suc fuel) id filter read_only forced c)
  unfolding message
  message-IsClosed fuel id filter read_only forced c closed h =
      message_of-IsClosed (Ready fuel) registry
        (λ m r' c'. message registry transform_name fuel m [] r' false c') (message-GoodCall fuel)
        transform_name (λ s k. k.0) (get_elem? registry id) filter read_only forced c closed
        (λ m e gone.
          let key = message_key m filter in
          let fewer =
            absent-Keeps registry c.schemas (set key (ref_to key) c.schemas)
              (λ k. value-set-ne-none key k (ref_to key) c.schemas) in
          (IsClosed-started key c.schemas closed, omega arith))
