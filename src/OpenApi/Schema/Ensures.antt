-- ===== src/OpenApi/Schema/Ensures.antt =====
-- The rules for code that builds schemas: what a call ensures when it returns.
use protoc_gen_apigw.Base.{false, true, if◌then◌else◌, Bool, ℕ}
use protoc_gen_apigw.Base.Outcome.{exhausted, panic, ◌>>=◌, err, ok, Outcome}
use protoc_gen_apigw.OpenApi.Schema.Closed.{Grows-trans, Grows, Known, ProxyClosed}
use protoc_gen_apigw.OpenApi.Schema.Container.{Built, Container, MessageCall}
use protoc_gen_apigw.OpenApi.Schema.Data.{SchemaProxy}
use protoc_gen_apigw.Base.OrderedMap.{OrderedMap}

-- What holds of the value of a call that returns, and of the schemas that it leaves, `B` among it;
-- and the call does not run out of fuel.
abbrev pub Ensures :
    {A : Type 0}
    → (OrderedMap SchemaProxy → Type 0)
    → (A → OrderedMap SchemaProxy → Type 0)
    → Container
    → Built A
    → Type 0
Ensures B P c (ok (a, c')) = Grows c.schemas c'.schemas × B c'.schemas × P a c'.schemas
Ensures B P c (err e) = Unit
Ensures B P c (panic e) = Unit
Ensures B P c exhausted = ⊥

abbrev pub AllOk : {A : Type 0} → (A → Type 0) → Outcome A → Type 0
AllOk P (ok a) = P a
AllOk P (err e) = Unit
AllOk P (panic e) = Unit
AllOk P exhausted = ⊥

pub Ensures-widen :
    {D : Type 0} (B : OrderedMap SchemaProxy → Type 0) (Q : D → OrderedMap SchemaProxy → Type 0)
    (c c' : Container) (r : Built D)
    → Grows c.schemas c'.schemas
    → Ensures B Q c' r
    → Ensures B Q c r
Ensures-widen B Q c c' (ok (b, c'')) g (h, closed, q) = (Grows-trans g h, closed, q)
Ensures-widen B Q c c' (err e) g h = tt
Ensures-widen B Q c c' (panic e) g h = tt
Ensures-widen B Q c c' exhausted g h = h

pub Ensures->>= :
    {A D : Type 0} (B : OrderedMap SchemaProxy → Type 0) (P : A → OrderedMap SchemaProxy → Type 0)
    (Q : D → OrderedMap SchemaProxy → Type 0) (c : Container) (m : Built A)
    (f : A × Container → Built D)
    → Ensures B P c m
    → ((a : A) (c' : Container)
        → Grows c.schemas c'.schemas
        → B c'.schemas
        → P a c'.schemas
        → Ensures B Q c' (f (a, c')))
    → Ensures B Q c (m >>= f)
Ensures->>= B P Q c (ok (a, c')) f (g, closed, p) k =
    Ensures-widen B Q c c' (f (a, c')) g (k a c' g closed p)
Ensures->>= B P Q c (err e) f h k = tt
Ensures->>= B P Q c (panic e) f h k = tt
Ensures->>= B P Q c exhausted f h k = h

pub Ensures-pure :
    {A D : Type 0} (B : OrderedMap SchemaProxy → Type 0) (P : A → Type 0)
    (Q : D → OrderedMap SchemaProxy → Type 0) (c : Container) (m : Outcome A) (f : A → Built D)
    → AllOk P m
    → ((a : A) → P a → Ensures B Q c (f a))
    → Ensures B Q c (m >>= f)
Ensures-pure B P Q c (ok a) f h k = k a h
Ensures-pure B P Q c (err e) f h k = tt
Ensures-pure B P Q c (panic e) f h k = tt
Ensures-pure B P Q c exhausted f h k = h

pub Ensures-if :
    {D : Type 0} (B : OrderedMap SchemaProxy → Type 0) (Q : D → OrderedMap SchemaProxy → Type 0)
    (c : Container) (b : Bool) (x y : Built D)
    → Ensures B Q c x
    → Ensures B Q c y
    → Ensures B Q c (if b then x else y)
Ensures-if B Q c true x y h k = h
Ensures-if B Q c false x y h k = k

-- A built proxy, whose references resolve.
abbrev pub Resolves : SchemaProxy → OrderedMap SchemaProxy → Type 0
Resolves p m = ProxyClosed (Known m) p

abbrev pub GoodCall : (OrderedMap SchemaProxy → Type 0) → MessageCall → Type 0
GoodCall B call =
    (n : ℕ) (r : Bool) (c : Container) → B c.schemas → Ensures B Resolves c (call n r c)
