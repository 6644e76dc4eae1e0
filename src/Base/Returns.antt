-- ===== src/Base/Returns.antt =====
-- What holds of a call where it returns.
use protoc_gen_apigw.Base.{refl, false, if◌then◌else◌, true, ◌≡◌, Bool}
use protoc_gen_apigw.Base.Outcome.{exhausted, panic, err, ok, ◌>>=◌, Outcome}

-- What holds of the value of a call that returns.
abbrev pub WhenOk {ℓ} : {A : Type ℓ} → (A → Type 0) → Outcome A → Type 0
WhenOk P (ok a) = P a
WhenOk P (err e) = Unit
WhenOk P (panic e) = Unit
WhenOk P exhausted = Unit

pub WhenOk->>= :
    {A D : Type 0} (P : A → Type 0) (Q : D → Type 0) (m : Outcome A) (f : A → Outcome D)
    → WhenOk P m
    → ((a : A) → P a → WhenOk Q (f a))
    → WhenOk Q (m >>= f)
WhenOk->>= P Q (ok a) f h k = k a h
WhenOk->>= P Q (err e) f h k = tt
WhenOk->>= P Q (panic e) f h k = tt
WhenOk->>= P Q exhausted f h k = tt

pub WhenOk-weaken :
    {A : Type 0} (P Q : A → Type 0) (m : Outcome A)
    → ((a : A) → P a → Q a)
    → WhenOk P m
    → WhenOk Q m
WhenOk-weaken P Q (ok a) f h = f a h
WhenOk-weaken P Q (err e) f h = tt
WhenOk-weaken P Q (panic e) f h = tt
WhenOk-weaken P Q exhausted f h = tt

pub WhenOk-any : {A : Type 0} (m : Outcome A) → WhenOk (λ _. Unit {0}) m
WhenOk-any (ok a) = tt
WhenOk-any (err e) = tt
WhenOk-any (panic e) = tt
WhenOk-any exhausted = tt

pub WhenOk-if :
    {A : Type 0} (P : A → Type 0) (b : Bool) (x y : Outcome A)
    → (b ≡ true → WhenOk P x)
    → (b ≡ false → WhenOk P y)
    → WhenOk P (if b then x else y)
WhenOk-if P true x y h k = h refl
WhenOk-if P false x y h k = k refl

-- What holds whatever the first call returns.
pub WhenOk-after :
    {A D : Type 0} (Q : D → Type 0) (m : Outcome A) (f : A → Outcome D)
    → ((a : A) → WhenOk Q (f a))
    → WhenOk Q (m >>= f)
WhenOk-after Q (ok a) f k = k a
WhenOk-after Q (err e) f k = tt
WhenOk-after Q (panic e) f k = tt
WhenOk-after Q exhausted f k = tt

pub WhenOk-both :
    {A : Type 0} (P Q : A → Type 0) (m : Outcome A)
    → WhenOk P m
    → WhenOk Q m
    → WhenOk (λ a. P a × Q a) m
WhenOk-both P Q (ok a) p q = (p, q)
WhenOk-both P Q (err e) p q = tt
WhenOk-both P Q (panic e) p q = tt
WhenOk-both P Q exhausted p q = tt
