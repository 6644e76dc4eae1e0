-- ===== src/Base/Outcome.antt =====
-- What a Go call may do: return, return an error, or panic. `exhausted` is the model's own: a
-- recursion on fuel that ran out, which theorems exclude.
use protoc_gen_apigw.Base.{refl}
use mathlib.Core.Path.{◌≡◌}
use protoc_gen_apigw.Base.Text.{Text}

pub data Outcome {ℓ} (A : Type ℓ) : Type ℓ where
  ok : A → Outcome A
  err : Text → Outcome A
  panic : Text → Outcome A
  exhausted : Outcome A

infixl 5 ◌>>=◌
abbrev pub ◌>>=◌ {ℓ κ} : {A : Type ℓ} {B : Type κ} → Outcome A → (A → Outcome B) → Outcome B
ok a >>= f = f a
err e >>= f = err e
panic p >>= f = panic p
exhausted >>= f = exhausted

pub ok-injective {ℓ} : {A : Type ℓ} {a b : A} → ok a ≡ ok b → a ≡ b
ok-injective e = cc

pub >>=-ext {ℓ κ} :
    {A : Type ℓ} {B : Type κ} (m : Outcome A) (f g : A → Outcome B)
    → ((a : A) → f a ≡ g a)
    → (m >>= f) ≡ (m >>= g)
>>=-ext (ok a) f g h = h a
>>=-ext (err e) f g h = refl
>>=-ext (panic p) f g h = refl
>>=-ext exhausted f g h = refl
