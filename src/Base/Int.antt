-- ===== src/Base/Int.antt =====
-- Signed integers, for the int32 fields of the API, and their decimal print.
-- `negsuc n` is -(n + 1).
use protoc_gen_apigw.Base.{suc, false, ◌∷◌, ◌==◌, Bool, ℕ}
use protoc_gen_apigw.Base.Text.{Text, itoa}

pub data ℤ : Type 0 where
  pos : ℕ → ℤ
  negsuc : ℕ → ℤ

abbrev pub is_zero : ℤ → Bool
is_zero (pos n) = n == 0
is_zero (negsuc n) = false

-- the verb %d
unfoldable pub int_text : ℤ → Text
unfolding itoa
int_text (pos n) = itoa n
int_text (negsuc n) = b'-' ∷ itoa (suc n)
