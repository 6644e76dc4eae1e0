-- ===== src/Base/Text.antt =====
-- Go strings as lists of bytes, with the functions of package strings that the source calls.
pub mod Laws
use protoc_gen_apigw.Base.{◌-◌, leb, reverse}
use Prim.Native.Char.{code}
use Prim.Native.Nat.{ℕ, zero, suc, ◌+◌, ◌%◌, ◌/◌}
use Prim.Native.String.{String}
use mathlib.Core.Bool.{Bool, true, false, ◌&&◌, ◌||◌}
use mathlib.Core.List.{List, [], ◌∷◌, ◌++◌}
use protoc_gen_apigw.Base.Lists.{length}
use protoc_gen_apigw.Base.Tests.{ltb, ◌==◌, if◌then◌else◌}

abbrev pub Text : Type 0
Text = List ℕ

-- The code points of a literal; these are its bytes when the text is ASCII.
abbrev pub codes : String → Text
codes String.[] = []
codes (String.◌∷◌ c s) = code c ∷ codes s

abbrev pub slash : ℕ
slash = b'/'

-- `s == t`
unfoldable pub text_eq : Text → Text → Bool
text_eq [] [] = true
text_eq [] (_ ∷ _) = false
text_eq (_ ∷ _) [] = false
text_eq (a ∷ s) (b ∷ t) = a == b && text_eq s t

-- `s < t`: Go compares strings byte by byte
unfoldable pub text_lt : Text → Text → Bool
text_lt [] [] = false
text_lt [] (_ ∷ _) = true
text_lt (_ ∷ _) [] = false
text_lt (a ∷ s) (b ∷ t) = ltb a b || (a == b && text_lt s t)

-- strings.ToLower, for ASCII
unfoldable pub to_lower : Text → Text
to_lower [] = []
to_lower (c ∷ s) = (if leb b'A' c && leb c b'Z' then c + 32 else c) ∷ to_lower s

-- strings.HasPrefix
unfoldable pub has_prefix : Text → Text → Bool
has_prefix s [] = true
has_prefix [] (_ ∷ _) = false
has_prefix (a ∷ s) (b ∷ t) = a == b && has_prefix s t

-- strings.HasSuffix
unfoldable pub has_suffix : Text → Text → Bool
unfolding text_eq
has_suffix [] t = text_eq [] t
has_suffix (a ∷ s) t = text_eq (a ∷ s) t || has_suffix s t

-- puts a byte before the first part
abbrev extend : ℕ → List Text → List Text
extend c [] = (c ∷ []) ∷ []
extend c (p ∷ ps) = (c ∷ p) ∷ ps

-- strings.Split at a separator of one byte
unfoldable pub split : Text → ℕ → List Text
split [] sep = [] ∷ []
split (c ∷ s) sep = if c == sep then [] ∷ split s sep else extend c (split s sep)

-- strings.Join with a separator of one byte
unfoldable pub join : List Text → ℕ → Text
join [] sep = []
join (p ∷ []) sep = p
join (p ∷ q ∷ ps) sep = p ++ (sep ∷ join (q ∷ ps) sep)

-- `s[:len(s)-1]` of a text that is not empty
unfoldable pub drop_last : Text → Text
drop_last [] = []
drop_last (a ∷ []) = []
drop_last (a ∷ b ∷ s) = a ∷ drop_last (b ∷ s)

-- strings.TrimPrefix for a prefix of one byte
unfoldable pub trim_byte : Text → ℕ → Text
trim_byte [] b = []
trim_byte (a ∷ s) b = if a == b then s else a ∷ s

-- strings.ReplaceAll of one byte by another
unfoldable pub replace_byte : Text → ℕ → ℕ → Text
replace_byte [] old new = []
replace_byte (a ∷ s) old new = (if a == old then new else a) ∷ replace_byte s old new

-- the scan of `remove_all`, with the bytes left of the word that is being dropped
remove_from : Text → ℕ → ℕ → Text → Text
remove_from word size skip [] = []
remove_from word size (suc skip) (a ∷ s) = remove_from word size skip s
remove_from word size zero (a ∷ s) =
    let dropped = remove_from word size (size - 1) s in
    let kept = a ∷ remove_from word size zero s in if has_prefix (a ∷ s) word then dropped else kept

-- strings.ReplaceAll of a word that is not empty by the empty text
unfoldable pub remove_all : Text → Text → Text
unfolding remove_from has_prefix
remove_all s word = remove_from word (length word) zero s

-- strings.Contains of one byte
unfoldable pub contains_byte : Text → ℕ → Bool
contains_byte [] b = false
contains_byte (a ∷ s) b = a == b || contains_byte s b

is_space : ℕ → Bool
is_space c = c == b' ' || (leb 9 c && leb c 13)

trim_left : Text → Text
trim_left [] = []
trim_left (c ∷ s) = if is_space c then trim_left s else c ∷ s

-- strings.TrimSpace, for the white space of ASCII
unfoldable pub trim_space : Text → Text
unfolding trim_left is_space
trim_space s = reverse (trim_left (reverse (trim_left s)))

itoa_from : ℕ → ℕ → Text → Text
itoa_from zero n out = out
itoa_from (suc fuel) n out =
    let out' = (b'0' + n % 10) ∷ out in
    let rest = itoa_from fuel (n / 10) out' in if ltb n 10 then out' else rest

-- strconv.Itoa and the verb %d of a number that is not negative; `n + 1` rounds are enough.
unfoldable pub itoa : ℕ → Text
unfolding itoa_from
itoa n = itoa_from (suc n) n []
