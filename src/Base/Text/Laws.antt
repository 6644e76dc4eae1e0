-- ===== src/Base/Text/Laws.antt =====
-- Laws of the functions on text.
use protoc_gen_apigw.Base.{zero, ◌%◌, ◌+◌, ◌/◌, suc}
use protoc_gen_apigw.Base.Text.{itoa_from, slash, itoa, Text, text_eq, text_lt, extend, split, join}
use Prim.Native.Nat.{ℕ}
use mathlib.Core.Bool.{true, false}
use mathlib.Core.List.{List, [], ◌∷◌, ◌++◌}
use mathlib.Core.Logic.{◌≢◌, ◌↔◌, inl, inr}
use mathlib.Core.Path.{◌≡◌, refl, ap, ◌∙◌}
use native.Mathlib.Omega.{arith}
use protoc_gen_apigw.Base.Tests.{◌==◌, Bool-cases}
use protoc_gen_apigw.Base.Lists.{All}

text_eq_sound : (s t : Text) → text_eq s t ≡ true → s ≡ t
unfolding text_eq
text_eq_sound [] [] h = refl
text_eq_sound [] (b ∷ t) h = cc
text_eq_sound (a ∷ s) [] h = cc
text_eq_sound (a ∷ s) (b ∷ t) h = ground (arith, text_eq_sound s t)

pub text_eq_refl : (s : Text) → text_eq s s ≡ true
unfolding text_eq
text_eq_refl [] = refl
text_eq_refl (a ∷ s) = ground (arith, text_eq_refl s)

pub text_eq_iff : (s t : Text) → (text_eq s t ≡ true) ↔ (s ≡ t)
text_eq_iff s t = (text_eq_sound s t, λ e. rw e (text_eq_refl t))

abbrev pub Lacks : ℕ → Text → Type 0
Lacks b = All (λ c. c ≢ b)

extend-ne-nil : (c : ℕ) (ps : List Text) → extend c ps ≢ []
extend-ne-nil c [] = cc
extend-ne-nil c (p ∷ ps) = cc

pub split-ne-nil : (s : Text) (sep : ℕ) → split s sep ≢ []
unfolding split
split-ne-nil [] sep = cc
split-ne-nil (c ∷ s) sep = ground (arith, extend-ne-nil c (split s sep))

join-extend : (c : ℕ) (ps : List Text) (sep : ℕ) → join (extend c ps) sep ≡ c ∷ join ps sep
unfolding join
join-extend c [] sep = refl
join-extend c (p ∷ []) sep = refl
join-extend c (p ∷ q ∷ ps) sep = refl

join-cons :
    (p : Text) (ps : List Text) (sep : ℕ) → ps ≢ [] → join (p ∷ ps) sep ≡ p ++ (sep ∷ join ps sep)
unfolding join
join-cons p [] sep h = absurd (h refl)
join-cons p (q ∷ ps) sep h = refl

-- Joining the parts of a split gives the text back.
pub join-split : (s : Text) (sep : ℕ) → join (split s sep) sep ≡ s
unfolding split
join-split [] sep = unfold join in refl
join-split (c ∷ s) sep = ground (
  arith,
  join-split s sep,
  join-extend c (split s sep) sep,
  join-cons [] (split s sep) sep (split-ne-nil s sep),
)

pub split-Lacks_append :
    (p s : Text) (sep : ℕ) → Lacks sep p → split (p ++ (sep ∷ s)) sep ≡ p ∷ split s sep
unfolding split
split-Lacks_append [] s sep h = ground arith
split-Lacks_append (c ∷ p) s sep (hc, h) = ground (arith, split-Lacks_append p s sep h)

pub split-Lacks : (p : Text) (sep : ℕ) → Lacks sep p → split p sep ≡ p ∷ []
unfolding split
split-Lacks [] sep h = refl
split-Lacks (c ∷ p) sep (hc, h) = ground (arith, split-Lacks p sep h)

-- Splitting a join gives the parts back, if no part holds the separator.
pub split-join :
    (ps : List Text) (sep : ℕ) → ps ≢ [] → All (Lacks sep) ps → split (join ps sep) sep ≡ ps
unfolding join
split-join [] sep h _ = absurd (h refl)
split-join (p ∷ []) sep _ (hp, _) = split-Lacks p sep hp
split-join (p ∷ q ∷ ps) sep _ (hp, hs) =
    split-Lacks_append p (join (q ∷ ps) sep) sep hp ∙ ap (◌∷◌ p) (split-join (q ∷ ps) sep (cc) hs)

All-extend :
    (c sep : ℕ) (ps : List Text) → c ≢ sep → All (Lacks sep) ps → All (Lacks sep) (extend c ps)
All-extend c sep [] h _ = ((h, tt), tt)
All-extend c sep (p ∷ ps) h (hp, hs) = ((h, hp), hs)

-- No part of a split holds the separator.
pub split-All-Lacks : (s : Text) (sep : ℕ) → All (Lacks sep) (split s sep)
unfolding split
split-All-Lacks [] sep = (tt, tt)
split-All-Lacks (c ∷ s) sep = elim (Bool-cases (c == sep)) [
  | inl same ↦ rw same (tt, split-All-Lacks s sep)
  | inr other ↦ rw other (All-extend c sep (split s sep) (ground arith) (split-All-Lacks s sep))
]

text_lt_irrefl : (s : Text) → text_lt s s ≡ false
unfolding text_lt
text_lt_irrefl [] = refl
text_lt_irrefl (a ∷ s) = ground (arith, text_lt_irrefl s)

pub text_lt_trans : (s t u : Text) → text_lt s t ≡ true → text_lt t u ≡ true → text_lt s u ≡ true
unfolding text_lt
text_lt_trans [] [] u h k = cc
text_lt_trans [] (b ∷ t) [] h k = cc
text_lt_trans [] (b ∷ t) (c ∷ u) h k = refl
text_lt_trans (a ∷ s) [] u h k = cc
text_lt_trans (a ∷ s) (b ∷ t) [] h k = cc
text_lt_trans (a ∷ s) (b ∷ t) (c ∷ u) h k = ground (arith, text_lt_trans s t u)

pub text_lt-asymm : (s t : Text) → text_lt s t ≡ true → text_lt t s ≡ false
unfolding text_lt
text_lt-asymm [] [] h = cc
text_lt-asymm [] (b ∷ t) h = refl
text_lt-asymm (a ∷ s) [] h = cc
text_lt-asymm (a ∷ s) (b ∷ t) h = ground (arith, text_lt-asymm s t)

-- Two texts neither of which is smaller are equal.
pub text_lt-total : (s t : Text) → text_lt s t ≡ false → text_lt t s ≡ false → s ≡ t
unfolding text_lt
text_lt-total [] [] h k = refl
text_lt-total [] (b ∷ t) h k = cc
text_lt-total (a ∷ s) [] h k = cc
text_lt-total (a ∷ s) (b ∷ t) h k = ground (arith, text_lt-total s t)

itoa_from-Lacks : (fuel n : ℕ) (out : Text) → Lacks slash out → Lacks slash (itoa_from fuel n out)
unfolding itoa_from
itoa_from-Lacks zero n out h = h
itoa_from-Lacks (suc fuel) n out h =
    ground (arith, itoa_from-Lacks fuel (n / 10) ((b'0' + n % 10) ∷ out))

pub itoa-Lacks : (n : ℕ) → Lacks slash (itoa n)
unfolding itoa
itoa-Lacks n = itoa_from-Lacks (suc n) n [] tt
