-- ===== src/Base/OrderedMap.antt =====
-- An ordered map as the source uses it (libopenapi's orderedmap and Go's maps): an association
-- list in insertion order, where setting a key that is there replaces its value in place.
pub mod Laws
use mathlib.Core.Bool.{Bool}
use mathlib.Core.List.{List, [], ◌∷◌, map}
use mathlib.Core.Option.{Option, none, some}
use protoc_gen_apigw.Base.Tests.{if◌then◌else◌}
use protoc_gen_apigw.Base.Text.{Text, text_eq}

abbrev pub OrderedMap {ℓ} : Type ℓ → Type ℓ
OrderedMap V = List (Text × V)

module _ {ℓ} {V : Type ℓ} where
  -- `m.Value(k)`, `m.Get(k)` and `m[k]`
  unfoldable pub value : Text → OrderedMap V → Option V
  value k [] = none
  value k ((j, v) ∷ m) = if text_eq j k then some v else value k m

  -- `m.Set(k, v)` and `m[k] = v`
  unfoldable pub set : Text → V → OrderedMap V → OrderedMap V
  set k v [] = (k, v) ∷ []
  set k v ((j, w) ∷ m) = if text_eq j k then (j, v) ∷ m else (j, w) ∷ set k v m

  -- the loop `for pair := other.Oldest(); ...` that sets every pair of `other` in `m`
  unfoldable pub set_all : OrderedMap V → OrderedMap V → OrderedMap V
  set_all [] m = m
  set_all ((k, v) ∷ other) m = set_all other (set k v m)

  abbrev pub keys : OrderedMap V → List Text
  keys [] = []
  keys ((k, v) ∷ m) = k ∷ keys m
