-- ===== src/HttpBridge/Reference.antt =====
-- A function that does what grpc documents of `MD.Set`, to which the theorems are applied.
use protoc_gen_apigw.Base.{[], refl, ◌∷◌, List}
use protoc_gen_apigw.Base.OrderedMap.{set}
use protoc_gen_apigw.Base.Text.{to_lower, Text}
use protoc_gen_apigw.HttpBridge.{Md}
use protoc_gen_apigw.Base.OrderedMap.Laws.{value-set}
use protoc_gen_apigw.HttpBridge.Laws.{IsMetadataSet}

unfoldable pub set_lower : Text → List Text → Md → Md
set_lower k [] md = md
set_lower k (v ∷ vs) md = set (to_lower k) (v ∷ vs) md

pub set_lower-IsMetadataSet : IsMetadataSet set_lower
unfolding set_lower
set_lower-IsMetadataSet = record {
  stores = λ k j v vs md. value-set (to_lower k) j (v ∷ vs) md;
  skips = λ k md. refl;
}
