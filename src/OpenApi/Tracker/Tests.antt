-- ===== src/OpenApi/Tracker/Tests.antt =====
-- A tracker that holds a message's input and is asked for it with another filter.
use protoc_gen_apigw.Base.{[], reverse, ◌∷◌, ◌≡◌}
use protoc_gen_apigw.OpenApi.Tracker.Laws.{add_input-Records, sorted_keys-Perm_eq, Records}
use protoc_gen_apigw.OpenApi.Tracker.{add_input, MsgTracker, sorted_keys}
use protoc_gen_apigw.Base.Text.{codes}
use mathlib.Core.List.Perm

abbrev with_input : MsgTracker
with_input =
    (codes "p.AInput", record { path = codes "p.AInput"; msg = 0; filter = codes "id" ∷ [] }) ∷ []

add_input-Records_example :
    Records 0
      (codes ".p.A")
      (codes "name" ∷ [])
      with_input
      (add_input 0 (codes ".p.A") (codes "name" ∷ []) with_input)
add_input-Records_example = add_input-Records 0 (codes ".p.A") (codes "name" ∷ []) with_input

abbrev two_entries : MsgTracker
two_entries = (codes "p.B", record { path = codes "p.B"; msg = 1; filter = [] }) ∷ with_input

sorted_keys-Perm_eq_example : sorted_keys two_entries ≡ sorted_keys (reverse two_entries)
sorted_keys-Perm_eq_example =
    sorted_keys-Perm_eq two_entries (reverse two_entries) (Perm.swap _ _ [])
