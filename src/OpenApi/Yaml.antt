-- ===== src/OpenApi/Yaml.antt =====
-- internal/apigw/apigw_openapi_schema.go: the helpers that build nodes of a YAML document. What
-- the YAML library's `SetString` makes of a text is the node `string_node`.
use protoc_gen_apigw.Base.Text.{codes, itoa, Text}
use protoc_gen_apigw.Base.{[], if◌then◌else◌, map, ◌∷◌, Bool, List, ℕ}
use protoc_gen_apigw.Base.OrderedMap.{OrderedMap}

pub data Tag : Type 0 where
  no_tag str_tag null_tag seq_tag int_tag bool_tag : Tag

mutual
  pub data Node : Type 0 where
    string_node : Text → Node
    scalar : Tag → Text → Node
    sequence : Tag → Nodes → Node
    mapping : Nodes → Node

  pub data Nodes : Type 0 where
    nil : Nodes
    cons : Node → Nodes → Nodes

-- `Content: []*yaml.Node{...}`
abbrev pub nodes : List Node → Nodes
nodes [] = nil
nodes (n ∷ ns) = cons n (nodes ns)

unfoldable pub yaml_string : Text → Node
yaml_string text = string_node text

unfoldable pub yaml_int : ℕ → Node
yaml_int n = scalar int_tag (itoa n)

unfoldable pub yaml_bool : Bool → Node
yaml_bool b = scalar bool_tag (if b then codes "true" else codes "false")

unfoldable pub yaml_int_slice : List ℕ → Node
unfolding yaml_int
yaml_int_slice values = sequence no_tag (nodes (map yaml_int values))

unfoldable pub yaml_string_slice : List Text → Node
unfolding yaml_string
yaml_string_slice values = sequence no_tag (nodes (map yaml_string values))

abbrev pub Extensions : Type 0
Extensions = OrderedMap Node
