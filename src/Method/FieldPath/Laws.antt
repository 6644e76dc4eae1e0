-- ===== src/Method/FieldPath/Laws.antt =====
-- What `path2fieldNumbers` returns for a path that leads to a field.
use protoc_gen_apigw.Method.FieldPath.{go_deeper, follow, embedded, find_field, path2field_numbers}
use protoc_gen_apigw.Base.{arith, ◌∙◌, ◌≤◌, length, refl, some, [], ◌≡◌, reverse, ◌∷◌, ℕ, List}
use protoc_gen_apigw.Base.Outcome.{ok}
use protoc_gen_apigw.Descriptor.{Field, Message}
use protoc_gen_apigw.Base.Text.{Text}

-- A path from a message to a field, with the field numbers on the way, the outermost first.
pub data LeadsTo (registry : List Message) : Message → List Text → List ℕ → Field → Type 0 where
  at_field :
      (m : Message) (name : Text) (f : Field)
      → find_field name m.fields ≡ some f
      → LeadsTo registry m (name ∷ []) (f.number ∷ []) f
  through_field :
      (m nested : Message) (name next : Text) (rest : List Text) (ns : List ℕ) (f edge : Field)
      → find_field name m.fields ≡ some f
      → embedded registry f.type ≡ some nested
      → LeadsTo registry nested (next ∷ rest) ns edge
      → LeadsTo registry m (name ∷ next ∷ rest) (f.number ∷ ns) edge

-- The order that reversing at each level of the recursion gives.
abbrev pub turned : List ℕ → List ℕ
turned [] = []
turned (n ∷ ns) = reverse (n ∷ turned ns)

-- Where a path leads to a field, `path2fieldNumbers` returns the field and the numbers on the way,
-- reversed once for each level of the recursion.
pub path2field_numbers-LeadsTo :
    (registry : List Message) (m : Message) (path : List Text) (ns : List ℕ) (edge : Field)
    → LeadsTo registry m path ns edge
    → path2field_numbers registry path m ≡ ok (turned ns, some edge)
unfolding path2field_numbers
path2field_numbers-LeadsTo registry m _ _ edge (at_field _ name _ e) = rw e refl
path2field_numbers-LeadsTo registry m _ _ edge
      (through_field _ nested name next rest ns f _ e h l) =
    rw (e, follow, h, go_deeper, path2field_numbers-LeadsTo registry nested (next ∷ rest) ns edge l)
      refl

turned-reverse :
    {registry : List Message} {m : Message} {path : List Text} {ns : List ℕ} {edge : Field}
    → LeadsTo registry m path ns edge
    → length path ≤ 2
    → turned ns ≡ reverse ns
turned-reverse (at_field _ name _ e) short = refl
turned-reverse (through_field _ _ _ _ _ _ _ _ e h (at_field _ _ _ _)) short = refl
turned-reverse (through_field _ _ _ _ _ _ _ _ e h (through_field _ _ _ _ _ _ _ _ _ _ _)) short =
    absurd (omega arith)

-- For a path of one or two fields that leads to a field, `path2fieldNumbers` returns the numbers on
-- the way from the last field to the first, as the templates of nested messages take them.
pub path2field_numbers-reverse :
    (registry : List Message) (m : Message) (path : List Text) (ns : List ℕ) (edge : Field)
    → LeadsTo registry m path ns edge
    → length path ≤ 2
    → path2field_numbers registry path m ≡ ok (reverse ns, some edge)
path2field_numbers-reverse registry m path ns edge l short =
    path2field_numbers-LeadsTo registry m path ns edge l ∙ rw (turned-reverse l short) refl

-- For a path of three fields that leads to a field, `path2fieldNumbers` returns the numbers of the
-- second, the third and the first field in that order, and not from the last to the first.
pub path2field_numbers-three :
    (registry : List Message) (m : Message) (path : List Text) (a b c : ℕ) (edge : Field)
    → LeadsTo registry m path (a ∷ b ∷ c ∷ []) edge
    → path2field_numbers registry path m ≡ ok (b ∷ c ∷ a ∷ [], some edge)
path2field_numbers-three registry m path a b c edge l =
    path2field_numbers-LeadsTo registry m path (a ∷ b ∷ c ∷ []) edge l
