-- ===== src/Diff.antt =====
-- Revision diffs: `diff_trees` of crates/gpui-agent/src/diff.rs. The explicit stack of `index`
-- visits the nodes in pre-order, and is a recursion here.
pub mod Fields
pub mod Compact
use Prim.Native.String.{String}
use gpui_agent.Base.{
  Bool, true, false, ◌&&◌, ◌||◌, not, Option, none, some, List, [], ◌∷◌, ◌++◌, map, ◌==◌, string_eq,
  option_eq, bool_eq, if◌then◌else◌, any, filter,
}
use gpui_agent.Base.Map.{Map, get, insert, str_lt, keys}
use gpui_agent.Base.Float.{Float}
use gpui_agent.Tree.Rect.{Bounds}
use gpui_agent.Tree.{Attrs, UiNode, Nodes, node, nil, cons, attrs, UiTree}

-- One entry of the JSON object of a node, restricted to `NODE_FIELDS`: its key and its value.
pub data Field (F : Type 0) : Type 0 where
  bounds : Bounds F → Field F
  checked enabled focused visible : Bool → Field F
  name role value : String → Field F
  states : List String → Field F

module _ {F : Type 0} where
  abbrev value_field : Option String → List (Field F)
  value_field none = []
  value_field (some v) = Field.value v ∷ []

  abbrev checked_field : Option Bool → List (Field F)
  checked_field none = []
  checked_field (some b) = Field.checked b ∷ []

  abbrev visible_field : Bool → List (Field F)
  visible_field true = []
  visible_field false = Field.visible false ∷ []

  abbrev states_field : List String → List (Field F)
  states_field [] = []
  states_field (s ∷ ss) = Field.states (s ∷ ss) ∷ []

  -- The serializer leaves out a missing `value` or `checked`, `visible` when it is true, and an empty
  -- list of states: the `skip_serializing_if` attributes of `UiNode`. The keys stand in their order.
  unfoldable pub scalar_fields : Attrs F → List (Field F)
  scalar_fields a =
      Field.bounds a.bounds
      ∷ (checked_field a.checked
          ++ (Field.enabled a.enabled
              ∷ Field.focused a.focused
              ∷ Field.name a.name
              ∷ Field.role a.role
              ∷ (states_field a.states ++ (value_field a.value ++ visible_field a.visible))))

abbrev pub texts_beq : List String → List String → Bool
texts_beq [] [] = true
texts_beq [] (t ∷ ts) = false
texts_beq (s ∷ ss) [] = false
texts_beq (s ∷ ss) (t ∷ ts) = s == t && texts_beq ss ts

module _ {F : Type 0} ⦃f : Float F⦄ where
  abbrev bounds_same : Bounds F → Bounds F → Bool
  bounds_same a b = f.same a.x b.x && f.same a.y b.y && f.same a.w b.w && f.same a.h b.h

  -- The same key with the same value.
  abbrev pub same_field : Field F → Field F → Bool
  same_field (Field.bounds a) (Field.bounds b) = bounds_same a b
  same_field (Field.checked a) (Field.checked b) = a == b
  same_field (Field.enabled a) (Field.enabled b) = a == b
  same_field (Field.focused a) (Field.focused b) = a == b
  same_field (Field.visible a) (Field.visible b) = a == b
  same_field (Field.name a) (Field.name b) = a == b
  same_field (Field.role a) (Field.role b) = a == b
  same_field (Field.value a) (Field.value b) = a == b
  same_field (Field.states a) (Field.states b) = texts_beq a b
  same_field _ _ = false

  -- The new fields that the old node does not have with the same value. A key stands once in a node,
  -- so `old_fields.get(k) == Some(v)` is a search for the entry.
  unfoldable pub changed_fields : Attrs F → Attrs F → List (Field F)
  unfolding scalar_fields
  changed_fields old new =
      filter (λ v. not (any (λ o. same_field v o) (scalar_fields old))) (scalar_fields new)

pub record AddedNode (F : Type 0) : Type 0 where
  pub added : UiNode F
  pub parent : Option String

pub record ChangedNode (F : Type 0) : Type 0 where
  pub id : String
  pub fields : List (Field F)

pub record TreeDiff (F : Type 0) : Type 0 where
  pub added : List (AddedNode F)
  pub removed : List String
  pub changed : List (ChangedNode F)

abbrev pub Index : Type 0 → Type 0
Index F = Map (UiNode F × Option String)

module _ {F : Type 0} where
  unfoldable mutual
    pub index_node : UiNode F → Option String → Index F → Index F
    index_node (node a cs) parent out =
        index_nodes cs (some a.id) (insert a.id (node a cs, parent) out)

    pub index_nodes : Nodes F → Option String → Index F → Index F
    index_nodes nil parent out = out
    index_nodes (cons n ns) parent out = index_nodes ns parent (index_node n parent out)

  unfoldable pub index : UiTree F → Index F
  unfolding index_node
  index t = index_nodes t.nodes none []

  abbrev has_none : Option (UiNode F × Option String) → Bool
  has_none none = true
  has_none (some e) = false

  abbrev differs : Option String → Option (UiNode F × Option String) → Bool
  differs old_parent none = false
  differs old_parent (some (n, p)) = not (p == old_parent)

  -- The parent is new or moved, so the node is embedded in the added copy of an ancestor.
  abbrev is_embedded : Index F → Index F → Option String → Bool
  is_embedded before after none = false
  is_embedded before after (some p) = elim (get p before) [
    | none ↦ true
    | some old ↦ differs (old.1) (get p after)
  ]

-- `Vec::sort` of texts: stable, and entries that compare equal are the same.
abbrev insert_sorted : String → List String → List String
insert_sorted s [] = s ∷ []
insert_sorted s (t ∷ ts) =
    let rest = t ∷ insert_sorted s ts in if str_lt t s then rest else s ∷ t ∷ ts

abbrev sort : List String → List String
sort [] = []
sort (s ∷ ss) = insert_sorted s (sort ss)

module _ {F : Type 0} ⦃f : Float F⦄ where
  abbrev edit : String → List (Field F) → TreeDiff F → TreeDiff F
  edit id [] d = d
  edit id (v ∷ vs) d = record d { changed = d.changed ++ record { id = id; fields = v ∷ vs } ∷ [] }

  -- One round of the loop over `after`.
  abbrev visit_entry :
      Index F → Index F → TreeDiff F → String × (UiNode F × Option String) → TreeDiff F
  visit_entry before after d (id, (n, parent)) = elim (get id before) [
    | none ↦
        if is_embedded before after parent
        then d
        else record d { added = d.added ++ record { added = n; parent = parent } ∷ [] }
    | some old ↦
        if not (old.1 == parent)
        then record d {
          removed = d.removed ++ id ∷ [];
          added = d.added ++ record { added = n; parent = parent } ∷ [];
        }
        else edit id (changed_fields (attrs (old.0)) (attrs n)) d
  ]

  unfoldable pub visit_entries :
      Index F → Index F → TreeDiff F → List (String × (UiNode F × Option String)) → TreeDiff F
  unfolding changed_fields
  visit_entries before after d [] = d
  visit_entries before after d (e ∷ es) =
      visit_entries before after (visit_entry before after d e) es

  abbrev gone : Index F → Index F → List String
  gone before after = filter (λ id. has_none (get id after)) (keys before)

  -- The entries of `after` come in key order, so `added` and `changed` are sorted by id as they are
  -- built, and only `removed`, which is filled by two loops, is left to sort.
  unfoldable pub diff_trees : UiTree F → UiTree F → TreeDiff F
  unfolding index visit_entries
  diff_trees old new =
      let before = index old in
      let after = index new in
      let d =
        visit_entries before after (record { added = []; removed = []; changed = [] }) after in
      record d { removed = sort (d.removed ++ gone before after) }
