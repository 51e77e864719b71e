-- ===== src/Diff/Compact.antt =====
-- `format:"compact"`: `compact_lines` of crates/gpui-agent/src/diff.rs, on code points.
use gpui_agent.Base.{
  ℕ, zero, suc, ◌≡◌, refl, Bool-cases, inl, inr, String, Bool, true, ◌||◌, ◌++◌, Option, none, some,
  List, [], ◌∷◌, arith, ◌==◌, string_eq, nat_eq, option_eq, bool_eq, if◌then◌else◌, any, length,
  take, ltb, map,
}
use gpui_agent.Base.Text.{Text, codes, join}
use gpui_agent.Tree.{Attrs, UiNode, Nodes, node, nil, cons, UiTree}

abbrev max_value_chars : ℕ
max_value_chars = 200

-- `replace('"', "'")`
unfoldable pub unquote : Text → Text
unquote = map (λ c. if c == b'"' then b'\'' else c)

unfoldable pub indent : ℕ → Text
indent zero = []
indent (suc d) = codes "  " ++ indent d

unfoldable pub shown_value : Text → Text
shown_value v = take max_value_chars v ++ (if ltb max_value_chars (length v) then codes "…" else [])

abbrev bracketed : List Text → Text
bracketed [] = []
bracketed (w ∷ ws) = codes "  [" ++ (join (codes "|") (w ∷ ws) ++ codes "]")

module _ {F : Type 0} where
  unfoldable pub is_password : Attrs F → Bool
  is_password a = a.role == "password" || any (λ s. s == "password") a.states

  abbrev value_flag : Attrs F → Option String → List Text
  value_flag a none = []
  value_flag a (some v) =
      if is_password a
      then []
      else (codes "value=\"" ++ (unquote (shown_value (codes v)) ++ codes "\"")) ∷ []

  unfoldable pub flags : Attrs F → List Text
  flags a =
      (if a.checked == some true then codes "checked" ∷ [] else [])
      ++ ((if a.enabled then [] else codes "disabled" ∷ [])
          ++ ((if a.focused then codes "focused" ∷ [] else []) ++ value_flag a a.value))

  -- The line of one visible node.
  unfoldable pub line : Attrs F → ℕ → Text
  unfolding flags
  line a depth =
      indent depth
      ++ (codes a.id
          ++ (codes " "
              ++ (codes a.role
                  ++ (codes " \""
                      ++ (unquote (codes a.name)
                          ++ (codes "\"" ++ (bracketed (flags a) ++ codes "\n")))))))

  unfoldable mutual
    unfolding line is_password unquote shown_value indent

    pub compact_node : UiNode F → ℕ → Text
    compact_node (node a cs) depth =
        if a.visible then line a depth ++ compact_nodes cs (suc depth) else []

    pub compact_nodes : Nodes F → ℕ → Text
    compact_nodes nil depth = []
    compact_nodes (cons n ns) depth = compact_node n depth ++ compact_nodes ns depth

  unfoldable pub compact_lines : UiTree F → Text
  unfolding compact_node
  compact_lines t = compact_nodes t.nodes 0

  -- What a reader of the compact form may learn of a node: the value of a password is wiped.
  abbrev pub wiped : Attrs F → Attrs F
  wiped a = if is_password a then record a { value = none } else a

  -- The tree without its hidden subtrees, and with its passwords wiped.
  mutual
    pub public_nodes : Nodes F → Nodes F
    public_nodes nil = nil
    public_nodes (cons n ns) = keep_visible n (public_nodes ns)

    pub keep_visible : UiNode F → Nodes F → Nodes F
    keep_visible (node a cs) ns =
        if a.visible then cons (node (wiped a) (public_nodes cs)) ns else ns

  pub public_tree : UiTree F → UiTree F
  public_tree t = record t { nodes = public_nodes t.nodes }

  flags-wiped : (a : Attrs F) → flags (wiped a) ≡ flags a
  unfolding flags
  flags-wiped a = elim (Bool-cases (is_password a)) [
    | inl e ↦ rw e (ground (arith, e))
    | inr e ↦ rw e
  ]

  line-wiped : (a : Attrs F) (depth : ℕ) → line (wiped a) depth ≡ line a depth
  unfolding line
  line-wiped a depth = elim (Bool-cases (is_password a)) [
    | inl e ↦ ground (arith, e, flags-wiped a)
    | inr e ↦ rw e
  ]

  visible-wiped : (a : Attrs F) → (wiped a).visible ≡ a.visible
  visible-wiped a = ground arith

  mutual
    unfolding public_nodes compact_node

    compact_nodes-public :
        (ns : Nodes F) (depth : ℕ) → compact_nodes (public_nodes ns) depth ≡ compact_nodes ns depth
    compact_nodes-public nil depth = refl
    compact_nodes-public (cons n ns) depth =
        compact_keep n (public_nodes ns) ns depth (compact_nodes-public ns depth)

    compact_keep :
        (n : UiNode F) (ns ms : Nodes F) (depth : ℕ)
        → compact_nodes ns depth ≡ compact_nodes ms depth
        → compact_nodes (keep_visible n ns) depth ≡ compact_node n depth ++ compact_nodes ms depth
    compact_keep (node a cs) ns ms depth h =
        ground (arith, h, visible-wiped a, line-wiped a depth, compact_nodes-public cs (suc depth))

  -- The compact form is the same for the public tree: nothing below a hidden node and no value of a
  -- password node has any influence on it.
  pub compact_lines-public : (t : UiTree F) → compact_lines (public_tree t) ≡ compact_lines t
  unfolding compact_lines public_tree
  compact_lines-public t = compact_nodes-public t.nodes 0
