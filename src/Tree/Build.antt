-- ===== src/Tree/Build.antt =====
-- The constructors and builder methods of `UiNode`.
use gpui_agent.Base.{String, Bool, true, false, none, some, [], ◌∷◌, ◌++◌, if◌then◌else◌}
use gpui_agent.Base.Float.{Float}
use gpui_agent.Tree.Rect.{default}
use gpui_agent.Tree.{UiNode, Nodes, node, nil, cons}

module _ {F : Type 0} ⦃f : Float F⦄ where
  -- `UiNode::new`
  unfoldable pub new : String → String → String → UiNode F
  new id role name =
      node
        (record {
          id = id;
          role = role;
          name = name;
          value = none;
          checked = none;
          enabled = true;
          focused = false;
          visible = true;
          bounds = default;
          states = [];
        })
        nil

  unfoldable pub window : String → String → UiNode F
  unfolding new
  window id name = new id "window" name

  unfoldable pub page : String → String → UiNode F
  unfolding new
  page id name = new id "page" name

  unfoldable pub navigation : String → String → UiNode F
  unfolding new
  navigation id name = new id "navigation" name

  unfoldable pub button : String → String → UiNode F
  unfolding new
  button id name = new id "button" name

  unfoldable pub textbox : String → String → UiNode F
  unfolding new
  textbox id name = new id "textbox" name

  unfoldable pub list : String → String → UiNode F
  unfolding new
  list id name = new id "list" name

  unfoldable pub listitem : String → String → UiNode F
  unfolding new
  listitem id name = new id "listitem" name

  unfoldable pub scroll : String → String → UiNode F
  unfolding new
  scroll id name = new id "scroll" name

  unfoldable pub checkbox : String → String → UiNode F
  unfolding new
  checkbox id name = new id "checkbox" name

  unfoldable pub note : String → String → UiNode F
  unfolding new
  note id name = new id "note" name

  unfoldable pub status : String → String → UiNode F
  unfolding new
  status id name = new id "status" name

module _ {F : Type 0} where
  unfoldable pub push : Nodes F → UiNode F → Nodes F
  push nil n = cons n nil
  push (cons m ns) n = cons m (push ns n)

  unfoldable pub with_value : UiNode F → String → UiNode F
  with_value (node a cs) value = node (record a { value = some value }) cs

  unfoldable pub with_checked : UiNode F → Bool → UiNode F
  with_checked (node a cs) checked =
      node
        (record a {
          checked = some checked;
          states = a.states ++ (if checked then "checked" else "unchecked") ∷ [];
        })
        cs

  unfoldable pub with_child : UiNode F → UiNode F → UiNode F
  unfolding push
  with_child (node a cs) child = node a (push cs child)

  unfoldable pub with_children : UiNode F → Nodes F → UiNode F
  with_children (node a cs) ns = node a ns

  -- `with_visible_deep(false)` on a node and on each of a list of children.
  unfoldable mutual
    pub hide : UiNode F → UiNode F
    hide (node a cs) = node (record a { visible = false }) (hide_all cs)

    pub hide_all : Nodes F → Nodes F
    hide_all nil = nil
    hide_all (cons n ns) = cons (hide n) (hide_all ns)

  -- Hiding reaches every descendant, showing only the node itself.
  unfoldable pub with_visible_deep : UiNode F → Bool → UiNode F
  unfolding hide
  with_visible_deep (node a cs) true = node (record a { visible = true }) cs
  with_visible_deep (node a cs) false = hide (node a cs)
