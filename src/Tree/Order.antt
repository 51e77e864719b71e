-- ===== src/Tree/Order.antt =====
-- The searches against one description of the tree: the list of its nodes in pre-order.
use gpui_agent.Base.{
  suc, ◌≡◌, refl, sym, ◌∙◌, ap, String, Bool, List, [], ◌∷◌, ◌++◌, arith, append_assoc, append-nil,
  ◌==◌, string_eq, if◌then◌else◌, length, length-append, filter, filter-append, head?,
}
use gpui_agent.Error.{Error, Result, ok, err}
use gpui_agent.Tree.{UiNode, Nodes, node, nil, cons, attrs, UiTree}
use gpui_agent.Tree.Search.{
  or_else, find, find_in, collect_id, collect_ids, node_count, nodes_count, visit, visit_in,
}
use gpui_agent.Tree.Roots

module _ {F : Type 0} where
  -- The independent description: a node stands before its descendants, siblings in their order.
  unfoldable mutual
    pub preorder : UiNode F → List (UiNode F)
    preorder (node a cs) = node a cs ∷ preorder_in cs

    pub preorder_in : Nodes F → List (UiNode F)
    preorder_in nil = []
    preorder_in (cons n ns) = preorder n ++ preorder_in ns

  abbrev pub has_id : String → UiNode F → Bool
  has_id id n = (attrs n).id == id

  -- The nodes with an id, in pre-order.
  abbrev pub occurrences : String → Nodes F → List (UiNode F)
  occurrences id ns = filter (has_id id) (preorder_in ns)

  head?-append : (xs ys : List (UiNode F)) → head? (xs ++ ys) ≡ or_else (head? xs) (head? ys)
  head?-append [] ys = refl
  head?-append (x ∷ xs) ys = refl

  mutual
    unfolding preorder find

    find-head? : (n : UiNode F) (id : String) → find n id ≡ head? (filter (has_id id) (preorder n))
    find-head? (node a cs) id = ground (arith, find_in-head? cs id)

    pub find_in-head? : (ns : Nodes F) (id : String) → find_in ns id ≡ head? (occurrences id ns)
    find_in-head? nil id = refl
    find_in-head? (cons n ns) id =
        ap (λ o. or_else o (find_in ns id)) (find-head? n id)
        ∙ ap (or_else (head? (filter (has_id id) (preorder n)))) (find_in-head? ns id)
        ∙ sym (head?-append (filter (has_id id) (preorder n)) (occurrences id ns))
        ∙ ap head? (sym (filter-append (has_id id) (preorder n) (preorder_in ns)))

  mutual
    unfolding preorder collect_id

    collect_id-filter :
        (n : UiNode F) (id : String) (out : List (UiNode F))
        → collect_id n id out ≡ out ++ filter (has_id id) (preorder n)
    collect_id-filter (node a cs) id out =
        collect_ids-filter cs id (if a.id == id then out ++ node a cs ∷ [] else out)
        ∙ ground (arith, append_assoc out (node a cs ∷ []) (occurrences id cs))

    pub collect_ids-filter :
        (ns : Nodes F) (id : String) (out : List (UiNode F))
        → collect_ids ns id out ≡ out ++ occurrences id ns
    collect_ids-filter nil id out = sym (append-nil out)
    collect_ids-filter (cons n ns) id out =
        collect_ids-filter ns id (collect_id n id out)
        ∙ ap (λ l. l ++ occurrences id ns) (collect_id-filter n id out)
        ∙ append_assoc out (filter (has_id id) (preorder n)) (occurrences id ns)
        ∙ ap (◌++◌ out) (sym (filter-append (has_id id) (preorder n) (preorder_in ns)))

  abbrev snoc : List (UiNode F) → UiNode F → List (UiNode F)
  snoc out m = out ++ m ∷ []

  mutual
    unfolding preorder visit

    visit-preorder : (n : UiNode F) (out : List (UiNode F)) → visit snoc out n ≡ out ++ preorder n
    visit-preorder (node a cs) out =
        visit_in-preorder cs (out ++ node a cs ∷ [])
        ∙ append_assoc out (node a cs ∷ []) (preorder_in cs)

    pub visit_in-preorder :
        (ns : Nodes F) (out : List (UiNode F)) → visit_in snoc out ns ≡ out ++ preorder_in ns
    visit_in-preorder nil out = sym (append-nil out)
    visit_in-preorder (cons n ns) out =
        visit_in-preorder ns (visit snoc out n)
        ∙ ap (λ l. l ++ preorder_in ns) (visit-preorder n out)
        ∙ append_assoc out (preorder n) (preorder_in ns)

  mutual
    unfolding preorder node_count

    node_count-length : (n : UiNode F) → node_count n ≡ length (preorder n)
    node_count-length (node a cs) = omega (arith, nodes_count-length cs)

    pub nodes_count-length : (ns : Nodes F) → nodes_count ns ≡ length (preorder_in ns)
    nodes_count-length nil = refl
    nodes_count-length (cons n ns) = omega (
      arith,
      node_count-length n,
      nodes_count-length ns,
      length-append (preorder n) (preorder_in ns),
    )

  -- `find_all` answers every node with the id in pre-order, `find` the first of them, `flatten` all
  -- nodes in pre-order, and `node_count` their number.
  pub searches-preorder :
      (t : UiTree F) (id : String)
      → (Roots.find_all t id ≡ filter (has_id id) (preorder_in t.nodes))
        × (Roots.find t id ≡ head? (filter (has_id id) (preorder_in t.nodes)))
        × (Roots.flatten t ≡ preorder_in t.nodes)
        × (Roots.node_count t ≡ length (preorder_in t.nodes))
  unfolding Roots.find_all Roots.find Roots.flatten Roots.node_count
  searches-preorder t id = (
    collect_ids-filter t.nodes id [],
    find_in-head? t.nodes id,
    visit_in-preorder t.nodes [],
    nodes_count-length t.nodes,
  )

  -- What `require_id` answers on the list of the nodes with the id.
  abbrev pub Required : String → List (UiNode F) → Result (UiNode F) → Type 0
  Required id [] r = r ≡ err (Error.not_found id)
  Required id (n ∷ []) r = r ≡ ok n
  Required id (n ∷ m ∷ ns) r = r ≡ err (Error.duplicate_id id (suc (suc (length ns))))

  Required-one : (id : String) (ns : List (UiNode F)) → Required id ns (Roots.require_one id ns)
  Required-one id [] = refl
  Required-one id (n ∷ []) = refl
  Required-one id (n ∷ m ∷ ns) = refl

  -- `require_id` succeeds exactly when one node of the tree has the id, and answers that node; with
  -- none it says "not found", and with several it says how many.
  pub require_id-Required :
      (t : UiTree F) (id : String)
      → Required id (filter (has_id id) (preorder_in t.nodes)) (Roots.require_id t id)
  unfolding Roots.require_id
  require_id-Required t id =
      rw (sym (collect_ids-filter t.nodes id []))
        (unfold Roots.find_all in Required-one id (collect_ids t.nodes id []))
