-- ===== src/Tree/Gate.antt =====
-- What the fingerprints that a client reads are worth to the staleness gate.
use mathlib.Core.Option
use mathlib.Core.Path.{ap₂}
use mathlib.Core.List.{map-append}
use gpui_agent.Base.{
  ℕ, ◌≡◌, refl, sym, ap, ◌∙◌, ◌≢◌, String, Bool, Option, none, some, List, [], ◌∷◌, ◌++◌, arith,
  string_eq, filter, filter-append, head?, map, Bool-cases, inl, inr,
}
use gpui_agent.Base.Map.{Map, get, insert, get-insert}
use gpui_agent.Error.{ok}
use gpui_agent.Tree.Rect.{Bounds}
use gpui_agent.Tree.{Attrs, UiNode, Nodes, node, nil, cons, attrs, UiTree}
use gpui_agent.Tree.Search.{
  or_else, find_with_parent, find_with_parent_in, set_bounds, apply_bounds, apply_bounds_in,
}
use gpui_agent.Tree.Roots
use gpui_agent.Tree.Order.{preorder, preorder_in, has_id, collect_ids-filter}
use gpui_agent.Tree.Fingerprint.{
  fingerprint, fingerprint_attrs, fingerprint_of, walk, walk_in, fingerprint_map,
}

-- A node with the id of its parent.
abbrev Placed : Type 0 → Type 0
Placed F = UiNode F × Option String

module _ {F : Type 0} where
  abbrev id_is : String → Placed F → Bool
  id_is id x = has_id id x.0

  -- The nodes in pre-order, each with the id of its parent.
  mutual
    placed : UiNode F → Option String → List (Placed F)
    placed (node a cs) parent = (node a cs, parent) ∷ placed_in cs (some a.id)

    placed_in : Nodes F → Option String → List (Placed F)
    placed_in nil parent = []
    placed_in (cons n ns) parent = placed n parent ++ placed_in ns parent

  head?-append : (xs ys : List (Placed F)) → head? (xs ++ ys) ≡ or_else (head? xs) (head? ys)
  head?-append [] ys = refl
  head?-append (x ∷ xs) ys = refl

  mutual
    unfolding placed find_with_parent

    find_with_parent-head? :
        (n : UiNode F) (id : String) (p : Option String)
        → find_with_parent n id p ≡ head? (filter (id_is id) (placed n p))
    find_with_parent-head? (node a cs) id p =
        ground (arith, find_with_parent_in-head? cs id (some a.id))

    find_with_parent_in-head? :
        (ns : Nodes F) (id : String) (p : Option String)
        → find_with_parent_in ns id p ≡ head? (filter (id_is id) (placed_in ns p))
    find_with_parent_in-head? nil id p = refl
    find_with_parent_in-head? (cons n ns) id p =
        ap (λ o. or_else o (find_with_parent_in ns id p)) (find_with_parent-head? n id p)
        ∙ ap (or_else (head? (filter (id_is id) (placed n p)))) (find_with_parent_in-head? ns id p)
        ∙ sym (head?-append (filter (id_is id) (placed n p)) (filter (id_is id) (placed_in ns p)))
        ∙ ap head? (sym (filter-append (id_is id) (placed n p) (placed_in ns p)))

  -- The inserts of `walk`, one after another.
  put_all : Map ℕ → List (Placed F) → Map ℕ
  put_all out [] = out
  put_all out ((n, p) ∷ l) = put_all (insert (attrs n).id (fingerprint n p) out) l

  put_all-append :
      (out : Map ℕ) (k l : List (Placed F)) → put_all out (k ++ l) ≡ put_all (put_all out k) l
  unfolding put_all
  put_all-append out [] l = refl
  put_all-append out ((n, p) ∷ k) l = put_all-append (insert (attrs n).id (fingerprint n p) out) k l

  mutual
    unfolding placed walk put_all

    walk-put_all :
        (n : UiNode F) (p : Option String) (out : Map ℕ) → walk n p out ≡ put_all out (placed n p)
    walk-put_all (node a cs) p out =
        walk_in-put_all cs (some a.id) (insert a.id (fingerprint (node a cs) p) out)

    walk_in-put_all :
        (ns : Nodes F) (p : Option String) (out : Map ℕ)
        → walk_in ns p out ≡ put_all out (placed_in ns p)
    walk_in-put_all nil p out = refl
    walk_in-put_all (cons n ns) p out =
        walk_in-put_all ns p (walk n p out)
        ∙ ap (λ m. put_all m (placed_in ns p)) (walk-put_all n p out)
        ∙ sym (put_all-append out (placed n p) (placed_in ns p))

  -- An id that no entry has is left alone.
  get-put_all_absent :
      (id : String) (out : Map ℕ) (l : List (Placed F))
      → filter (id_is id) l ≡ []
      → get id (put_all out l) ≡ get id out
  unfolding put_all
  get-put_all_absent id out [] h = refl
  get-put_all_absent id out ((n, p) ∷ l) h = elim (Bool-cases (has_id id n)) [
    | inl e ↦ absurd (ground (arith, e, h))
    | inr e ↦
        get-put_all_absent id (insert (attrs n).id (fingerprint n p) out) l (rw e at h)
        ∙ get-insert id (attrs n).id (fingerprint n p) out
        ∙ rw e
  ]

  -- An id that one entry has is found with the fingerprint of that entry.
  get-put_all_one :
      (id : String) (out : Map ℕ) (l : List (Placed F)) (x : Placed F)
      → filter (id_is id) l ≡ x ∷ []
      → get id (put_all out l) ≡ some (fingerprint x.0 x.1)
  unfolding put_all
  get-put_all_one id out [] x h = cc
  get-put_all_one id out ((n, p) ∷ l) x h = elim (Bool-cases (has_id id n)) [
    | inl e ↦
        let split : Placed F × List (Placed F) = (x, []) in
        get-put_all_absent id (insert (attrs n).id (fingerprint n p) out) l (ground (arith, e, h))
        ∙ get-insert id (attrs n).id (fingerprint n p) out
        ∙ ground (arith, e, h)
    | inr e ↦ get-put_all_one id (insert (attrs n).id (fingerprint n p) out) l x (rw e at h)
  ]

  mutual
    unfolding placed preorder

    map-placed : (n : UiNode F) (p : Option String) → map (λ x. x.0) (placed n p) ≡ preorder n
    map-placed (node a cs) p = ap (◌∷◌ (node a cs)) (map-placed_in cs (some a.id))

    map-placed_in :
        (ns : Nodes F) (p : Option String) → map (λ x. x.0) (placed_in ns p) ≡ preorder_in ns
    map-placed_in nil p = refl
    map-placed_in (cons n ns) p =
        map-append (λ x. x.0) (placed n p) (placed_in ns p)
        ∙ ap₂ ◌++◌ (map-placed n p) (map-placed_in ns p)

  filter-map :
      (id : String) (l : List (Placed F))
      → map (λ x. x.0) (filter (id_is id) l) ≡ filter (has_id id) (map (λ x. x.0) l)
  filter-map id [] = refl
  filter-map id (x ∷ l) = ground (arith, filter-map id l)

  one_of_map :
      (l : List (Placed F)) (n : UiNode F)
      → map (λ x. x.0) l ≡ n ∷ []
      → (x : Placed F) × (l ≡ x ∷ [])
  one_of_map [] n h = cc
  one_of_map (x ∷ []) n h = (x, refl)
  one_of_map (x ∷ y ∷ l) n h = cc

  one_of_require :
      (id : String) (ns : List (UiNode F)) (n : UiNode F)
      → Roots.require_one id ns ≡ ok n
      → ns ≡ n ∷ []
  one_of_require id [] n h = cc
  one_of_require id (m ∷ []) n h = ground arith
  one_of_require id (m ∷ k ∷ ns) n h = cc

  placed_one :
      (t : UiTree F) (id : String) (n : UiNode F)
      → Roots.require_id t id ≡ ok n
      → (x : Placed F) × (filter (id_is id) (placed_in t.nodes none) ≡ x ∷ [])
  unfolding Roots.require_id
  placed_one t id n h = one_of_map (filter (id_is id) (placed_in t.nodes none)) n (
      filter-map id (placed_in t.nodes none)
      ∙ ap (filter (has_id id)) (map-placed_in t.nodes none)
      ∙ sym (collect_ids-filter t.nodes id [])
      ∙ one_of_require id (Roots.find_all t id) n h)

  -- For an id that one node of the tree has, the fingerprint that `snapshot fingerprints:true`
  -- reports is the one that the gate recomputes for that id: a client that sends it back passes as
  -- long as the tree is the same.
  pub fingerprint_map-gate :
      (t : UiTree F) (id : String) (n : UiNode F)
      → Roots.require_id t id ≡ ok n
      → (get id (fingerprint_map t) ≡ fingerprint_of t id) × (fingerprint_of t id ≢ none)
  unfolding fingerprint_map fingerprint_of
  fingerprint_map-gate t id n h =
      let (x, one) = placed_one t id n h in
      let found : find_with_parent_in t.nodes id none ≡ some x =
        find_with_parent_in-head? t.nodes id none ∙ ap head? one in
      let mapped : get id (walk_in t.nodes none []) ≡ some (fingerprint x.0 x.1) =
        ap (get id) (walk_in-put_all t.nodes none [])
        ∙ get-put_all_one id [] (placed_in t.nodes none) x one in
      (mapped ∙ rw found, λ e. ground (arith, found, e))

module _ {F : Type 0} (m : String → Option (Bounds F)) where
  fingerprint-set_bounds :
      (a : Attrs F) (b : Option (Bounds F)) (p : Option String)
      → fingerprint_attrs (set_bounds a b) p ≡ fingerprint_attrs a p
  unfolding fingerprint_attrs
  fingerprint-set_bounds a none p = refl
  fingerprint-set_bounds a (some b) p = refl

  id-set_bounds : (a : Attrs F) (b : Option (Bounds F)) → (set_bounds a b).id ≡ a.id
  id-set_bounds a none = refl
  id-set_bounds a (some b) = refl

  abbrev moved : Placed F → Placed F
  moved (n, p) = (apply_bounds m n, p)

  mutual
    unfolding find_with_parent apply_bounds

    find_with_parent-apply_bounds :
        (n : UiNode F) (id : String) (p : Option String)
        → find_with_parent (apply_bounds m n) id p ≡ Option.map moved (find_with_parent n id p)
    find_with_parent-apply_bounds (node a cs) id p =
        ground (arith, id-set_bounds a (m a.id), find_with_parent_in-apply_bounds cs id (some a.id))

    find_with_parent_in-apply_bounds :
        (ns : Nodes F) (id : String) (p : Option String)
        → find_with_parent_in (apply_bounds_in m ns) id p
          ≡ Option.map moved (find_with_parent_in ns id p)
    find_with_parent_in-apply_bounds nil id p = refl
    find_with_parent_in-apply_bounds (cons n ns) id p =
        ground
          (arith, find_with_parent-apply_bounds n id p, find_with_parent_in-apply_bounds ns id p)

  fingerprint-moved :
      (o : Option (Placed F))
      → Option.map (λ (n, p). fingerprint n p) (Option.map moved o)
        ≡ Option.map (λ (n, p). fingerprint n p) o
  unfolding fingerprint apply_bounds
  fingerprint-moved none = refl
  fingerprint-moved (some (node a cs, p)) = ap some (fingerprint-set_bounds a (m a.id) p)

  -- A repaint that moves or resizes nodes never makes the gate refuse: no fingerprint changes.
  pub fingerprint_of-apply_bounds :
      (t : UiTree F) (id : String)
      → fingerprint_of (Roots.apply_bounds m t) id ≡ fingerprint_of t id
  unfolding fingerprint_of Roots.apply_bounds
  fingerprint_of-apply_bounds t id =
      rw (find_with_parent_in-apply_bounds t.nodes id none)
        (fingerprint-moved (find_with_parent_in t.nodes id none))
