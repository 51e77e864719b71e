-- ===== src/Dispatch/Assert/Satisfied.antt =====
-- When `assert_tree` of dispatch.rs accepts a tree.
use gpui_agent.Base.{
  ◌≡◌, ◌↔◌, refl, sym, subst, ap, String, Bool, true, false, Option, none, some, List, [], ◌∷◌,
  ◌==◌, string_eq, bool_eq, option_eq, Eq, if◌then◌else◌, filter, arith,
}
use gpui_agent.Base.Float.{Float}
use gpui_agent.Error.{Error, Result, ok, err, ensure, ◌>>=◌, ◌>>◌}
use gpui_agent.Tree.{UiNode, attrs, UiTree}
use gpui_agent.Tree.Roots
use gpui_agent.Tree.Order.{preorder_in, has_id, occurrences, collect_ids-filter}
use gpui_agent.Protocol.{AssertSpec}
use gpui_agent.Dispatch.Assert.{
  node_in_viewport, check_node, check_name, check_value, check_role, check_checked, check_visible,
  check_in_viewport, check_absent, wants_node, assert_tree,
}

-- A wish that may be missing.
abbrev pub Wanted {ℓ} : {A : Type ℓ} → Option A → (A → Type 0) → Type 0
Wanted none P = Unit
Wanted (some a) P = P a

-- Two checks in a row pass when both do.
both :
    {P Q : Type 0} (m k : Result (Unit {0}))
    → (m ≡ ok tt) ↔ P
    → (k ≡ ok tt) ↔ Q
    → ((m >> k) ≡ ok tt) ↔ (P × Q)
both (ok tt) k p q = (λ h. (p.0 refl, q.0 h), λ (a, b). q.1 b)
both (err e) k p q = (λ h. cc, λ (a, b). cc (p.1 a))

module _ {ℓ} {A : Type ℓ} ⦃e : Eq A⦄ where
  ensure-eq : (a b : A) (m : Error) → (ensure (a == b) m ≡ ok tt) ↔ (a ≡ b)
  ensure-eq a b m =
      (λ h. ground (arith, (e.beq_iff a b).0, h), λ h. ground (arith, (e.beq_iff a b).1 h))

module _ {F : Type 0} ⦃f : Float F⦄ (t : UiTree F) (spec : AssertSpec) where
  -- Every field that the assertion names is the node's.
  abbrev pub Shows : UiNode F → Type 0
  Shows n =
      Wanted spec.name (λ s. (attrs n).name ≡ s)
      × (Wanted spec.value (λ s. (attrs n).value ≡ some s)
          × (Wanted spec.role (λ s. (attrs n).role ≡ s)
              × (Wanted spec.checked (λ b. (attrs n).checked ≡ some b)
                  × (Wanted spec.visible (λ b. (attrs n).visible ≡ b)
                      × Wanted spec.in_viewport (λ b. node_in_viewport t n ≡ ok b)))))

  name-Wanted :
      (n : UiNode F) (o : Option String)
      → (check_name n spec.target o ≡ ok tt) ↔ Wanted o (λ s. (attrs n).name ≡ s)
  name-Wanted n none = (λ h. tt, λ h. refl)
  name-Wanted n (some s) =
      ensure-eq (attrs n).name s (Error.name_mismatch spec.target s (attrs n).name)

  value-Wanted :
      (n : UiNode F) (o : Option String)
      → (check_value n spec.target o ≡ ok tt) ↔ Wanted o (λ s. (attrs n).value ≡ some s)
  value-Wanted n none = (λ h. tt, λ h. refl)
  value-Wanted n (some s) =
      ensure-eq ⦃e = option_eq ⦃e = string_eq⦄⦄ (attrs n).value (some s)
        (Error.value_mismatch spec.target s (attrs n).value)

  role-Wanted :
      (n : UiNode F) (o : Option String)
      → (check_role n spec.target o ≡ ok tt) ↔ Wanted o (λ s. (attrs n).role ≡ s)
  role-Wanted n none = (λ h. tt, λ h. refl)
  role-Wanted n (some s) =
      ensure-eq (attrs n).role s (Error.role_mismatch spec.target s (attrs n).role)

  checked-Wanted :
      (n : UiNode F) (o : Option Bool)
      → (check_checked n spec.target o ≡ ok tt) ↔ Wanted o (λ b. (attrs n).checked ≡ some b)
  checked-Wanted n none = (λ h. tt, λ h. refl)
  checked-Wanted n (some b) =
      ensure-eq ⦃e = option_eq ⦃e = bool_eq⦄⦄ (attrs n).checked (some b)
        (Error.checked_mismatch spec.target b (attrs n).checked)

  visible-Wanted :
      (n : UiNode F) (o : Option Bool)
      → (check_visible n spec.target o ≡ ok tt) ↔ Wanted o (λ b. (attrs n).visible ≡ b)
  visible-Wanted n none = (λ h. tt, λ h. refl)
  visible-Wanted n (some b) =
      ensure-eq (attrs n).visible b (Error.visible_mismatch spec.target b (attrs n).visible)

  seen-eq :
      (r : Result Bool) (b : Bool)
      → ((r >>= λ actual. ensure (actual == b) (Error.in_viewport_mismatch spec.target b actual))
          ≡ ok tt)
        ↔ (r ≡ ok b)
  seen-eq (err m) b = (λ h. cc, λ h. cc)
  seen-eq (ok actual) b =
      let e = ensure-eq actual b (Error.in_viewport_mismatch spec.target b actual) in
      (λ h. ap ok (e.0 h), λ h. ground (arith, h, e.1))

  viewport-Wanted :
      (n : UiNode F) (o : Option Bool)
      → (check_in_viewport t n spec.target o ≡ ok tt) ↔ Wanted o (λ b. node_in_viewport t n ≡ ok b)
  viewport-Wanted n none = (λ h. tt, λ h. refl)
  viewport-Wanted n (some b) = seen-eq (node_in_viewport t n) b

  check_node-Shows : (n : UiNode F) → (check_node t spec n ≡ ok tt) ↔ Shows n
  unfolding check_node
  check_node-Shows n = both _ _ (name-Wanted n spec.name) (
      both _ _ (value-Wanted n spec.value) (
        both _ _ (role-Wanted n spec.role) (
          both _ _ (checked-Wanted n spec.checked)
            (both _ _ (visible-Wanted n spec.visible) (viewport-Wanted n spec.in_viewport)))))

  -- The independent description, by the nodes that carry the target's id.
  abbrev pub Satisfied : Bool → List (UiNode F) → Type 0
  Satisfied false ns = ns ≡ []
  Satisfied true ns = (n : UiNode F) × (ns ≡ n ∷ []) × Shows n

  absent-nil : (ns : List (UiNode F)) → (check_absent spec.target ns ≡ ok tt) ↔ (ns ≡ [])
  absent-nil [] = (λ h. refl, λ h. refl)
  absent-nil (n ∷ []) = (λ h. cc, λ h. cc)
  absent-nil (n ∷ m ∷ ns) = (λ h. cc, λ h. cc)

  one-Shows :
      (ns : List (UiNode F))
      → ((Roots.require_one spec.target ns >>= check_node t spec) ≡ ok tt) ↔ Satisfied true ns
  one-Shows [] = (λ h. cc, λ (n, e, s). cc e)
  one-Shows (n ∷ []) = (
    λ h. (n, refl, (check_node-Shows n).0 h),
    λ (m, e, s). let g = (check_node-Shows m).1 s in cc (e, g),
  )
  one-Shows (n ∷ m ∷ ns) = (λ h. cc, λ (k, e, s). cc e)

  found-Satisfied :
      (b : Bool) (ns : List (UiNode F))
      → ((if b
            then (Roots.require_one spec.target ns >>= check_node t spec)
            else check_absent spec.target ns)
          ≡ ok tt)
        ↔ Satisfied b ns
  found-Satisfied true ns = one-Shows ns
  found-Satisfied false ns = absent-nil ns

  -- `assert_tree` accepts exactly the trees that satisfy the assertion: with `exists: false` no node
  -- has the target's id; otherwise exactly one node has it, and that node shows every value that
  -- the assertion names, its place in the viewport included.
  pub assert_tree-Satisfied :
      (assert_tree t spec ≡ ok tt)
      ↔ Satisfied (wants_node spec.exists) (filter (has_id spec.target) (preorder_in t.nodes))
  unfolding assert_tree Roots.require_id Roots.find_all
  assert_tree-Satisfied =
      subst
        (λ ns.
          ((if wants_node spec.exists
              then (Roots.require_one spec.target ns >>= check_node t spec)
              else check_absent spec.target ns)
            ≡ ok tt)
          ↔ Satisfied (wants_node spec.exists) (occurrences spec.target t.nodes))
        (sym (collect_ids-filter t.nodes spec.target []))
        (found-Satisfied (wants_node spec.exists) (occurrences spec.target t.nodes))
