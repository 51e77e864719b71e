-- ===== src/Diff/Fields.antt =====
-- The field edits of a diff: `scalar_fields`, the comparison in `diff_trees`, and `apply_fields`.
use gpui_agent.Base.{
  ◌≡◌, refl, sym, ap, ◌∙◌, String, Bool, true, false, not, Option, none, some, List, [], ◌∷◌, ◌++◌,
  arith, ◌==◌, string_eq, bool_eq, option_eq, any, filter, filter-append, Bool-cases, inl, inr,
  beq_refl,
}
use gpui_agent.Base.Float.{Float}
use gpui_agent.Tree.Rect.{Bounds}
use gpui_agent.Tree.{Attrs}
use gpui_agent.Diff.{
  Field, checked_field, states_field, value_field, visible_field, scalar_fields, texts_beq,
  bounds_same, same_field, changed_fields,
}

abbrev all_read : {F : Type 0} → Option F → Option F → Option F → Option F → Option (Bounds F)
all_read (some x) (some y) (some w) (some h) = some (record { x = x; y = y; w = w; h = h })
all_read _ _ _ _ = none

-- `serde_json::from_value` on the JSON of bounds: each number has to be read.
abbrev pub read_bounds : {F : Type 0} → ⦃f : Float F⦄ → Bounds F → Option (Bounds F)
read_bounds ⦃f⦄ b = all_read (f.from_json b.x) (f.from_json b.y) (f.from_json b.w) (f.from_json b.h)

module _ {F : Type 0} where
  -- `if let Ok(b) = …`: bounds that cannot be read leave the node as it is.
  abbrev set_bounds : Attrs F → Option (Bounds F) → Attrs F
  set_bounds a none = a
  set_bounds a (some b) = record a { bounds = b }

module _ {F : Type 0} ⦃f : Float F⦄ where
  abbrev apply_field : Attrs F → Field F → Attrs F
  apply_field a (Field.bounds b) = set_bounds a (read_bounds b)
  apply_field a (Field.checked b) = record a { checked = some b }
  apply_field a (Field.enabled b) = record a { enabled = b }
  apply_field a (Field.focused b) = record a { focused = b }
  apply_field a (Field.visible b) = record a { visible = b }
  apply_field a (Field.name s) = record a { name = s }
  apply_field a (Field.role s) = record a { role = s }
  apply_field a (Field.value s) = record a { value = some s }
  apply_field a (Field.states ss) = record a { states = ss }

  unfoldable pub apply_fields : Attrs F → List (Field F) → Attrs F
  apply_fields a [] = a
  apply_fields a (v ∷ vs) = apply_fields (apply_field a v) vs

texts_beq_refl : (ss : List String) → texts_beq ss ss ≡ true
texts_beq_refl [] = refl
texts_beq_refl (s ∷ ss) = ground (arith, beq_refl s, texts_beq_refl ss)

texts_eq : (ss ts : List String) → texts_beq ss ts ≡ true → ss ≡ ts
texts_eq [] [] h = refl
texts_eq [] (t ∷ ts) h = cc
texts_eq (s ∷ ss) [] h = cc
texts_eq (s ∷ ss) (t ∷ ts) h = ground (arith, string_eq.beq_iff s t, texts_eq ss ts)

module _ {F : Type 0} ⦃f : Float F⦄ (old : Attrs F) where
  -- The old node has this entry.
  has : Field F → Bool
  has v = any (λ o. same_field v o) (scalar_fields old)

  has-bounds : (b : Bounds F) → has (Field.bounds b) ≡ bounds_same b old.bounds
  unfolding has scalar_fields
  has-bounds b = ground arith

  has-checked : (b : Bool) → has (Field.checked b) ≡ (some b == old.checked)
  unfolding has scalar_fields
  has-checked b = ground arith

  has-enabled : (b : Bool) → has (Field.enabled b) ≡ (b == old.enabled)
  unfolding has scalar_fields
  has-enabled b = ground arith

  has-focused : (b : Bool) → has (Field.focused b) ≡ (b == old.focused)
  unfolding has scalar_fields
  has-focused b = ground arith

  has-name : (s : String) → has (Field.name s) ≡ (s == old.name)
  unfolding has scalar_fields
  has-name s = ground arith

  has-role : (s : String) → has (Field.role s) ≡ (s == old.role)
  unfolding has scalar_fields
  has-role s = ground arith

  has-value : (s : String) → has (Field.value s) ≡ (some s == old.value)
  unfolding has scalar_fields
  has-value s = ground arith

  has-states :
      (s : String) (ss : List String) → has (Field.states (s ∷ ss)) ≡ texts_beq (s ∷ ss) old.states
  unfolding has scalar_fields
  has-states s ss = ground arith

  has-hidden : has (Field.visible false) ≡ not old.visible
  unfolding has scalar_fields
  has-hidden = ground arith

  changed_fields-filter :
      (new : Attrs F) → changed_fields old new ≡ filter (λ v. not (has v)) (scalar_fields new)
  unfolding changed_fields has
  changed_fields-filter new = refl

  abbrev fresh : List (Field F) → List (Field F)
  fresh = filter (λ v. not (has v))

  step-bounds :
      (a : Attrs F) (b : Bounds F)
      → read_bounds b ≡ some b
      → (bounds_same b old.bounds ≡ true → b ≡ old.bounds)
      → a.bounds ≡ old.bounds
      → apply_fields a (fresh (Field.bounds b ∷ [])) ≡ record a { bounds = b }
  unfolding apply_fields
  step-bounds a b read law e = elim (Bool-cases (bounds_same b old.bounds)) [
    | inl s ↦ rw (has-bounds b ∙ s) (λ i. record a { bounds = (e ∙ sym (law s)) i })
    | inr d ↦ rw (has-bounds b ∙ d, read) refl
  ]

  step-checked :
      (a : Attrs F) (c : Option Bool)
      → a.checked ≡ old.checked
      → (c ≡ none → old.checked ≡ none)
      → apply_fields a (fresh (checked_field c)) ≡ record a { checked = c }
  unfolding apply_fields
  step-checked a none e kept = ground (arith, kept refl)
  step-checked a (some b) e kept =
      ground (arith, has-checked b, (option_eq ⦃e = bool_eq⦄).beq_iff (some b) old.checked)

  step-value :
      (a : Attrs F) (v : Option String)
      → a.value ≡ old.value
      → (v ≡ none → old.value ≡ none)
      → apply_fields a (fresh (value_field v)) ≡ record a { value = v }
  unfolding apply_fields
  step-value a none e kept = ground (arith, kept refl)
  step-value a (some s) e kept =
      ground (arith, has-value s, (option_eq ⦃e = string_eq⦄).beq_iff (some s) old.value)

  step-states :
      (a : Attrs F) (ss : List String)
      → a.states ≡ old.states
      → (ss ≡ [] → old.states ≡ [])
      → apply_fields a (fresh (states_field ss)) ≡ record a { states = ss }
  unfolding apply_fields
  step-states a [] e kept = ground (arith, kept refl)
  step-states a (s ∷ ss) e kept = ground (arith, has-states s ss, texts_eq (s ∷ ss) old.states)

  step-visible :
      (a : Attrs F) (b : Bool)
      → a.visible ≡ old.visible
      → (b ≡ true → old.visible ≡ true)
      → apply_fields a (fresh (visible_field b)) ≡ record a { visible = b }
  unfolding apply_fields
  step-visible a true e kept = ground (arith, kept refl)
  step-visible a false e kept = ground (arith, has-hidden)

  step-plain :
      (a : Attrs F) (enabled focused : Bool) (name role : String)
      → a.enabled ≡ old.enabled
      → a.focused ≡ old.focused
      → a.name ≡ old.name
      → a.role ≡ old.role
      → apply_fields a (
          fresh (
            Field.enabled enabled ∷ Field.focused focused ∷ Field.name name ∷ Field.role role ∷ []))
        ≡ record a { enabled = enabled; focused = focused; name = name; role = role }
  unfolding apply_fields
  step-plain a enabled focused name role e₁ e₂ e₃ e₄ = ground (
    arith,
    has-enabled enabled,
    has-focused focused,
    has-name name,
    has-role role,
    bool_eq.beq_iff enabled old.enabled,
    bool_eq.beq_iff focused old.focused,
    string_eq.beq_iff name old.name,
    string_eq.beq_iff role old.role,
  )

-- What an edit list can say about the step from `old` to `new`: nothing vanishes from the JSON of the
-- node, that is, no value or check mark is lost, no list of states is emptied, and a hidden node
-- stays hidden; and the new bounds are read back from their JSON, where they are the old ones if
-- that is the old JSON.
pub record KeepsKeys {F : Type 0} ⦃f : Float F⦄ (old new : Attrs F) : Type 0 where
  pub id_kept : new.id ≡ old.id
  pub value_kept : new.value ≡ none → old.value ≡ none
  pub checked_kept : new.checked ≡ none → old.checked ≡ none
  pub states_kept : new.states ≡ [] → old.states ≡ []
  pub stays_hidden : new.visible ≡ true → old.visible ≡ true
  pub bounds_read : read_bounds new.bounds ≡ some new.bounds
  pub bounds_kept : bounds_same new.bounds old.bounds ≡ true → new.bounds ≡ old.bounds

module _ {F : Type 0} ⦃f : Float F⦄ where
  apply_fields-append :
      (a : Attrs F) (xs ys : List (Field F))
      → apply_fields a (xs ++ ys) ≡ apply_fields (apply_fields a xs) ys
  unfolding apply_fields
  apply_fields-append a [] ys = refl
  apply_fields-append a (x ∷ xs) ys = apply_fields-append (apply_field a x) xs ys

  peel :
      (old a a' : Attrs F) (xs ys : List (Field F))
      → apply_fields a (fresh old xs) ≡ a'
      → apply_fields a (fresh old (xs ++ ys)) ≡ apply_fields a' (fresh old ys)
  peel old a a' xs ys h =
      ap (apply_fields a) (filter-append (λ v. not (has old v)) xs ys)
      ∙ apply_fields-append a (fresh old xs) (fresh old ys)
      ∙ ap (λ b. apply_fields b (fresh old ys)) h

  -- Applying the edits of a changed node to the old node gives the new node, as long as the id is the
  -- same, no value, check mark or list of states vanished, the node is not shown again after it was
  -- hidden, and the new bounds survive their JSON: they are read back from it, and they are the old
  -- bounds if their JSON equals that of the old ones.
  pub apply_fields-changed_fields :
      (old new : Attrs F) → KeepsKeys old new → apply_fields old (changed_fields old new) ≡ new
  unfolding scalar_fields
  apply_fields-changed_fields old new k =
      let a₁ = record old { bounds = new.bounds } in
      let a₂ = record a₁ { checked = new.checked } in
      let a₃ = record a₂ {
        enabled = new.enabled;
        focused = new.focused;
        name = new.name;
        role = new.role;
      } in
      let a₄ = record a₃ { states = new.states } in
      let a₅ = record a₄ { value = new.value } in
      let plain =
        Field.enabled new.enabled
        ∷ Field.focused new.focused
        ∷ Field.name new.name
        ∷ Field.role new.role
        ∷ [] in
      let last = value_field new.value ++ visible_field new.visible in
      let mid = states_field new.states ++ last in
      ap (apply_fields old) (changed_fields-filter old new)
      ∙ peel old old a₁ (Field.bounds new.bounds ∷ []) (checked_field new.checked ++ (plain ++ mid))
          (step-bounds old old new.bounds k.bounds_read k.bounds_kept refl)
      ∙ peel old a₁ a₂ (checked_field new.checked) (plain ++ mid)
          (step-checked old a₁ new.checked refl k.checked_kept)
      ∙ peel old a₂ a₃ plain mid
          (step-plain old a₂ new.enabled new.focused new.name new.role refl refl refl refl)
      ∙ peel old a₃ a₄ (states_field new.states) last
          (step-states old a₃ new.states refl k.states_kept)
      ∙ peel old a₄ a₅ (value_field new.value) (visible_field new.visible)
          (step-value old a₄ new.value refl k.value_kept)
      ∙ step-visible old a₅ new.visible refl k.stays_hidden
      ∙ λ i. record new { id = sym k.id_kept i }

  -- The node without its value, check mark and states, and shown.
  abbrev pub cleared : Attrs F → Attrs F
  cleared a = record a { value = none; checked = none; states = []; visible = true }

  -- When numbers equal themselves in JSON, the edit list of a node that loses its value, its check mark
  -- and its states and is shown is empty, as for a node that did not change.
  pub changed_fields-cleared :
      (a : Attrs F) → ((x : F) → f.same x x ≡ true) → changed_fields a (cleared a) ≡ []
  unfolding scalar_fields
  changed_fields-cleared a same_refl =
      changed_fields-filter a (cleared a)
      ∙ ground (
        arith,
        has-bounds a a.bounds,
        has-enabled a a.enabled,
        has-focused a a.focused,
        has-name a a.name,
        has-role a a.role,
        same_refl a.bounds.x,
        same_refl a.bounds.y,
        same_refl a.bounds.w,
        same_refl a.bounds.h,
        beq_refl a.enabled,
        beq_refl a.focused,
        beq_refl a.name,
        beq_refl a.role,
      )
