-- ===== src/Keybinding/Authorize.antt =====
-- When `authorize_keybinding` lets a request pass.
use gpui_agent.Base.{
  ◌≡◌, ◌↔◌, refl, sym, subst, ◌∙◌, ap, if◌then◌else◌, Bool, true, false, Option, none, some, List,
  [], ◌∷◌, arith, ◌==◌, ◌&&◌, ◌||◌, filter, find, nat_eq, Bool-cases, inl, inr,
}
use gpui_agent.Base.Text.{Text, codes, trim, text_eq}
use gpui_agent.Modes.{KeybindingScope, scope_eq}
use gpui_agent.Error.{Error, ok, err}
use gpui_agent.Protocol.{KeybindingRequest}
use gpui_agent.Keybinding.{
  KeybindingInfo, binding_is_dangerous, chord_ok, given_chord, is_blank, check_entry, check_scope,
  check_listed, authorize_keybinding,
}

module _ (catalog : List KeybindingInfo) (request : KeybindingRequest) (app_focused : Bool) where
  abbrev pub binding : Text
  binding = trim (codes request.binding)

  abbrev pub is_match : KeybindingInfo → Bool
  is_match row = codes row.id == binding && row.scope == request.scope

  -- Everything that a host may rely on when it fires the Action of `entry`.
  pub record Granted (entry : KeybindingInfo) : Type 0 where
    pub named : is_blank binding ≡ false
    pub listed : find is_match catalog ≡ some entry
    pub chord : chord_ok entry (given_chord request.chord) ≡ true
    pub global_stays : request.scope ≡ KeybindingScope.global → request.activate ≡ false
    pub focused_only :
        request.scope ≡ KeybindingScope.focused → app_focused || request.activate ≡ true
    pub confirmed : binding_is_dangerous entry ≡ true → request.confirm ≡ true

  find-filter :
      (rows : List KeybindingInfo)
      → find (λ row. row.scope == request.scope) (filter (λ row. codes row.id == binding) rows)
        ≡ find is_match rows
  find-filter [] = refl
  find-filter (row ∷ rows) = elim (Bool-cases (codes row.id == binding)) [
    | inl e ↦ rw e (ground (arith, find-filter rows))
    | inr e ↦ rw e (find-filter rows)
  ]

  check_entry-ok :
      (entry : KeybindingInfo)
      → (check_entry entry request app_focused ≡ ok entry) ↔ (
          (chord_ok entry (given_chord request.chord) ≡ true)
          × (request.scope ≡ KeybindingScope.global → request.activate ≡ false)
          × (request.scope ≡ KeybindingScope.focused → app_focused || request.activate ≡ true)
          × (binding_is_dangerous entry ≡ true → request.confirm ≡ true))
  unfolding check_entry
  check_entry-ok entry = (
    λ h. (ground arith, λ g. ground arith, λ g. ground arith, λ g. ground arith),
    λ (c, g, f, d). ground arith,
  )

  check_entry_self :
      (row entry : KeybindingInfo) → check_entry row request app_focused ≡ ok entry → row ≡ entry
  unfolding check_entry
  check_entry_self row entry h = ground arith

  check_scope-ok :
      (found : Option KeybindingInfo) (by_id : List KeybindingInfo) (entry : KeybindingInfo)
      → (check_scope found by_id request app_focused ≡ ok entry)
        ↔ ((found ≡ some entry) × (check_entry entry request app_focused ≡ ok entry))
  check_scope-ok none by_id entry = (λ h. cc, λ h. cc (h.0))
  check_scope-ok (some row) by_id entry = (
    λ h.
        let e = check_entry_self row entry h in
        (ap some e, subst (λ r. check_entry r request app_focused ≡ ok entry) e h),
    λ (e, h). ground (arith, e, h),
  )

  check_listed-ok :
      (rows : List KeybindingInfo) (entry : KeybindingInfo)
      → (check_listed rows request app_focused ≡ ok entry) ↔ (
          (find (λ row. row.scope == request.scope) rows ≡ some entry)
          × (check_entry entry request app_focused ≡ ok entry))
  check_listed-ok [] entry = (λ h. cc, λ h. cc (h.0))
  check_listed-ok (row ∷ rows) entry =
      check_scope-ok (find (λ r. r.scope == request.scope) (row ∷ rows)) (row ∷ rows) entry

  abbrev rows : List KeybindingInfo
  rows = filter (λ row. codes row.id == binding) catalog

  authorize-eq : authorize_keybinding catalog request app_focused ≡ (
      if is_blank binding
      then err Error.binding_required
      else check_listed rows request app_focused)
  unfolding authorize_keybinding
  authorize-eq = refl

  -- A request passes with a row exactly when its trimmed binding is not empty, the row is the first
  -- one of the catalog with that id and scope, a given chord is the row's up to spelling, `activate`
  -- comes with the focused scope only, the focused scope has the focus or asks for it, and a
  -- dangerous row is confirmed.
  pub authorize-Granted :
      (entry : KeybindingInfo)
      → (authorize_keybinding catalog request app_focused ≡ ok entry) ↔ Granted entry
  authorize-Granted entry = (
    λ h.
        let named : is_blank binding ≡ false = ground (arith, authorize-eq, h) in
        let passed = (check_listed-ok rows entry).0 (ground (arith, authorize-eq, h)) in
        let (c, g, f, d) = (check_entry-ok entry).0 passed.1 in
        record {
          named = named;
          listed = sym (find-filter catalog) ∙ passed.0;
          chord = c;
          global_stays = g;
          focused_only = f;
          confirmed = d;
        },
    λ g.
        authorize-eq
        ∙ rw g.named (
            (check_listed-ok rows entry).1 (
              find-filter catalog ∙ g.listed,
              (check_entry-ok entry).1 (g.chord, g.global_stays, g.focused_only, g.confirmed),
            )),
  )
