-- ===== src/Dispatch/Handle/Guard.antt =====
-- What `handle_request_cached` of dispatch.rs keeps away from the host.
use gpui_agent.Base.{
  ◌≡◌, ◌≢◌, refl, sym, ◌∙◌, subst, ap, ℕ, String, Bool, true, false, Option, none, some, List, [],
  ◌∷◌, ◌==◌, nat_eq, Bool-cases, if-both, inl, inr, ◌⊎◌,
}
use gpui_agent.Base.Float.{Float}
use gpui_agent.Error.{Error, Result, Result-cases, ok, err}
use gpui_agent.Tree.{UiTree}
use gpui_agent.Tree.Fingerprint.{fingerprint_of}
use gpui_agent.Protocol.{AssertSpec, Op, Request, fingerprint_gate}
use gpui_agent.Host.{Response, failure, AgentHost}
use gpui_agent.Dispatch.Cache.{Security, authorize_request, TreeCache, snapshot}
use gpui_agent.Dispatch.Cache.Trusted.{Trusted, authorize_request-Trusted}
use gpui_agent.Dispatch.Cache.Coherent.{Coherent, IsHonest, current, snapshot-current}
use gpui_agent.Dispatch.Assert.{assert_tree}
use gpui_agent.Dispatch.Answers.{
  is_hopeless, settle, HostIdentity, wait_until_ready, wait_until_assert,
}
use gpui_agent.Dispatch.Handle.{
  Served, gated, check_fingerprint, serve, mutate, dispatched, handle_request_cached,
}

-- The operations that the protocol documents as observation.
abbrev pub only_observes : Op → Bool
only_observes Op.shutdown = false
only_observes (Op.click target delivery fp) = false
only_observes (Op.type target text delivery fp) = false
only_observes (Op.set_value target value fp) = false
only_observes (Op.key target pressed delivery fp) = false
only_observes (Op.keybinding r) = false
only_observes (Op.invoke name args) = false
only_observes _ = true

-- One of the states that a call reads.
abbrev pub ReadIn : {S : Type 0} → S → List S → Type 0
ReadIn x [] = ⊥
ReadIn x (s ∷ ss) = (x ≡ s) ⊎ ReadIn x ss

beq_false : (m n : ℕ) → (m == n) ≡ false → m ≢ n
beq_false m n b e = cc ((nat_eq.beq_iff m n).1 e, b)

module _ {S F V : Type 0} ⦃f : Float F⦄ (h : AgentHost S F V) (ident : HostIdentity)
    (sec : Security) where
  ready-read :
      (later : List S) (s : S) (id : String) (token : Option String)
      → ReadIn (wait_until_ready h ident later s id token).1 (s ∷ later)
  unfolding wait_until_ready
  ready-read [] s id token =
      if-both {A = Response F V × S} (λ o. ReadIn o.1 (s ∷ [])) (h.hello s).ready (inl refl)
        (inl refl)
  ready-read (next ∷ later) s id token =
      if-both {A = Response F V × S} (λ o. ReadIn o.1 (s ∷ next ∷ later)) (h.hello s).ready
        (inl refl) (inr (ready-read later next id token))

  settle-read :
      (later : List S) (s : S) (id : String) (tree : UiTree F) (c : TreeCache F)
      (rest : Error → Response F V × TreeCache F × S) (r : Result (Unit {0}))
      → ((e : Error) → ReadIn (rest e).2 (s ∷ later))
      → ReadIn (settle h id tree c s rest r).2 (s ∷ later)
  settle-read later s id tree c rest (ok u) g = inl refl
  settle-read later s id tree c rest (err e) g =
      if-both {A = Response F V × TreeCache F × S} (λ o. ReadIn o.2 (s ∷ later))
        (is_hopeless h tree e) (inl refl) (g e)

  assert-read :
      (later : List S) (s : S) (id : String) (spec : AssertSpec) (c : TreeCache F)
      → ReadIn (wait_until_assert h later s id spec c).2 (s ∷ later)
  unfolding wait_until_assert
  assert-read [] s id spec c =
      let (c1, tree) = snapshot h c s in
      settle-read [] s id tree c1 (λ e. (failure id (Error.wait_until_timed_out e), c1, s))
        (assert_tree tree spec) (λ e. inl refl)
  assert-read (next ∷ later) s id spec c =
      let (c1, tree) = snapshot h c s in
      let rest = wait_until_assert h later next id spec c1 in
      settle-read (next ∷ later) s id tree c1 (λ e. rest) (assert_tree tree spec)
        (λ e. inr (assert-read later next id spec c1))

  -- A trusted request is served. Any other is answered with an error that names it, and changes
  -- neither the host nor the cache of the session.
  pub handle_request_cached-Trusted :
      (later : List S) (c : TreeCache F) (s : S) (req : Request)
      → (Trusted sec req sec.expected_token
          × (handle_request_cached h ident sec later c s req
              ≡ serve h ident sec later c s req.id req.op))
        ⊎ (¬ Trusted sec req sec.expected_token
            × ((e : Error) × (handle_request_cached h ident sec later c s req
                  ≡ record { response = failure req.id e; cache = c; host = s })))
  unfolding handle_request_cached
  handle_request_cached-Trusted later c s req = elim (Result-cases (authorize_request sec req)) [
    | inl (u, g) ↦ inl ((authorize_request-Trusted sec req).0 g, rw g refl)
    | inr (e, g) ↦ inr (λ t. cc (sym ((authorize_request-Trusted sec req).1 t) ∙ g), (e, rw g refl))
  ]

  -- An operation that only observes leaves the host as it was at one of the readings of the call:
  -- the call itself changes nothing.
  pub serve-observes :
      (later : List S) (c : TreeCache F) (s : S) (id : String) (op : Op)
      → only_observes op ≡ true
      → ReadIn (serve h ident sec later c s id op).host (s ∷ later)
  unfolding serve
  serve-observes later c s id Op.hello e = inl refl
  serve-observes later c s id Op.revision e = inl refl
  serve-observes later c s id Op.keybindings e = inl refl
  serve-observes later c s id Op.shutdown e = cc
  serve-observes later c s id (Op.snapshot since format fps) e = inl refl
  serve-observes later c s id (Op.events cursor limit) e = inl refl
  serve-observes later c s id (Op.click target delivery fp) e = cc
  serve-observes later c s id (Op.type target text delivery fp) e = cc
  serve-observes later c s id (Op.set_value target value fp) e = cc
  serve-observes later c s id (Op.key target pressed delivery fp) e = cc
  serve-observes later c s id (Op.keybinding r) e = cc
  serve-observes later c s id (Op.assert spec) e = inl refl
  serve-observes later c s id (Op.invoke name args) e = cc
  serve-observes later c s id (Op.wait none) e = inl refl
  serve-observes later c s id (Op.wait (some ms)) e = ready-read later s id sec.expected_token
  serve-observes later c s id (Op.wait_until ms spec) e = assert-read later s id spec c
  serve-observes later c s id (Op.screenshot spec) e = inl refl

  -- `serve` hands the gated operations to `mutate`.
  gate-serve :
      (later : List S) (c : TreeCache F) (s : S) (id : String) (op : Op) (g : String × ℕ)
      → fingerprint_gate op ≡ some g
      → serve h ident sec later c s id op ≡ mutate h c s id op (some g)
  unfolding serve fingerprint_gate
  gate-serve later c s id (Op.click target delivery none) g e = cc
  gate-serve later c s id (Op.click target delivery (some fp)) g e =
      ap (λ o. mutate h c s id (Op.click target delivery (some fp)) o) e
  gate-serve later c s id (Op.type target text delivery none) g e = cc
  gate-serve later c s id (Op.type target text delivery (some fp)) g e =
      ap (λ o. mutate h c s id (Op.type target text delivery (some fp)) o) e
  gate-serve later c s id (Op.set_value target value none) g e = cc
  gate-serve later c s id (Op.set_value target value (some fp)) g e =
      ap (λ o. mutate h c s id (Op.set_value target value (some fp)) o) e
  gate-serve later c s id (Op.key target pressed delivery none) g e = cc
  gate-serve later c s id (Op.key target pressed delivery (some fp)) g e =
      ap (λ o. mutate h c s id (Op.key target pressed delivery (some fp)) o) e
  gate-serve later c s id Op.hello g e = cc
  gate-serve later c s id Op.revision g e = cc
  gate-serve later c s id Op.keybindings g e = cc
  gate-serve later c s id Op.shutdown g e = cc
  gate-serve later c s id (Op.snapshot since format fps) g e = cc
  gate-serve later c s id (Op.events cursor limit) g e = cc
  gate-serve later c s id (Op.keybinding r) g e = cc
  gate-serve later c s id (Op.assert spec) g e = cc
  gate-serve later c s id (Op.invoke name args) g e = cc
  gate-serve later c s id (Op.wait ms) g e = cc
  gate-serve later c s id (Op.wait_until ms spec) g e = cc
  gate-serve later c s id (Op.screenshot spec) g e = cc

  -- What becomes of an operation that is gated by the fingerprint `expected` of `target`, when that
  -- node has the fingerprint `actual`, or is not there.
  abbrev pub Gated : TreeCache F → S → String → Op → String → ℕ → Served S F V → Option ℕ → Type 0
  Gated c s id op target expected served none =
      served ≡ record { response = failure id (Error.target_gone target); cache = c; host = s }
  Gated c s id op target expected served (some actual) =
      ((actual ≡ expected) × (served ≡ dispatched h c id (h.dispatch s op)))
      ⊎ ((actual ≢ expected)
          × (served
              ≡ record { response = failure id (Error.stale_target target); cache = c; host = s }))

  gated-Gated :
      (c : TreeCache F) (s : S) (id : String) (op : Op) (target : String) (expected : ℕ)
      (actual : Option ℕ)
      → Gated c s id op target expected
          (gated h c s id op (check_fingerprint target expected actual))
          actual
  gated-Gated c s id op target expected none = refl
  gated-Gated c s id op target expected (some actual) = elim (Bool-cases (actual == expected)) [
    | inl b ↦ inl ((nat_eq.beq_iff actual expected).0 b, rw b refl)
    | inr b ↦ inr (beq_false actual expected b, rw b refl)
  ]

  pub gate-dispatches :
      (world : ℕ → UiTree F) (later : List S) (c : TreeCache F) (s : S) (id : String) (op : Op)
      (target : String) (expected : ℕ)
      → Coherent world c
      → IsHonest h world s
      → fingerprint_gate op ≡ some (target, expected)
      → Gated
          (snapshot h c s).0
          s
          id
          op
          target
          expected
          (serve h ident sec later c s id op)
          (fingerprint_of (current h s) target)
  gate-dispatches world later c s id op target expected g honest e =
      let (c1, tree) = snapshot h c s in
      let seen = gated-Gated c1 s id op target expected (fingerprint_of tree target) in
      subst
        (λ served. Gated c1 s id op target expected served (fingerprint_of (current h s) target))
        (sym (gate-serve later c s id op (target, expected) e))
        (subst
          (λ t.
            Gated c1 s id op target expected (mutate h c s id op (some (target, expected)))
              (fingerprint_of t target))
          (snapshot-current h world c s g honest).1 seen)
