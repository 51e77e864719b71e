-- ===== src/Dispatch/Handle/Session.antt =====
-- A session of dispatch.rs: what one request does to the cache and to the host.
use gpui_agent.Base.{
  ℕ, refl, sym, subst, String, Option, none, some, List, [], ◌∷◌, All, if-both, inl, inr,
}
use gpui_agent.Base.Float.{Float}
use gpui_agent.Error.{Error, Result, ok, err}
use gpui_agent.Keybinding.{KeybindingInfo, authorize_keybinding_op}
use gpui_agent.Tree.{UiTree}
use gpui_agent.Tree.Fingerprint.{fingerprint_of}
use gpui_agent.Protocol.{AssertSpec, Op, Request, fingerprint_gate}
use gpui_agent.Host.{Response, failure, AgentHost}
use gpui_agent.Dispatch.Cache.{Security, authorize_request, TreeCache, snapshot}
use gpui_agent.Dispatch.Cache.Coherent.{Coherent, IsHonest, snapshot-current}
use gpui_agent.Dispatch.Assert.{assert_tree}
use gpui_agent.Dispatch.Answers.{HostIdentity, is_hopeless, settle, wait_until_assert}
use gpui_agent.Dispatch.Answers.Faithful.{snapshot_response-Reflects}
use gpui_agent.Dispatch.Handle.{
  check_fingerprint, fire, gated, mutate, serve, authorized, handle_request_cached,
}
use gpui_agent.Dispatch.Handle.Guard.{ReadIn, serve-observes}

module _ {S F V : Type 0} ⦃f : Float F⦄ (h : AgentHost S F V) (world : ℕ → UiTree F) where
  settle-Coherent :
      (id : String) (tree : UiTree F) (c : TreeCache F) (s : S)
      (rest : Error → Response F V × TreeCache F × S) (r : Result (Unit {0}))
      → Coherent world c
      → ((e : Error) → Coherent world (rest e).1)
      → Coherent world (settle h id tree c s rest r).1
  settle-Coherent id tree c s rest (ok u) g k = g
  settle-Coherent id tree c s rest (err e) g k =
      if-both {A = Response F V × TreeCache F × S} (λ o. Coherent world o.1) (is_hopeless h tree e)
        g (k e)

  wait-Coherent :
      (later : List S) (s : S) (id : String) (spec : AssertSpec) (c : TreeCache F)
      → Coherent world c
      → All (IsHonest h world) (s ∷ later)
      → Coherent world (wait_until_assert h later s id spec c).1
  unfolding wait_until_assert
  wait-Coherent [] s id spec c g honest =
      let (c1, tree) = snapshot h c s in
      let (g1, now) = snapshot-current h world c s g honest.0 in
      settle-Coherent id tree c1 s (λ e. (failure id (Error.wait_until_timed_out e), c1, s))
        (assert_tree tree spec) g1 (λ e. g1)
  wait-Coherent (next ∷ later) s id spec c g honest =
      let (c1, tree) = snapshot h c s in
      let (g1, now) = snapshot-current h world c s g honest.0 in
      settle-Coherent id tree c1 s (λ e. wait_until_assert h later next id spec c1)
        (assert_tree tree spec) g1 (λ e. wait-Coherent later next id spec c1 g1 honest.1)

  fire-Coherent :
      (c : TreeCache F) (s : S) (id : String) (op : Op) (r : Result KeybindingInfo)
      → Coherent world c
      → Coherent world (fire h c s id op r).cache
  fire-Coherent c s id op (ok row) g = g
  fire-Coherent c s id op (err e) g = g

  gated-Coherent :
      (c : TreeCache F) (s : S) (id : String) (op : Op) (r : Result (Unit {0}))
      → Coherent world c
      → Coherent world (gated h c s id op r).cache
  gated-Coherent c s id op (ok u) g = g
  gated-Coherent c s id op (err e) g = g

  mutate-Coherent :
      (c : TreeCache F) (s : S) (id : String) (op : Op) (o : Option (String × ℕ))
      → Coherent world c
      → IsHonest h world s
      → Coherent world (mutate h c s id op o).cache
  mutate-Coherent c s id op none g honest = g
  mutate-Coherent c s id op (some (target, expected)) g honest =
      let (c1, tree) = snapshot h c s in
      gated-Coherent c1 s id op (check_fingerprint target expected (fingerprint_of tree target))
        (snapshot-current h world c s g honest).0

  module _ (ident : HostIdentity) (sec : Security) where
    serve-Coherent :
        (later : List S) (c : TreeCache F) (s : S) (id : String) (op : Op)
        → Coherent world c
        → All (IsHonest h world) (s ∷ later)
        → Coherent world (serve h ident sec later c s id op).cache
    unfolding serve
    serve-Coherent later c s id Op.hello g honest = g
    serve-Coherent later c s id Op.revision g honest = g
    serve-Coherent later c s id Op.keybindings g honest = g
    serve-Coherent later c s id Op.shutdown g honest = g
    serve-Coherent later c s id (Op.snapshot since format fps) g honest =
        (snapshot_response-Reflects h world s c id since format fps g honest.0).0
    serve-Coherent later c s id (Op.events cursor limit) g honest = g
    serve-Coherent later c s id (Op.click target mode fp) g honest =
        mutate-Coherent c s id (Op.click target mode fp)
          (fingerprint_gate (Op.click target mode fp)) g honest.0
    serve-Coherent later c s id (Op.type target text mode fp) g honest =
        mutate-Coherent c s id (Op.type target text mode fp)
          (fingerprint_gate (Op.type target text mode fp)) g honest.0
    serve-Coherent later c s id (Op.set_value target text fp) g honest =
        mutate-Coherent c s id (Op.set_value target text fp)
          (fingerprint_gate (Op.set_value target text fp)) g honest.0
    serve-Coherent later c s id (Op.key target pressed mode fp) g honest =
        mutate-Coherent c s id (Op.key target pressed mode fp)
          (fingerprint_gate (Op.key target pressed mode fp)) g honest.0
    serve-Coherent later c s id (Op.keybinding r) g honest =
        fire-Coherent c s id (Op.keybinding r)
          (authorize_keybinding_op (Op.keybinding r) (h.keybindings s) (h.is_app_focused s)) g
    serve-Coherent later c s id (Op.assert spec) g honest =
        (snapshot-current h world c s g honest.0).0
    serve-Coherent later c s id (Op.invoke name args) g honest =
        mutate-Coherent c s id (Op.invoke name args) (fingerprint_gate (Op.invoke name args)) g
          honest.0
    serve-Coherent later c s id (Op.wait none) g honest = g
    serve-Coherent later c s id (Op.wait (some ms)) g honest = g
    serve-Coherent later c s id (Op.wait_until ms spec) g honest =
        wait-Coherent later s id spec c g honest
    serve-Coherent later c s id (Op.screenshot spec) g honest = g

    authorized-Coherent :
        (later : List S) (c : TreeCache F) (s : S) (req : Request) (r : Result (Unit {0}))
        → Coherent world c
        → All (IsHonest h world) (s ∷ later)
        → Coherent world (authorized h ident sec later c s req r).cache
    authorized-Coherent later c s req (ok u) g honest =
        serve-Coherent later c s req.id req.op g honest
    authorized-Coherent later c s req (err e) g honest = g

    -- Serving a request, whatever it is, leaves a coherent cache coherent, if the host keeps the
    -- contract of `revision` at every reading.
    pub handle_request_cached-Coherent :
        (later : List S) (c : TreeCache F) (s : S) (req : Request)
        → Coherent world c
        → All (IsHonest h world) (s ∷ later)
        → Coherent world (handle_request_cached h ident sec later c s req).cache
    unfolding handle_request_cached
    handle_request_cached-Coherent later c s req g honest =
        authorized-Coherent later c s req (authorize_request sec req) g honest

module _ {S F V : Type 0} ⦃f : Float F⦄ (h : AgentHost S F V) (P : S → Type 0) where
  fire-host :
      (c : TreeCache F) (s : S) (id : String) (op : Op) (r : Result KeybindingInfo)
      → P s
      → P (h.dispatch s op).0
      → P (fire h c s id op r).host
  fire-host c s id op (ok row) p q = q
  fire-host c s id op (err e) p q = p

  gated-host :
      (c : TreeCache F) (s : S) (id : String) (op : Op) (r : Result (Unit {0}))
      → P s
      → P (h.dispatch s op).0
      → P (gated h c s id op r).host
  gated-host c s id op (ok u) p q = q
  gated-host c s id op (err e) p q = p

  mutate-host :
      (c : TreeCache F) (s : S) (id : String) (op : Op) (o : Option (String × ℕ))
      → P s
      → P (h.dispatch s op).0
      → P (mutate h c s id op o).host
  mutate-host c s id op none p q = q
  mutate-host c s id op (some (target, expected)) p q =
      let (c1, tree) = snapshot h c s in
      gated-host c1 s id op (check_fingerprint target expected (fingerprint_of tree target)) p q

  -- The one state that a call reads.
  read-only : (x s : S) → ReadIn x (s ∷ []) → P s → P x
  read-only x s (inl e) p = subst P (sym e) p
  read-only x s (inr e) p = absurd e

  module _ (ident : HostIdentity) (sec : Security) where
    serve-host :
        (c : TreeCache F) (s : S) (id : String) (op : Op)
        → P s
        → P (h.dispatch s op).0
        → P (serve h ident sec [] c s id op).host
    unfolding serve
    serve-host c s id Op.hello p q = p
    serve-host c s id Op.revision p q = p
    serve-host c s id Op.keybindings p q = p
    serve-host c s id Op.shutdown p q = q
    serve-host c s id (Op.snapshot since format fps) p q = p
    serve-host c s id (Op.events cursor limit) p q = p
    serve-host c s id (Op.click target mode fp) p q =
        mutate-host c s id (Op.click target mode fp) (fingerprint_gate (Op.click target mode fp)) p
          q
    serve-host c s id (Op.type target text mode fp) p q =
        mutate-host c s id (Op.type target text mode fp)
          (fingerprint_gate (Op.type target text mode fp)) p q
    serve-host c s id (Op.set_value target text fp) p q =
        mutate-host c s id (Op.set_value target text fp)
          (fingerprint_gate (Op.set_value target text fp)) p q
    serve-host c s id (Op.key target pressed mode fp) p q =
        mutate-host c s id (Op.key target pressed mode fp)
          (fingerprint_gate (Op.key target pressed mode fp)) p q
    serve-host c s id (Op.keybinding r) p q =
        fire-host c s id (Op.keybinding r)
          (authorize_keybinding_op (Op.keybinding r) (h.keybindings s) (h.is_app_focused s)) p q
    serve-host c s id (Op.assert spec) p q = p
    serve-host c s id (Op.invoke name args) p q =
        mutate-host c s id (Op.invoke name args) (fingerprint_gate (Op.invoke name args)) p q
    serve-host c s id (Op.wait none) p q = p
    serve-host c s id (Op.wait (some ms)) p q =
        read-only _ s (serve-observes h ident sec [] c s id (Op.wait (some ms)) refl) p
    serve-host c s id (Op.wait_until ms spec) p q =
        read-only _ s (serve-observes h ident sec [] c s id (Op.wait_until ms spec) refl) p
    serve-host c s id (Op.screenshot spec) p q = p

    authorized-host :
        (c : TreeCache F) (s : S) (req : Request) (r : Result (Unit {0}))
        → P s
        → P (h.dispatch s req.op).0
        → P (authorized h ident sec [] c s req r).host
    authorized-host c s req (ok u) p q = serve-host c s req.id req.op p q
    authorized-host c s req (err e) p q = p

    -- A request leaves the host as it was or as `dispatch` leaves it.
    pub handle_request_cached-host :
        (c : TreeCache F) (s : S) (req : Request)
        → P s
        → P (h.dispatch s req.op).0
        → P (handle_request_cached h ident sec [] c s req).host
    unfolding handle_request_cached
    handle_request_cached-host c s req p q = authorized-host c s req (authorize_request sec req) p q
