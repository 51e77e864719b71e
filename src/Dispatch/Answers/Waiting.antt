-- ===== src/Dispatch/Answers/Waiting.antt =====
-- Where `wait_until` of dispatch.rs ends and with which answer, and what the wait costs.
use gpui_agent.Base.{
  ℕ, String, ◌≡◌, refl, sym, ap, ◌∙◌, subst, Bool, true, some, List, [], ◌∷◌, ◌++◌, All, false,
  if◌then◌else◌, if-both, Bool-cases, inl, inr, ◌⊎◌,
}
use gpui_agent.Base.Float.{Float}
use gpui_agent.Error.{Error, Result, ok, err}
use gpui_agent.Tree.{UiTree}
use gpui_agent.Protocol.{AssertSpec}
use gpui_agent.Host.{Response, success, failure, AgentHost}
use gpui_agent.Dispatch.Cache.{TreeCache, snapshot}
use gpui_agent.Dispatch.Cache.Coherent.{
  Coherent, current, IsHonest, snapshot-current, snapshot-again,
}
use gpui_agent.Dispatch.Assert.{assert_tree}
use gpui_agent.Dispatch.Answers.{is_hopeless, settle, wait_until_assert}

abbrev pub last : {S : Type 0} → S → List S → S
last s [] = s
last s (next ∷ later) = last next later

module _ {S F V : Type 0} ⦃f : Float F⦄ (h : AgentHost S F V) (id : String)
    (spec : AssertSpec) where
  -- At this state the wait goes on: the assertion fails, with `e`, and may still come true.
  abbrev pub FailsWith : S → Error → Type 0
  FailsWith x e = (assert_tree (current h x) spec ≡ err e) × (is_hopeless h (current h x) e ≡ false)

  abbrev pub IsPending : S → Type 0
  IsPending x = (e : Error) × FailsWith x e

  -- What the answer says of the state at which the wait ended, with the readings that were left:
  -- success if the assertion holds of it; the error at once if it is hopeless; the error as a time-out
  -- only if no reading was left.
  abbrev pub Ends : S → List S → Response F V → Type 0
  Ends x left r =
      ((assert_tree (current h x) spec ≡ ok tt) × (r ≡ success id))
      ⊎ ((e : Error) × (assert_tree (current h x) spec ≡ err e)
          × (is_hopeless h (current h x) e ≡ true)
          × (r ≡ failure id e))
      ⊎ ((e : Error) × FailsWith x e
          × (left ≡ [])
          × (r ≡ failure id (Error.wait_until_timed_out e)))

  -- The wait passed by the pending readings `before`, and ended at the next one, `x`.
  abbrev pub Fits : List S → S → Response F V → Type 0
  Fits readings x r =
      (before : List S) × (left : List S) × (before ++ x ∷ left ≡ readings)
      × All IsPending before
      × Ends x left r

  Fits-later :
      (s x : S) (readings : List S) (r : Response F V)
      → IsPending s
      → Fits readings x r
      → Fits (s ∷ readings) x r
  Fits-later s x readings r pending (before, left, split, passed, ends) =
      (s ∷ before, left, ap (λ q. s ∷ q) split, (pending, passed), ends)

  settle-Fits :
      (s : S) (later : List S) (tree : UiTree F) (c : TreeCache F)
      (rest : Error → Response F V × TreeCache F × S) (r : Result (Unit {0}))
      → tree ≡ current h s
      → assert_tree tree spec ≡ r
      → ((e : Error) → FailsWith s e → Fits (s ∷ later) (rest e).2 (rest e).0)
      → Fits (s ∷ later) (settle h id tree c s rest r).2 (settle h id tree c s rest r).0
  settle-Fits s later tree c rest (ok u) now a g =
      ([], later, refl, tt, inl (sym (ap (λ t. assert_tree t spec) now) ∙ a, refl))
  settle-Fits s later tree c rest (err e) now a g =
      let failed = sym (ap (λ t. assert_tree t spec) now) ∙ a in
      elim (Bool-cases (is_hopeless h tree e)) [
        | inl b ↦
            subst (λ q. Fits (s ∷ later) (branch q).2 (branch q).0) (sym b)
              (
                [],
                later,
                refl,
                tt,
                inr (inl (e, failed, sym (ap (λ t. is_hopeless h t e) now) ∙ b, refl)),
              )
        | inr b ↦
            subst (λ q. Fits (s ∷ later) (branch q).2 (branch q).0) (sym b)
              (g e (failed, sym (ap (λ t. is_hopeless h t e) now) ∙ b))
      ]
    where
      branch : Bool → Response F V × TreeCache F × S
      branch q = if q then (failure id e, c, s) else rest e

  module _ (world : ℕ → UiTree F) where
    -- On a coherent cache, with a host that keeps the contract of `revision` at every reading,
    -- `wait_until` ends at the first reading at which the assertion holds of the current tree, with
    -- success, or fails for missing geometry on a headless host, with that error. If there is no such
    -- reading it ends at the last one, with a time-out that carries the error of that reading.
    pub wait_until_assert-Fits :
        (later : List S) (s : S) (c : TreeCache F)
        → Coherent world c
        → All (IsHonest h world) (s ∷ later)
        → let (r, c1, x) = wait_until_assert h later s id spec c in Fits (s ∷ later) x r
    unfolding wait_until_assert
    wait_until_assert-Fits [] s c g honest =
        let (c1, tree) = snapshot h c s in
        let (g1, now) = snapshot-current h world c s g honest.0 in
        settle-Fits s [] tree c1 (λ e. (failure id (Error.wait_until_timed_out e), c1, s))
          (assert_tree tree spec) now refl (λ e a. ([], [], refl, tt, inr (inr (e, a, refl, refl))))
    wait_until_assert-Fits (next ∷ later) s c g honest =
        let (c1, tree) = snapshot h c s in
        let (g1, now) = snapshot-current h world c s g honest.0 in
        let (r, c2, x) = wait_until_assert h later next id spec c1 in
        settle-Fits s (next ∷ later) tree c1 (λ e. wait_until_assert h later next id spec c1)
          (assert_tree tree spec) now refl
          (λ e a.
            Fits-later s x (next ∷ later) r (e, a)
              (wait_until_assert-Fits later next c1 g1 honest.1))

  settle-cache :
      (s : S) (tree : UiTree F) (c : TreeCache F) (rest : Error → Response F V × TreeCache F × S)
      (r : Result (Unit {0}))
      → ((e : Error) → (rest e).1 ≡ c)
      → (settle h id tree c s rest r).1 ≡ c
  settle-cache s tree c rest (ok u) g = refl
  settle-cache s tree c rest (err e) g =
      if-both {A = Response F V × TreeCache F × S} (λ o. o.1 ≡ c) (is_hopeless h tree e) refl (g e)

  -- While the host stays at one revision, a wait takes at most the one tree that its first reading
  -- takes, however often it polls: it leaves the cache as that reading does.
  pub wait_until_assert-quiet :
      (later : List S) (s : S) (c : TreeCache F) (r : ℕ)
      → All (λ x. h.revision x ≡ some r) (s ∷ later)
      → (wait_until_assert h later s id spec c).1 ≡ (snapshot h c s).0
  unfolding wait_until_assert
  wait_until_assert-quiet [] s c r e =
      let (c1, tree) = snapshot h c s in
      settle-cache s tree c1 (λ e. (failure id (Error.wait_until_timed_out e), c1, s))
        (assert_tree tree spec) (λ e. refl)
  wait_until_assert-quiet (next ∷ later) s c r e =
      let (c1, tree) = snapshot h c s in
      settle-cache s tree c1 (λ e. wait_until_assert h later next id spec c1)
        (assert_tree tree spec)
        (λ m.
          wait_until_assert-quiet later next c1 r e.1
          ∙ ap (λ p. p.0) (snapshot-again h c s next r e.0 e.1.0))
