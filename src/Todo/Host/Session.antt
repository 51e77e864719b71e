-- ===== src/Todo/Host/Session.antt =====
-- A whole session of the dispatcher with the store of crates/todo-core/src/lib.rs as its host.
use gpui_agent.Base.{
  ℕ, ◌≡◌, refl, sym, ap, ◌∙◌, Bool, false, Option, some-injective, List, [], ◌∷◌, All, ◌==◌, nat_eq,
  if◌then◌else◌, if-both, String, arith, Bool-cases, inl, inr, beq_refl,
}
use gpui_agent.Base.Float.{Float}
use gpui_agent.Tree.{UiTree}
use gpui_agent.Protocol.{Request}
use gpui_agent.Dispatch.Cache.{Security, TreeCache}
use gpui_agent.Dispatch.Cache.Coherent.{stamp, current, Coherent, IsHonest, new-Coherent}
use gpui_agent.Dispatch.Cache
use gpui_agent.Modes.{SnapshotFormat, is_compact}
use gpui_agent.Dispatch.Answers.{HostIdentity, snapshot_response}
use gpui_agent.Dispatch.Answers.Faithful.{Reflects, snapshot_response-Reflects}
use gpui_agent.Dispatch.Answers.Waiting.{last}
use gpui_agent.Dispatch.Handle.{handle_request_cached}
use gpui_agent.Dispatch.Handle.Session.{handle_request_cached-Coherent, handle_request_cached-host}
use gpui_agent.Todo.{TodoStore}
use gpui_agent.Todo.Tree.{tree}
use gpui_agent.Todo.Host.{Surroundings, todo_host}
use gpui_agent.Todo.Host.Closed.{is_nav_go}
use gpui_agent.Todo.Host.Revision.{Announced, dispatch-Announced}

module _ (F : Type 0) ⦃f : Float F⦄ where
  Announced-refl : (s : TodoStore) → Announced F s s
  Announced-refl s = inr (refl, refl)

  Announced-trans : (s t u : TodoStore) → Announced F s t → Announced F t u → Announced F s u
  Announced-trans s t u (inl p) (inl q) = inl (omega (arith, p, q))
  Announced-trans s t u (inl p) (inr (e, g)) = inl (omega (arith, p, e))
  Announced-trans s t u (inr (e, g)) (inl q) = inl (omega (arith, e, q))
  Announced-trans s t u (inr (e, g)) (inr (d, k)) = inr (d ∙ e, k ∙ g)

  -- The tree that the first of the states with a revision shows.
  abbrev pub shown_at : List TodoStore → ℕ → UiTree F → UiTree F
  shown_at [] r otherwise = otherwise
  shown_at (s ∷ ss) r otherwise =
      let rest = shown_at ss r otherwise in if s.rev == r then tree s else rest

  -- Each state after the ones before it, with every change announced.
  abbrev Follows : TodoStore → List TodoStore → Type 0
  Follows s [] = Unit
  Follows s (t ∷ ts) = Announced F s t × Follows t ts

  Follows-All :
      (s t : TodoStore) (ts : List TodoStore)
      → Announced F s t
      → Follows t ts
      → All (Announced F s) ts
  Follows-All s t [] a g = tt
  Follows-All s t (u ∷ us) a g =
      let b = Announced-trans s t u a g.0 in (b, Follows-All s u us b g.1)

  -- The states with the revision of `t` all show the tree of `t`.
  abbrev IsShown : (ℕ → UiTree F) → TodoStore → Type 0
  IsShown world t = world t.rev ≡ tree t

  shown-after :
      (s t : TodoStore) (w : UiTree F)
      → Announced F s t
      → w ≡ tree t
      → (if s.rev == t.rev then tree s else w) ≡ tree t
  shown-after s t w (inl p) e = elim (Bool-cases (s.rev == t.rev)) [
    | inl b ↦ absurd (omega (arith, p, (nat_eq.beq_iff s.rev t.rev).0 b))
    | inr b ↦ rw b e
  ]
  shown-after s t w (inr (d, g)) e = if-both (λ v. v ≡ tree t) (s.rev == t.rev) (sym g) e

  IsShown-later :
      (s : TodoStore) (o : UiTree F) (ss ts : List TodoStore)
      → All (Announced F s) ts
      → All (IsShown (λ r. shown_at ss r o)) ts
      → All (IsShown (λ r. shown_at (s ∷ ss) r o)) ts
  IsShown-later s o ss [] a g = tt
  IsShown-later s o ss (t ∷ ts) a g =
      (shown-after s t (shown_at ss t.rev o) a.0 g.0, IsShown-later s o ss ts a.1 g.1)

  shown-first :
      (s : TodoStore) (o : UiTree F) (ss : List TodoStore) → shown_at (s ∷ ss) s.rev o ≡ tree s
  shown-first s o ss = ap (λ b. if b then tree s else shown_at ss s.rev o) (beq_refl s.rev)

  All-IsShown :
      (s : TodoStore) (o : UiTree F) (ss : List TodoStore)
      → Follows s ss
      → All (IsShown (λ r. shown_at (s ∷ ss) r o)) (s ∷ ss)
  All-IsShown s o [] g = (shown-first s o [], tt)
  All-IsShown s o (t ∷ ts) g = (
    shown-first s o (t ∷ ts),
    IsShown-later s o (t ∷ ts) (t ∷ ts) (g.0, Follows-All s t ts g.0 g.1) (All-IsShown t o ts g.1),
  )

  module _ (around : Surroundings) (ident : HostIdentity) (sec : Security) where
    -- The states of the store, and the cache after the last request.
    unfoldable pub session : TreeCache F → TodoStore → List Request → List TodoStore × TreeCache F
    unfolding handle_request_cached todo_host
    session c s [] = ([], c)
    session c s (r ∷ rs) =
        let served = handle_request_cached (todo_host around) ident sec [] c s r in
        let (states, final) = session served.cache served.host rs in (served.host ∷ states, final)

    shown-IsHonest :
        (world : ℕ → UiTree F) (t : TodoStore)
        → IsShown world t
        → IsHonest (todo_host around) world t
    unfolding todo_host
    shown-IsHonest world t g r e =
        ap (stamp t.rev) (sym g) ∙ ap (λ k. stamp k (world k)) (some-injective t.rev r e)

    All-IsHonest :
        (world : ℕ → UiTree F) (ts : List TodoStore)
        → All (IsShown world) ts
        → All (IsHonest (todo_host around) world) ts
    All-IsHonest world [] g = tt
    All-IsHonest world (t ∷ ts) g = (shown-IsHonest world t g.0, All-IsHonest world ts g.1)

    session-Follows :
        (c : TreeCache F) (s : TodoStore) (rs : List Request)
        → All (λ (r : Request). is_nav_go r.op ≡ false) rs
        → Follows s (session c s rs).0
    unfolding session todo_host
    session-Follows c s [] n = tt
    session-Follows c s (r ∷ rs) n =
        let served = handle_request_cached (todo_host around) ident sec [] c s r in
        let step =
          handle_request_cached-host (todo_host around) (Announced F s) ident sec c s r
            (Announced-refl s) (dispatch-Announced F around r.op s n.0) in
        (step, session-Follows served.cache served.host rs n.1)

    session-Coherent :
        (world : ℕ → UiTree F) (c : TreeCache F) (s : TodoStore) (rs : List Request)
        → Coherent world c
        → All (IsHonest (todo_host around) world) (s ∷ (session c s rs).0)
        → Coherent world (session c s rs).1
    unfolding session
    session-Coherent world c s [] g honest = g
    session-Coherent world c s (r ∷ rs) g honest =
        let served = handle_request_cached (todo_host around) ident sec [] c s r in
        session-Coherent world served.cache served.host rs
          (handle_request_cached-Coherent (todo_host around) world ident sec [] c s r g
            (honest.0, tt))
          honest.1

    final-All :
        (P : TodoStore → Type 0) (s : TodoStore) (ss : List TodoStore)
        → All P (s ∷ ss)
        → P (last s ss)
    final-All P s [] g = g.0
    final-All P s (t ∷ ts) g = final-All P t ts g.1

    pub session-Reflects :
        (s : TodoStore) (rs : List Request) (otherwise : UiTree F) (id : String) (since : Option ℕ)
        (format : Option SnapshotFormat) (fps : Option Bool)
        → All (λ (r : Request). is_nav_go r.op ≡ false) rs
        → let (states, c) = session Cache.new s rs in
          let final = last s states in
          let (answer, c1) = snapshot_response (todo_host around) c final id since format fps in
          Reflects
            (todo_host around)
            (λ r. shown_at (s ∷ states) r otherwise)
            final
            c1
            (is_compact format)
            since
            answer
          × (answer.rev ≡ (current {F = F} (todo_host around) final).rev)
    session-Reflects s rs otherwise id since format fps n =
        let (states, c) = session Cache.new s rs in
        let world : ℕ → UiTree F = λ r. shown_at (s ∷ states) r otherwise in
        let shown = All-IsShown s otherwise states (session-Follows Cache.new s rs n) in
        let honest = All-IsHonest world (s ∷ states) shown in
        let g =
          session-Coherent world Cache.new s rs (new-Coherent (todo_host around) world) honest in
        let (kept, body, labels) =
          snapshot_response-Reflects (todo_host around) world (last s states) c id since format fps
            g (final-All (IsHonest (todo_host around) world) s states honest) in
        (body, labels.0)
