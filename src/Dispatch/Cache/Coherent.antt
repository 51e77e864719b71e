-- ===== src/Dispatch/Cache/Coherent.antt =====
-- What the session cache of dispatch.rs remembers.
use mathlib.Core.Option
use gpui_agent.Base.{
  ℕ, ◌-◌, ◌≤◌, ◌≡◌, refl, sym, ap, ◌∙◌, subst, Option, none, some, some-injective, List, [], ◌∷◌,
  ◌++◌, ◌==◌, nat_eq, option_eq, if◌then◌else◌, length, get_last?, find, All, All-append, All-drop,
  All-last, All-find, get_last?-append, get_last?-drop, length-append, length-drop, arith,
  Option-cases, inl, inr, beq_refl,
}
use gpui_agent.Tree.{UiTree}
use gpui_agent.Tree.Search.{or_else}
use gpui_agent.Host.{AgentHost}
use gpui_agent.Dispatch.Cache.{
  rev_ring_depth, TreeCache, new, newest_at, cached, trim_ring, rebuild, tree_at, from_cache,
  snapshot,
}

module _ {F : Type 0} where
  abbrev pub stamp : ℕ → UiTree F → UiTree F
  stamp r t = record t { rev = some r }

  -- `world` is the tree of the application at each revision. An entry is true when its tree is that
  -- of its revision, stamped with it.
  module _ (world : ℕ → UiTree F) where
    abbrev pub IsTrue : ℕ × UiTree F → Type 0
    IsTrue (r, t) = t ≡ stamp r (world r)

    pub record Coherent (c : TreeCache F) : Type 0 where
      pub bounded : length c.ring ≤ rev_ring_depth
      pub entries : All IsTrue c.ring

  abbrev pub stamp_if : Option ℕ → UiTree F → UiTree F
  stamp_if none t = t
  stamp_if (some r) t = stamp r t

  newest-entry :
      (o : Option (ℕ × UiTree F)) (rev : ℕ) (t : UiTree F)
      → newest_at o rev ≡ some t
      → o ≡ some (rev, t)
  newest-entry none rev t h = cc
  newest-entry (some (r, u)) rev t h = ground (arith, h)

  trim-bounded : (ring : List (ℕ × UiTree F)) → length (trim_ring ring) ≤ rev_ring_depth
  unfolding trim_ring
  trim-bounded ring = omega (arith, length-drop (length ring - 8) ring)

  trim-last :
      (ring : List (ℕ × UiTree F)) (e : ℕ × UiTree F)
      → get_last? (trim_ring (ring ++ e ∷ [])) ≡ some e
  unfolding trim_ring
  trim-last ring e =
      get_last?-drop (length (ring ++ e ∷ []) - 8) (ring ++ e ∷ [])
        (omega (arith, length-append ring (e ∷ [])))
      ∙ get_last?-append ring e

module _ {S F V : Type 0} (h : AgentHost S F V) where
  -- The revision of a snapshot: the host's own, or the one that the tree carries.
  abbrev pub effective_rev : S → Option ℕ
  effective_rev s = or_else (h.revision s) (h.snapshot s).rev

  -- What a client should see of a state: its tree, stamped with its revision if it has one.
  abbrev pub current : S → UiTree F
  current s = stamp_if (effective_rev s) (h.snapshot s)

  -- The contract of `AgentHost::revision`: equal revisions promise equal trees.
  abbrev pub IsHonest : (ℕ → UiTree F) → S → Type 0
  IsHonest world s = (r : ℕ) → effective_rev s ≡ some r → current s ≡ stamp r (world r)

  module _ (world : ℕ → UiTree F) where
    rebuild-Coherent :
        (c : TreeCache F) (o : Option ℕ) (t : UiTree F)
        → Coherent world c
        → ((r : ℕ) → o ≡ some r → stamp_if o t ≡ stamp r (world r))
        → Coherent world (rebuild c o t).0 × ((rebuild c o t).1 ≡ stamp_if o t)
    unfolding rebuild
    rebuild-Coherent c none t g true_now =
        (record { bounded = g.bounded; entries = g.entries }, refl)
    rebuild-Coherent c (some r) t g true_now = (
      record {
        bounded = trim-bounded (c.ring ++ (r, stamp r t) ∷ []);
        entries =
            unfold trim_ring in
            All-drop (IsTrue world) (length (c.ring ++ (r, stamp r t) ∷ []) - 8)
              (c.ring ++ (r, stamp r t) ∷ [])
              (All-append (IsTrue world) c.ring ((r, stamp r t) ∷ []) g.entries
                (true_now r refl, tt));
      },
      refl,
    )

    cached-entry :
        (c : TreeCache F) (o : Option ℕ) (t : UiTree F)
        → Coherent world c
        → cached c o ≡ some t
        → (r : ℕ) × (o ≡ some r) × (t ≡ stamp r (world r))
    unfolding cached
    cached-entry c none t g e = cc
    cached-entry c (some r) t g e = (
      r,
      refl,
      All-last (IsTrue world) c.ring (r, t) g.entries (newest-entry (get_last? c.ring) r t e),
    )

    cached-current :
        (c : TreeCache F) (s : S) (t : UiTree F)
        → Coherent world c
        → IsHonest world s
        → cached c (h.revision s) ≡ some t
        → t ≡ current s
    cached-current c s t g honest e =
        let (r, at, true_then) = cached-entry c (h.revision s) t g e in
        true_then ∙ sym (honest r (ap (λ o. or_else o (h.snapshot s).rev) at))

    from_cache-current :
        (c : TreeCache F) (s : S) (o : Option (UiTree F))
        → Coherent world c
        → IsHonest world s
        → ((t : UiTree F) → o ≡ some t → t ≡ current s)
        → Coherent world (from_cache h c s o).0 × ((from_cache h c s o).1 ≡ current s)
    from_cache-current c s none g honest now =
        rebuild-Coherent c (effective_rev s) (h.snapshot s) g honest
    from_cache-current c s (some t) g honest now = (g, now t refl)

    -- On a coherent cache, with a host that keeps the contract of `revision` at this state, a reading
    -- answers the current tree of the host, stamped with its revision, and leaves a coherent cache.
    pub snapshot-current :
        (c : TreeCache F) (s : S)
        → Coherent world c
        → IsHonest world s
        → Coherent world (snapshot h c s).0 × ((snapshot h c s).1 ≡ current s)
    unfolding snapshot
    snapshot-current c s g honest =
        from_cache-current c s (cached c (h.revision s)) g honest
          (λ t e. cached-current c s t g honest e)

    pub new-Coherent : Coherent world new
    unfolding new
    new-Coherent = record { bounded = omega arith; entries = tt }

    -- A remembered tree is the application's tree at that revision.
    pub tree_at-world :
        (c : TreeCache F) (r : ℕ) (t : UiTree F)
        → Coherent world c
        → tree_at c r ≡ some t
        → t ≡ stamp r (world r)
    unfolding tree_at
    tree_at-world c r t g e = elim (Option-cases (find (λ (q, u). q == r) c.ring)) [
      | inl n ↦ cc (sym (ap (Option.map (λ (q, u). u)) n) ∙ e)
      | inr ((q, u), n) ↦
          let (past, at) = All-find (IsTrue world) (λ (q, u). q == r) c.ring (q, u) g.entries n in
          let same = some-injective u t (sym (ap (Option.map (λ (q, u). u)) n) ∙ e) in
          sym same ∙ past ∙ ap (λ k. stamp k (world k)) ((nat_eq.beq_iff q r).0 at)
    ]

  rebuild-last :
      (c : TreeCache F) (r : ℕ) (t : UiTree F)
      → get_last? (rebuild c (some r) t).0.ring ≡ some (r, (rebuild c (some r) t).1)
  unfolding rebuild
  rebuild-last c r t = unfold trim_ring in trim-last c.ring (r, stamp r t)

  from_cache-last :
      (c : TreeCache F) (s : S) (r : ℕ) (o : Option (UiTree F))
      → h.revision s ≡ some r
      → newest_at (get_last? c.ring) r ≡ o
      → get_last? (from_cache h c s o).0.ring ≡ some (r, (from_cache h c s o).1)
  from_cache-last c s r none e n =
      subst
        (λ q.
          get_last? (rebuild c (or_else q (h.snapshot s).rev) (h.snapshot s)).0.ring
          ≡ some (r, (rebuild c (or_else q (h.snapshot s).rev) (h.snapshot s)).1))
        (sym e) (rebuild-last c r (h.snapshot s))
  from_cache-last c s r (some t) e n = newest-entry (get_last? c.ring) r t n

  snapshot-last :
      (c : TreeCache F) (s : S) (r : ℕ)
      → h.revision s ≡ some r
      → get_last? (snapshot h c s).0.ring ≡ some (r, (snapshot h c s).1)
  unfolding snapshot cached
  snapshot-last c s r e = from_cache-last c s r (cached c (h.revision s)) e (sym (ap (cached c) e))

  newest_at_self : (r : ℕ) (t : UiTree F) → newest_at (some (r, t)) r ≡ some t
  newest_at_self r t = ap (λ b. if b then some t else none) (beq_refl r)

  -- After one reading at a revision, every reading at that revision answers the same tree and leaves
  -- the cache as it is: nothing is rebuilt.
  pub snapshot-again :
      (c : TreeCache F) (s again : S) (r : ℕ)
      → h.revision s ≡ some r
      → h.revision again ≡ some r
      → snapshot h (snapshot h c s).0 again ≡ snapshot h c s
  unfolding snapshot cached
  snapshot-again c s again r e g =
      let (c1, t) = snapshot h c s in
      ap (from_cache h c1 again)
        (ap (cached c1) g ∙ ap (λ o. newest_at o r) (snapshot-last c s r e) ∙ newest_at_self r t)
