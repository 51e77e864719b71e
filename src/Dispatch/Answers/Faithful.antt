-- ===== src/Dispatch/Answers/Faithful.antt =====
-- The answer to `snapshot` of dispatch.rs against the trees of the application.
use gpui_agent.Base.{
  ℕ, String, ◌≡◌, ◌≢◌, ◌↔◌, refl, sym, ap, ◌∙◌, if-both, arith, subst, Bool, true, false, Option,
  none, some, ◌==◌, nat_eq, option_eq, bool_eq, if◌then◌else◌, Bool-cases, Option-cases, inl, inr,
  ◌⊎◌,
}
use gpui_agent.Base.Float.{Float}
use gpui_agent.Modes.{SnapshotFormat, is_compact}
use gpui_agent.Tree.{UiTree}
use gpui_agent.Tree.Search.{or_else}
use gpui_agent.Base.Map.{Map}
use gpui_agent.Tree.Fingerprint.{fingerprint_map}
use gpui_agent.Diff.{diff_trees}
use gpui_agent.Diff.Compact.{compact_lines}
use gpui_agent.Host.{Payload, Response, success, AgentHost}
use gpui_agent.Dispatch.Cache.{TreeCache, tree_at, snapshot}
use gpui_agent.Dispatch.Cache.Coherent.{
  stamp, stamp_if, Coherent, current, IsHonest, snapshot-current, tree_at-world,
}
use gpui_agent.Dispatch.Answers.{
  with_fingerprints, remembered, since_old, with_since, snapshot_response,
}

module _ {F : Type 0} ⦃f : Float F⦄ where
  -- Revision and fingerprints of the answer
  abbrev prints : Option Bool → UiTree F → Option (Map ℕ)
  prints wanted tree = if wanted == some true then some (fingerprint_map tree) else none

  abbrev pub Labels : {V : Type 0} → Option Bool → UiTree F → Response F V → Type 0
  Labels wanted tree r = (r.rev ≡ tree.rev) × (r.fingerprints ≡ prints wanted tree)

module _ {S F V : Type 0} ⦃f : Float F⦄ (h : AgentHost S F V) (world : ℕ → UiTree F) (s : S) where
  stamped-rev : (t : UiTree F) (o : Option ℕ) → t.rev ≡ o → (stamp_if o t).rev ≡ o
  stamped-rev t none e = e
  stamped-rev t (some r) e = refl

  effective-rev :
      (t : UiTree F) (o : Option ℕ) → (stamp_if (or_else o t.rev) t).rev ≡ or_else o t.rev
  effective-rev t none = stamped-rev t t.rev refl
  effective-rev t (some r) = refl

  -- The answer to a client at another revision `k` than the current one: the diff from the tree of
  -- that revision if the cache still holds one, else the whole tree.
  abbrev Moved : ℕ → Option (UiTree F) → Response F V → Type 0
  Moved k none r = (r.result ≡ some Payload.full) × (r.tree ≡ some (current h s))
  Moved k (some old) r =
      r.result ≡ some (Payload.diff (diff_trees (stamp k (world k)) (current h s)))

  -- The body of the answer, against the current tree and the tree of the revision `k` that the client
  -- names: compact lines; the whole tree; "unchanged" exactly when `k` is the current revision, and
  -- then the two trees are the same; else as `Moved` says, by what the cache `c` holds.
  abbrev pub Reflects : TreeCache F → Bool → Option ℕ → Response F V → Type 0
  Reflects c true since r = r.result ≡ some (Payload.compact (compact_lines (current h s)))
  Reflects c false none r = r.tree ≡ some (current h s)
  Reflects c false (some k) r =
      (((current h s).rev ≡ some k)
        × (r.result ≡ some Payload.unchanged)
        × (current h s ≡ stamp k (world k)))
      ⊎ (((current h s).rev ≢ some k) × Moved k (remembered h c (current h s).rev k) r)

  remembered-Moved :
      (c : TreeCache F) (tree : UiTree F) (rev : Option ℕ) (k : ℕ) (r : Response F V)
      → Coherent world c
      → tree ≡ current h s
      → Moved k (remembered h c rev k) (since_old h (remembered h c rev k) tree r)
  remembered-Moved c tree none k r g e = (refl, ap some e)
  remembered-Moved c tree (some rev) k r g e = elim (Option-cases (tree_at c k)) [
    | inl n ↦ subst (λ o. Moved k o (since_old h o tree r)) (sym n) (refl, ap some e)
    | inr (old, n) ↦
        subst (λ o. Moved k o (since_old h o tree r)) (sym n)
          (ap some (
            ap Payload.diff (
              ap (λ t. diff_trees t tree) (tree_at-world h world c k old g n)
              ∙ ap (diff_trees (stamp k (world k))) e)))
  ]

  since-Reflects :
      (c : TreeCache F) (tree : UiTree F) (since : Option ℕ) (r : Response F V)
      → Coherent world c
      → IsHonest h world s
      → tree ≡ current h s
      → Reflects c false since (with_since h c since tree r)
  since-Reflects c tree none r g honest e = ap some e
  since-Reflects c tree (some k) r g honest e = elim (Bool-cases (tree.rev == some k)) [
    | inl b ↦
        let seen = sym (ap (λ (t : UiTree F). t.rev) e) ∙ at.0 b in
        let now = sym (effective-rev (h.snapshot s) (h.revision s)) ∙ seen in
        subst (λ b. Reflects c false (some k) (branch b)) (sym b) (inl (seen, refl, honest k now))
    | inr b ↦
        let other : (current h s).rev ≢ some k =
          λ n. cc (at.1 (ap (λ (t : UiTree F). t.rev) e ∙ n), b) in
        subst (λ b. Reflects c false (some k) (branch b)) (sym b)
          (inr (
            other,
            subst (λ q. Moved k (remembered h c q k) (branch false))
                (ap (λ (t : UiTree F). t.rev) e) (remembered-Moved c tree tree.rev k r g e),
          ))
  ]
    where
      at : ((tree.rev == some k) ≡ true) ↔ (tree.rev ≡ some k)
      at = (option_eq ⦃e = nat_eq⦄).beq_iff tree.rev (some k)

      branch : Bool → Response F V
      branch b =
          if b
          then record r { result = some Payload.unchanged }
          else since_old h (remembered h c tree.rev k) tree r

  formatted-Reflects :
      (b : Bool) (c : TreeCache F) (tree : UiTree F) (since : Option ℕ) (r : Response F V)
      → Coherent world c
      → IsHonest h world s
      → tree ≡ current h s
      → let answer : Response F V × TreeCache F =
          if b
          then (record r { result = some (Payload.compact (compact_lines tree)) }, c)
          else (with_since h c since tree r, c) in
        Coherent world answer.1 × Reflects answer.1 b since answer.0
  formatted-Reflects true c tree since r g honest e =
      (g, ap some (ap Payload.compact (ap compact_lines e)))
  formatted-Reflects false c tree since r g honest e = (g, since-Reflects c tree since r g honest e)

  fingerprints-Labels :
      (id : String) (wanted : Option Bool) (tree : UiTree F)
      → Labels wanted tree
          (with_fingerprints h wanted tree (record (success id) { rev = tree.rev }))
  unfolding success
  fingerprints-Labels id wanted tree = ground arith

  old-Labels :
      (wanted : Option Bool) (tree : UiTree F) (o : Option (UiTree F)) (r : Response F V)
      → Labels wanted tree r
      → Labels wanted tree (since_old h o tree r)
  old-Labels wanted tree none r l = l
  old-Labels wanted tree (some old) r l = l

  formatted-Labels :
      (b : Bool) (wanted : Option Bool) (c : TreeCache F) (tree : UiTree F) (since : Option ℕ)
      (r : Response F V)
      → Labels wanted tree r
      → let answer : Response F V × TreeCache F =
          if b
          then (record r { result = some (Payload.compact (compact_lines tree)) }, c)
          else (with_since h c since tree r, c) in
        Labels wanted tree answer.0
  formatted-Labels true wanted c tree since r l = l
  formatted-Labels false wanted c tree none r l = l
  formatted-Labels false wanted c tree (some k) r l =
      if-both {A = Response F V} (Labels wanted tree) (tree.rev == some k) l
        (old-Labels wanted tree (remembered h c tree.rev k) r l)

  pub snapshot_response-Reflects :
      (c : TreeCache F) (id : String) (since : Option ℕ) (format : Option SnapshotFormat)
      (fps : Option Bool)
      → Coherent world c
      → IsHonest h world s
      → Coherent world (snapshot_response h c s id since format fps).1
        × Reflects
            (snapshot_response h c s id since format fps).1
            (is_compact format)
            since
            (snapshot_response h c s id since format fps).0
        × Labels fps (current h s) (snapshot_response h c s id since format fps).0
  unfolding snapshot_response
  snapshot_response-Reflects c id since format fps g honest =
      let (c1, tree) = snapshot h c s in
      let (g1, e) = snapshot-current h world c s g honest in
      let plain = with_fingerprints h fps tree (record (success id) { rev = tree.rev }) in
      let (kept, body) = formatted-Reflects (is_compact format) c1 tree since plain g1 honest e in
      let labels =
        formatted-Labels (is_compact format) fps c1 tree since plain
          (fingerprints-Labels id fps tree) in
      (
        kept,
        body,
        subst (λ t. Labels fps t (snapshot_response h c s id since format fps).0) e labels,
      )
