-- ===== src/Event/History.antt =====
-- A ring against the list of everything that was ever pushed.
use gpui_agent.Base.{
  ◌≢◌, ◌<◌, append-nil, ℕ, suc, ◌+◌, ◌-◌, ◌≤◌, String, ◌≡◌, refl, ◌∙◌, ap, List, [], ◌∷◌, ◌++◌,
  arith, append_assoc, sym, length, drop, length-append, length-drop, drop-append, drop-drop,
  drop-all, nat_eq,
}
use native.Mathlib.Numerals.{add-one}
use gpui_agent.Event.{EventLevel, AgentEvent, EventRing, new, push}

-- The arguments of one `push`.
pub record Entry : Type 0 where
  pub level : EventLevel
  pub target : String
  pub message : String

abbrev pub event : ℕ → Entry → AgentEvent
event seq e = record { seq = seq; level = e.level; target = e.target; message = e.message }

-- The history with its sequence numbers, from `seq` on.
abbrev pub numbered : ℕ → List Entry → List AgentEvent
numbered seq [] = []
numbered seq (e ∷ es) = event seq e ∷ numbered (suc seq) es

unfoldable pub push_all : EventRing → List Entry → EventRing
push_all r [] = r
push_all r (e ∷ es) = push_all (push r e.level e.target e.message).0 es

pub length-numbered : (seq : ℕ) (es : List Entry) → length (numbered seq es) ≡ length es
length-numbered seq [] = refl
length-numbered seq (e ∷ es) = ap suc (length-numbered (suc seq) es)

numbered-append :
    (seq : ℕ) (es fs : List Entry)
    → numbered seq (es ++ fs) ≡ numbered seq es ++ numbered (seq + length es) fs
numbered-append seq [] fs = ap (λ k. numbered k fs) (omega arith)
numbered-append seq (e ∷ es) fs = ap (◌∷◌ (event seq e)) (
    numbered-append (suc seq) es fs
    ∙ ap (λ k. numbered (suc seq) es ++ numbered k fs) (omega arith))

-- The ring holds the newest `capacity` entries of the history, with their numbers.
pub record Retains (cap : ℕ) (es : List Entry) (r : EventRing) : Type 0 where
  pub capacity_kept : r.capacity ≡ cap
  pub next_counts : r.next ≡ suc (length es)
  pub newest : r.buf ≡ drop (length es - cap) (numbered 1 es)

abbrev all_of : List Entry → List AgentEvent
all_of es = numbered 1 es

length-buf :
    (cap : ℕ) (es : List Entry) (r : EventRing)
    → Retains cap es r
    → length r.buf ≡ length es - (length es - cap)
length-buf cap es r h =
    ap length h.newest
    ∙ length-drop (length es - cap) (all_of es)
    ∙ ap (λ k. k - (length es - cap)) (length-numbered 1 es)

snoc-length : (es : List Entry) (e : Entry) → length (es ++ e ∷ []) ≡ length es + 1
snoc-length es e = length-append es (e ∷ [])

snoc-numbered :
    (es : List Entry) (e : Entry)
    → all_of (es ++ e ∷ []) ≡ all_of es ++ event (suc (length es)) e ∷ []
snoc-numbered es e =
    numbered-append 1 es (e ∷ []) ∙ ap (λ k. all_of es ++ event k e ∷ []) (omega arith)

-- What the new window of the history is, from the old one.
window :
    (cap : ℕ) (es : List Entry) (e : Entry) (k : ℕ)
    → k ≤ length es
    → drop k (all_of (es ++ e ∷ [])) ≡ drop k (all_of es) ++ event (suc (length es)) e ∷ []
window cap es e k h =
    ap (drop k) (snoc-numbered es e)
    ∙ drop-append k (all_of es) (event (suc (length es)) e ∷ [])
        (omega (arith, length-numbered 1 es))

module _ (cap : ℕ) (es : List Entry) (e : Entry) (r : EventRing) (h : Retains cap es r) where
  abbrev entry : AgentEvent
  entry = event (suc (length es)) e

  abbrev after : List AgentEvent
  after = drop (suc (length es) - cap) (all_of (es ++ e ∷ []))

  -- With no capacity nothing is ever retained.
  buf_of_none : cap ≡ 0 → r.buf ≡ after
  buf_of_none z =
      h.newest
      ∙ drop-all (length es - cap) (all_of es) (omega (arith, length-numbered 1 es))
      ∙ sym (
          drop-all (suc (length es) - cap) (all_of (es ++ e ∷ []))
            (omega (arith, length-numbered 1 (es ++ e ∷ []), snoc-length es e)))

  -- A full ring drops its oldest event.
  buf_of_full : 0 < cap → length r.buf ≡ cap → drop 1 r.buf ++ entry ∷ [] ≡ after
  buf_of_full p full =
      let n : cap ≤ length es = omega (arith, length-buf cap es r h) in
      ap (λ l. drop 1 l ++ entry ∷ []) h.newest
      ∙ ap (λ l. l ++ entry ∷ []) (drop-drop 1 (length es - cap) (all_of es))
      ∙ sym (window cap es e (length es - cap + 1) (omega arith))
      ∙ ap (λ k. drop k (all_of (es ++ e ∷ []))) (omega arith)

  -- A ring with room keeps everything.
  buf_of_room : length r.buf ≢ cap → r.buf ++ entry ∷ [] ≡ after
  buf_of_room room =
      let n : length es < cap = omega (arith, length-buf cap es r h) in
      ap (λ l. l ++ entry ∷ []) h.newest
      ∙ sym (window cap es e (length es - cap) (omega arith))
      ∙ ap (λ k. drop k (all_of (es ++ e ∷ []))) (omega arith)

  push-Retains : Retains cap (es ++ e ∷ []) (push r e.level e.target e.message).0
  unfolding push
  push-Retains = record {
    capacity_kept = h.capacity_kept;
    next_counts = omega (arith, h.next_counts, snoc-length es e);
    newest =
        rw (snoc-length es e, add-one)
          (ground (arith, h.capacity_kept, h.next_counts, buf_of_none, buf_of_full, buf_of_room));
  }

-- Pushing keeps the window, whatever the history so far.
push_all-Retains :
    (cap : ℕ) (es fs : List Entry) (r : EventRing)
    → Retains cap es r
    → Retains cap (es ++ fs) (push_all r fs)
unfolding push_all
push_all-Retains cap es [] r h = rw append-nil h
push_all-Retains cap es (e ∷ fs) r h =
    rw (sym (append_assoc es (e ∷ []) fs))
      (push_all-Retains cap (es ++ e ∷ []) fs _ (push-Retains cap es e r h))

-- After any history, a ring that started empty holds the newest `capacity` events under their
-- sequence numbers, which count from 1 without gaps.
pub push_all-new-Retains : (cap : ℕ) (es : List Entry) → Retains cap es (push_all (new cap) es)
push_all-new-Retains cap es = push_all-Retains cap [] es (new cap) (
    unfold new in
    record {
      capacity_kept = refl;
      next_counts = refl;
      newest = sym (drop-all (0 - cap) [] (omega arith));
    })
