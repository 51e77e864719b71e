-- ===== src/Event/Poll.antt =====
-- What a poll answers, against the history of the ring.
use native.Mathlib.Nat.{mod-eq_of_lt}
use gpui_agent.Base.{
  ℕ, zero, suc, ◌+◌, ◌-◌, ◌^◌, ◌≤◌, ◌<◌, min, max, ◌≡◌, refl, ◌∙◌, ap, true, false, some, List, [],
  ◌∷◌, arith, length, drop, take, filter, length-drop, ltb,
}
use gpui_agent.Event.{EventRing, new, since, is_newer}
use gpui_agent.Event.History.{Entry, numbered, length-numbered, push_all, push_all-new-Retains}

abbrev pub ring : ℕ → List Entry → EventRing
ring cap es = push_all (new cap) es

-- Dropping events that a cursor has already passed changes nothing for the filter.
filter-drop :
    (s k seq : ℕ) (es : List Entry)
    → seq + k ≤ s + 1
    → filter (is_newer (some s)) (drop k (numbered seq es))
      ≡ filter (is_newer (some s)) (numbered seq es)
filter-drop s zero seq es h = refl
filter-drop s (suc k) seq [] h = refl
filter-drop s (suc k) seq (e ∷ es) h = ground (arith, filter-drop s k (suc seq) es (omega arith))

base_seq-eq :
    (cap : ℕ) (es : List Entry)
    → (ring cap es).next - length (ring cap es).buf ≡ suc (length es - cap)
base_seq-eq cap es =
    let h = push_all-new-Retains cap es in
    omega (
      arith,
      h.next_counts,
      ap length h.newest,
      length-drop (length es - cap) (numbered 1 es),
      length-numbered 1 es,
    )

-- A poll from a cursor below the largest `u64` reports `lagged` exactly when an event that the
-- cursor has not seen was evicted.
pub lagged-since :
    (cap : ℕ) (es : List Entry) (s limit : ℕ)
    → s + 1 < 2 ^ 64
    → (since (ring cap es) (some s) limit).lagged ≡ ltb s (length es - cap)
unfolding since
lagged-since cap es s limit h = rw (base_seq-eq cap es, mod-eq_of_lt h) (ground arith)

-- What is left of the history in the ring holds every event after a cursor that is not lagged.
filter-buf :
    (cap : ℕ) (es : List Entry) (s : ℕ)
    → length es - cap ≤ s
    → filter (is_newer (some s)) (ring cap es).buf ≡ filter (is_newer (some s)) (numbered 1 es)
filter-buf cap es s h =
    ap (filter (is_newer (some s))) (push_all-new-Retains cap es).newest
    ∙ filter-drop s (length es - cap) 1 es (omega arith)

-- From a cursor below the largest `u64`, a poll that is not lagged answers the first events of the
-- whole history after the cursor, up to the limit (which the capacity caps), and `latest` is the number of all events ever pushed.
pub events-since :
    (cap : ℕ) (es : List Entry) (s limit : ℕ)
    → s + 1 < 2 ^ 64
    → (since (ring cap es) (some s) limit).lagged ≡ false
    → since (ring cap es) (some s) limit ≡ record {
      events = take (min limit (max cap 1)) (filter (is_newer (some s)) (numbered 1 es));
      latest = length es;
      lagged = false;
    }
unfolding since
events-since cap es s limit small here =
    let h = push_all-new-Retains cap es in
    let seen : length es - cap ≤ s = ground (arith, lagged-since cap es s limit small) in
    λ i. record {
      events = take (min limit (max (h.capacity_kept i) 1)) (filter-buf cap es s seen i);
      latest = latest-eq i;
      lagged = here i;
    }
  where
    latest-eq : (ring cap es).next - 1 ≡ length es
    latest-eq = omega (arith, (push_all-new-Retains cap es).next_counts)

-- At the largest cursor the sum `s + 1` wraps to 0, and the poll reports `lagged` whatever the history.
pub since-largest :
    (cap : ℕ) (es : List Entry) (limit : ℕ)
    → (since (ring cap es) (some (2 ^ 64 - 1)) limit).lagged ≡ true
unfolding since
since-largest cap es limit = rw (base_seq-eq cap es) (ground arith)
