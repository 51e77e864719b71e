-- ===== src/Event.antt =====
-- The bounded host event stream: crates/gpui-agent/src/event.rs.
-- The mutex is left out, since every method holds it from its first to its last line.
-- The counter `next` is a plain number: one push adds one, so it stays below 2 ^ 64.
pub mod History
pub mod Poll
use gpui_agent.Base.{
  ℕ, ◌+◌, ◌-◌, ◌%◌, ◌^◌, min, max, String, Bool, true, false, ◌&&◌, Option, none, some, List, [],
  ◌∷◌, ◌++◌, ◌==◌, nat_eq, ltb, if◌then◌else◌, length, take, drop, filter,
}

-- `EVENT_RING_CAPACITY` and `EVENTS_DEFAULT_LIMIT`
abbrev pub event_ring_capacity : ℕ
event_ring_capacity = 1024

abbrev pub events_default_limit : ℕ
events_default_limit = 256

pub data EventLevel : Type 0 where
  trace debug info warn error : EventLevel

pub record AgentEvent : Type 0 where
  pub seq : ℕ
  pub level : EventLevel
  pub target : String
  pub message : String

pub record EventPoll : Type 0 where
  pub events : List AgentEvent
  pub latest : ℕ
  pub lagged : Bool

pub record EventRing : Type 0 where
  pub capacity : ℕ
  pub next : ℕ
  pub buf : List AgentEvent

unfoldable pub new : ℕ → EventRing
new capacity = record { capacity = capacity; next = 1; buf = [] }

-- `Default::default`
unfoldable pub default : EventRing
unfolding new
default = new event_ring_capacity

-- The new ring and the allocated sequence number.
unfoldable pub push : EventRing → EventLevel → String → String → EventRing × ℕ
push r level target message =
    let seq = r.next in
    let kept : List AgentEvent =
      if ltb 0 r.capacity && length r.buf == r.capacity then drop 1 r.buf else r.buf in
    let entry : AgentEvent = record {
      seq = seq;
      level = level;
      target = target;
      message = message;
    } in
    let buf : List AgentEvent = if ltb 0 r.capacity then kept ++ entry ∷ [] else kept in
    (record r { next = r.next + 1; buf = buf }, seq)

-- `since.is_none_or(|s| e.seq > s)`
abbrev pub is_newer : Option ℕ → AgentEvent → Bool
is_newer none e = true
is_newer (some s) e = ltb s e.seq

-- `since.is_some_and(|s| s + 1 < base_seq)`, where `s + 1` is a `u64` sum.
abbrev pub is_lagged : Option ℕ → ℕ → Bool
is_lagged none base_seq = false
is_lagged (some s) base_seq = ltb ((s + 1) % 2 ^ 64) base_seq

unfoldable pub since : EventRing → Option ℕ → ℕ → EventPoll
since r cursor limit =
    let base_seq = r.next - length r.buf in
    record {
      events = take (min limit (max r.capacity 1)) (filter (is_newer cursor) r.buf);
      latest = r.next - 1;
      lagged = is_lagged cursor base_seq;
    }

unfoldable pub latest : EventRing → ℕ
latest r = r.next - 1

unfoldable pub is_empty : EventRing → Bool
is_empty r = length r.buf == 0
