-- ===== src/Mailbox.antt =====
-- The inbox of the UI thread: crates/gpui-agent/src/mailbox.rs. The mutex is left out, since every
-- method holds it from its first to its last line. A reply channel is what stands in it: a request
-- that is queued has an empty one, and a request that is refused has the refusal in it.
pub mod Order
use gpui_agent.Base.{
  ℕ, Bool, Option, none, some, List, [], ◌∷◌, ◌++◌, ◌==◌, nat_eq, leb, length, if◌then◌else◌,
}
use gpui_agent.Error.{Error}
use gpui_agent.Protocol.{Request}
use gpui_agent.Host.{Response, failure}

abbrev pub max_mailbox_depth : ℕ
max_mailbox_depth = 128

abbrev pub AgentMailbox : Type 0
AgentMailbox = List Request

-- `Default::default`
abbrev pub new : AgentMailbox
new = []

module _ {F V : Type 0} where
  -- The inbox after the call, and what the receiver finds at once.
  unfoldable pub push : AgentMailbox → Request → AgentMailbox × Option (Response F V)
  unfolding failure
  push inner request =
      if leb max_mailbox_depth (length inner)
      then (inner, some (failure request.id Error.mailbox_full))
      else (inner ++ request ∷ [], none)

-- `mem::take`: the requests, and the inbox after the call.
unfoldable pub take : AgentMailbox → List Request × AgentMailbox
take inner = (inner, [])

unfoldable pub len : AgentMailbox → ℕ
len inner = length inner

unfoldable pub is_empty : AgentMailbox → Bool
is_empty inner = length inner == 0
