-- ===== src/Mailbox/Order.antt =====
-- What the UI thread drains from the inbox of crates/gpui-agent/src/mailbox.rs.
use gpui_agent.Base.{
  ℕ, zero, suc, ◌+◌, ◌<◌, ◌≡◌, refl, ap, Option, none, some, List, [], ◌∷◌, ◌++◌, nat_eq, length,
  arith, take as first, length-append, append_assoc, append-nil,
}
use gpui_agent.Error.{Error}
use gpui_agent.Protocol.{Request}
use gpui_agent.Host.{Response, failure}
use gpui_agent.Mailbox.{AgentMailbox, max_mailbox_depth, new, push, take}

module _ (F V : Type 0) where
  -- The requests of several threads in the order in which they get hold of the inbox.
  unfoldable pub push_all :
      AgentMailbox → List Request → AgentMailbox × List (Option (Response F V))
  unfolding push
  push_all inner [] = (inner, [])
  push_all inner (r ∷ rs) =
      let (next, reply) = push inner r in
      let (final, replies) = push_all next rs in (final, reply ∷ replies)

  -- The replies that `n` free places allow: none for a request that is queued.
  abbrev pub refusals : ℕ → List Request → List (Option (Response F V))
  refusals n [] = []
  refusals zero (r ∷ rs) = some (failure r.id Error.mailbox_full) ∷ refusals zero rs
  refusals (suc n) (r ∷ rs) = none ∷ refusals n rs

  push-room :
      (inner : AgentMailbox) (r : Request)
      → length inner < max_mailbox_depth
      → push {F = F} {V = V} inner r ≡ (inner ++ r ∷ [], none)
  unfolding push
  push-room inner r h = ground (arith, h)

  push-full :
      (inner : AgentMailbox) (r : Request)
      → length inner ≡ max_mailbox_depth
      → push {F = F} {V = V} inner r ≡ (inner, some (failure r.id Error.mailbox_full))
  unfolding push
  push-full inner r h = ground (arith, h)

  take-nil : (n : ℕ) → first {A = Request} n [] ≡ []
  take-nil zero = refl
  take-nil (suc n) = refl

  push_all-from :
      (room : ℕ) (inner : AgentMailbox) (rs : List Request)
      → length inner + room ≡ max_mailbox_depth
      → push_all inner rs ≡ (inner ++ first room rs, refusals room rs)
  unfolding push_all
  push_all-from room inner [] h = rw (take-nil room, append-nil inner) refl
  push_all-from zero inner (r ∷ rs) h =
      rw (push-full inner r (omega arith), push_all-from zero inner rs h) refl
  push_all-from (suc room) inner (r ∷ rs) h =
      rw
        (
          push-room inner r (omega arith),
          push_all-from room (inner ++ r ∷ []) rs (omega (arith, length-append inner (r ∷ []))),
          append_assoc inner (r ∷ []) (first room rs),
        )
        refl

  -- Whatever the order in which requests arrive at an empty inbox, the UI thread drains the first 128
  -- of them in that order and leaves an empty inbox; every later one is answered "mailbox full" at
  -- once, and no other one is.
  pub push_all-take :
      (rs : List Request)
      → let (inner, replies) = push_all new rs in
        (take inner ≡ (first max_mailbox_depth rs, new)) × (replies ≡ refusals max_mailbox_depth rs)
  unfolding take
  push_all-take rs =
      let e = push_all-from max_mailbox_depth new rs refl in
      (ap (λ (inner, replies). (inner, new)) e, ap (λ (inner, replies). replies) e)
