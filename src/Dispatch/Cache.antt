-- ===== src/Dispatch/Cache.antt =====
-- `TreeCache` and `authorize_request` of dispatch.rs. The counter `rebuilds` is a plain number.
pub mod Trusted
pub mod Coherent
use mathlib.Core.Option
use gpui_agent.Base.{
  ℕ, ◌+◌, ◌-◌, String, Bool, true, false, not, Option, none, some, List, [], ◌∷◌, ◌++◌, ◌==◌,
  nat_eq, option_eq, if◌then◌else◌, length, drop, get_last?, find,
}
use gpui_agent.Base.Text.{codes}
use gpui_agent.Error.{Error, Result, ok, err, ensure, ◌>>◌}
use gpui_agent.Hex.{nonce_len, hmac_verify}
use gpui_agent.Tree.{UiTree}
use gpui_agent.Tree.Fingerprint.{as_bytes}
use gpui_agent.Tree.Search.{or_else}
use gpui_agent.Protocol.{Request, protocol_version}
use gpui_agent.Host.{AgentHost}

-- What a deployment fixes: the MAC, the token that it expects and the nonce of the session.
pub record Security : Type 0 where
  pub mac : List ℕ → List ℕ → List ℕ
  pub expected_token : Option String
  pub session_nonce : Option (List ℕ)

abbrev is_empty : String → Bool
is_empty String.[] = true
is_empty (String.◌∷◌ c s) = false

-- `req.token.as_deref().is_some_and(|t| !t.is_empty())`
abbrev sends_token : Request → Bool
sends_token req = elim req.token [ none ↦ false | some t ↦ not (is_empty t) ]

-- `session_nonce.filter(|n| n.len() == NONCE_LEN)`
abbrev full_nonce : Option (List ℕ) → Option (List ℕ)
full_nonce none = none
full_nonce (some n) = if length n == nonce_len then some n else none

abbrev check_auth :
    (List ℕ → List ℕ → List ℕ) → String → Option (List ℕ) → Option String → Result (Unit {0})
check_auth mac expected none auth = err Error.token_required
check_auth mac expected (some nonce) none = err Error.token_required
check_auth mac expected (some nonce) (some auth) =
    ensure (hmac_verify mac (as_bytes expected) nonce (codes auth)) Error.invalid_token

abbrev check_token : Security → Request → Option String → Result (Unit {0})
check_token sec req none = ok tt
check_token sec req (some expected) = do
  ensure (not (sends_token req)) Error.token_on_wire
  check_auth sec.mac expected (full_nonce sec.session_nonce) req.auth

unfoldable pub authorize_request : Security → Request → Result (Unit {0})
unfolding hmac_verify
authorize_request sec req = do
  ensure (req.v == protocol_version) (Error.unsupported_version req.v)
  check_token sec req sec.expected_token

-- `REV_RING_DEPTH`
abbrev pub rev_ring_depth : ℕ
rev_ring_depth = 8

pub record TreeCache (F : Type 0) : Type 0 where
  pub ring : List (ℕ × UiTree F)
  pub rebuilds : ℕ

-- The newest tree, if it has the revision that the host reports.
module _ {F : Type 0} where
  unfoldable pub new : TreeCache F
  new = record { ring = []; rebuilds = 0 }

  abbrev newest_at : Option (ℕ × UiTree F) → ℕ → Option (UiTree F)
  newest_at none rev = none
  newest_at (some (cached_rev, tree)) rev = if cached_rev == rev then some tree else none

  unfoldable pub cached : TreeCache F → Option ℕ → Option (UiTree F)
  cached c none = none
  cached c (some rev) = newest_at (get_last? c.ring) rev

  -- `while self.ring.len() > REV_RING_DEPTH { self.ring.pop_front(); }`
  unfoldable pub trim_ring : List (ℕ × UiTree F) → List (ℕ × UiTree F)
  trim_ring ring = drop (length ring - rev_ring_depth) ring

  unfoldable pub rebuild : TreeCache F → Option ℕ → UiTree F → TreeCache F × UiTree F
  unfolding trim_ring
  rebuild c none tree = (record c { rebuilds = c.rebuilds + 1 }, tree)
  rebuild c (some rev) tree =
      let stamped = record tree { rev = some rev } in
      (
        record { ring = trim_ring (c.ring ++ (rev, stamped) ∷ []); rebuilds = c.rebuilds + 1 },
        stamped,
      )

  -- `tree_at`
  unfoldable pub tree_at : TreeCache F → ℕ → Option (UiTree F)
  tree_at c rev = Option.map (λ (r, t). t) (find (λ (r, t). r == rev) c.ring)

module _ {S F V : Type 0} (h : AgentHost S F V) where
  abbrev from_cache : TreeCache F → S → Option (UiTree F) → TreeCache F × UiTree F
  from_cache c s (some tree) = (c, tree)
  from_cache c s none = let tree = h.snapshot s in rebuild c (or_else (h.revision s) tree.rev) tree

  -- `TreeCache::snapshot`
  unfoldable pub snapshot : TreeCache F → S → TreeCache F × UiTree F
  unfolding cached rebuild
  snapshot c s = from_cache c s (cached c (h.revision s))
