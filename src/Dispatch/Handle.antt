-- ===== src/Dispatch/Handle.antt =====
-- `handle_request_cached` and `handle_request` of dispatch.rs, which turn a request into a response.
pub mod Guard
pub mod Session
use gpui_agent.Base.{ℕ, String, Option, none, some, List, ◌==◌, nat_eq}
use gpui_agent.Base.Float.{Float}
use gpui_agent.Error.{Error, Result, ok, err, ensure}
use gpui_agent.Event.{EventRing, since, events_default_limit}
use gpui_agent.Tree.Fingerprint.{fingerprint_of}
use gpui_agent.Protocol.{Op, Request, ScreenshotSpec, fingerprint_gate}
use gpui_agent.Keybinding.{KeybindingInfo, keybinding_list, authorize_keybinding_op}
use gpui_agent.Host.{Payload, Response, success, failure, AgentHost}
use gpui_agent.Dispatch.Cache.{Security, authorize_request, TreeCache, new, snapshot}
use gpui_agent.Dispatch.Assert.{assert_tree}
use gpui_agent.Dispatch.Answers.{
  HostIdentity, validate_request, hello_response, wait_until_ready, snapshot_response,
  wait_until_assert,
}

abbrev limit_or_default : Option ℕ → ℕ
limit_or_default none = events_default_limit
limit_or_default (some l) = l

-- Is the node that the caller saw still the one in the tree?
abbrev check_fingerprint : String → ℕ → Option ℕ → Result (Unit {0})
check_fingerprint target expected none = err (Error.target_gone target)
check_fingerprint target expected (some actual) =
    ensure (actual == expected) (Error.stale_target target)

module _ {F V : Type 0} where
  -- `Ok(result) => { resp.result = result.value; resp }`, `Err(error) => Response::err(id, error)`
  abbrev pub answer : String → Result (Option V) → Response F V
  answer id (ok none) = success id
  answer id (ok (some v)) = record (success id) { result = some (Payload.host v) }
  answer id (err e) = failure id e

  abbrev acknowledge : String → Result (Unit {0}) → Response F V
  acknowledge id (ok u) = success id
  acknowledge id (err e) = failure id e

  abbrev events_response : String → Option EventRing → Option ℕ → Option ℕ → Response F V
  events_response id none cursor limit = failure id Error.events_unsupported
  events_response id (some ring) cursor limit = record (success id) {
    result = some (Payload.poll (since ring cursor (limit_or_default limit)));
  }

-- What the request leaves: the response, the cache of the session, and the host.
pub record Served (S F V : Type 0) : Type 0 where
  pub response : Response F V
  pub cache : TreeCache F
  pub host : S

module _ {S F V : Type 0} ⦃f : Float F⦄ (h : AgentHost S F V) where
  abbrev pub dispatched : TreeCache F → String → S × Result (Option V) → Served S F V
  dispatched c id (s, r) = record { response = answer id r; cache = c; host = s }

  abbrev observed : TreeCache F → S → Response F V → Served S F V
  observed c s r = record { response = r; cache = c; host = s }

  abbrev fire : TreeCache F → S → String → Op → Result KeybindingInfo → Served S F V
  fire c s id op (ok row) = dispatched c id (h.dispatch s op)
  fire c s id op (err e) = observed c s (failure id e)

  abbrev capture : S → String → ScreenshotSpec → Result (Unit {0}) → Response F V
  capture s id spec (ok u) = answer id (h.screenshot s spec)
  capture s id spec (err e) = failure id e

  abbrev gated : TreeCache F → S → String → Op → Result (Unit {0}) → Served S F V
  gated c s id op (ok u) = dispatched c id (h.dispatch s op)
  gated c s id op (err e) = observed c s (failure id e)

  abbrev mutate : TreeCache F → S → String → Op → Option (String × ℕ) → Served S F V
  mutate c s id op none = dispatched c id (h.dispatch s op)
  mutate c s id op (some (target, expected)) =
      let (c1, tree) = snapshot h c s in
      gated c1 s id op (check_fingerprint target expected (fingerprint_of tree target))

module _ {S F V : Type 0} ⦃f : Float F⦄ (h : AgentHost S F V) (ident : HostIdentity)
    (sec : Security) where
  -- The `match` on the operation. `later` is the host at the readings that follow the first.
  unfoldable pub serve : List S → TreeCache F → S → String → Op → Served S F V
  unfolding success failure since keybinding_list authorize_keybinding_op validate_request
      fingerprint_gate snapshot assert_tree hello_response wait_until_ready snapshot_response
      wait_until_assert fingerprint_of
  serve later c s id Op.hello = observed h c s (hello_response h ident s id sec.expected_token)
  serve later c s id (Op.wait none) =
      observed h c s (hello_response h ident s id sec.expected_token)
  serve later c s id (Op.wait (some ms)) =
      let (r, last) = wait_until_ready h ident later s id sec.expected_token in observed h c last r
  serve later c s id (Op.wait_until ms spec) =
      let (r, c1, last) = wait_until_assert h later s id spec c in observed h c1 last r
  serve later c s id Op.revision = observed h c s (record (success id) { rev = h.revision s })
  serve later c s id (Op.snapshot since_rev format fingerprints) =
      let (r, c1) = snapshot_response h c s id since_rev format fingerprints in observed h c1 s r
  serve later c s id (Op.screenshot spec) =
      observed h c s (capture h s id spec (validate_request spec))
  serve later c s id (Op.assert spec) =
      let (c1, tree) = snapshot h c s in observed h c1 s (acknowledge id (assert_tree tree spec))
  serve later c s id Op.keybindings =
      observed h c s
        (record (success id) { result = some (Payload.rows (keybinding_list (h.keybindings s))) })
  serve later c s id (Op.events cursor limit) =
      observed h c s (events_response id (h.event_ring s) cursor limit)
  serve later c s id (Op.keybinding r) =
      fire h c s id (Op.keybinding r)
        (authorize_keybinding_op (Op.keybinding r) (h.keybindings s) (h.is_app_focused s))
  serve later c s id Op.shutdown = dispatched h c id (h.dispatch s Op.shutdown)
  serve later c s id other = mutate h c s id other (fingerprint_gate other)

  abbrev authorized : List S → TreeCache F → S → Request → Result (Unit {0}) → Served S F V
  authorized later c s req (ok u) = serve later c s req.id req.op
  authorized later c s req (err e) = observed h c s (failure req.id e)

  unfoldable pub handle_request_cached : List S → TreeCache F → S → Request → Served S F V
  unfolding authorize_request serve
  handle_request_cached later c s req = authorized later c s req (authorize_request sec req)

  -- `handle_request`: a fresh cache for each call.
  unfoldable pub handle_request : List S → S → Request → Response F V × S
  unfolding handle_request_cached new
  handle_request later s req =
      let served = handle_request_cached later new s req in (served.response, served.host)
