-- ===== src/Dispatch/Answers.antt =====
-- The responses of dispatch.rs that only observe the host, with `fill_hello_identity` of
-- crates/gpui-agent/src/discovery.rs and `validate_request` of crates/gpui-agent/src/scroll_capture.rs.
-- The clock is left to the caller: a waiting call reads the host once, and again after each sleep
-- that its deadline allows, so what the host is at those later readings is a list of states.
pub mod Faithful
pub mod Waiting
use gpui_agent.Base.{
  ℕ, String, Bool, true, false, not, Option, none, some, List, [], ◌∷◌, ◌++◌, ◌==◌, string_eq,
  nat_eq, bool_eq, option_eq, any, ltb, length, if◌then◌else◌, ◌&&◌,
}
use gpui_agent.Base.Text.{codes, trim, is_some}
use gpui_agent.Base.Float.{Float}
use gpui_agent.Modes.{
  SnapshotFormat, PlatformKind, platform_eq, is_compact, is_scrolled, from_token_configured,
}
use gpui_agent.Error.{Error, is_in_viewport_unavailable, Result, ok, err, ensure, ◌>>◌}
use gpui_agent.Tree.{UiTree}
use gpui_agent.Tree.Search.{or_else}
use gpui_agent.Tree.Fingerprint.{fingerprint_map}
use gpui_agent.Diff.{diff_trees}
use gpui_agent.Diff.Compact.{compact_lines}
use gpui_agent.Protocol.{HelloInfo, ScreenshotSpec, AssertSpec}
use gpui_agent.Host.{Payload, Response, success, failure, AgentHost}
use gpui_agent.Dispatch.Cache.{TreeCache, tree_at, snapshot}
use gpui_agent.Dispatch.Assert.{assert_tree}

-- What `detect_identity` finds out about the process.
pub record HostIdentity : Type 0 where
  pub executable : String
  pub bundle_id : Option String
  pub connect_id : Option String

-- `field.as_deref().unwrap_or("").is_empty()`
abbrev is_unset : Option String → Bool
is_unset none = true
is_unset (some s) = s == ""

unfoldable pub fill_hello_identity : HostIdentity → HelloInfo → HelloInfo
fill_hello_identity ident hello = record hello {
  executable = if is_unset hello.executable then some ident.executable else hello.executable;
  bundle_id =
      if is_unset hello.bundle_id
      then or_else ident.bundle_id ident.connect_id
      else hello.bundle_id;
}

-- `if wanted && !features.iter().any(|f| f == feature) { features.push(feature) }`
abbrev advertise : Bool → String → List String → List String
advertise wanted feature features =
    if wanted && not (any (λ f. f == feature) features) then features ++ feature ∷ [] else features

-- The cap that scroll_capture.rs puts on a stitched image.
abbrev pub default_max_height_px : ℕ
default_max_height_px = 16384

-- `self.target.map(str::trim).filter(|s| !s.is_empty())`
abbrev names_target : Option String → Bool
names_target none = false
names_target (some s) = not (length (trim (codes s)) == 0)

abbrev check_height : Option ℕ → Result (Unit {0})
check_height none = ok tt
check_height (some h) = do
  ensure (not (h == 0)) Error.max_height_zero
  ensure (not (ltb default_max_height_px h)) (Error.max_height_exceeded h)

unfoldable pub validate_request : ScreenshotSpec → Result (Unit {0})
unfolding trim
validate_request spec = do
  ensure (not (is_scrolled spec.mode && not (names_target spec.target)))
      Error.scroll_target_required
  check_height spec.max_height_px

module _ {S F V : Type 0} (h : AgentHost S F V) (ident : HostIdentity) where
  -- The hello record with the authentication and the identity filled in.
  unfoldable pub present : S → Option String → HelloInfo
  unfolding fill_hello_identity from_token_configured
  present s expected_token =
      fill_hello_identity ident (record (h.hello s) { auth = from_token_configured expected_token })

  abbrev features_of : S → List String → List String
  features_of s fs =
      let base =
        advertise true "expect_fingerprint"
          (advertise true "snapshot_compact" (advertise true "snapshot_since" fs)) in
      advertise (is_some (h.event_ring s)) "events" (advertise (is_some (h.revision s)) "rev" base)

  unfoldable pub hello_response : S → String → Option String → Response F V
  unfolding present success
  hello_response s id expected_token =
      let hello = present s expected_token in
      record (success id) {
        hello = some (record hello { features = features_of s hello.features });
      }

  -- The response and the state of the host at the last reading.
  unfoldable pub wait_until_ready : List S → S → String → Option String → Response F V × S
  unfolding present success failure
  wait_until_ready [] s id expected_token =
      if (h.hello s).ready
      then (record (success id) { hello = some (present s expected_token) }, s)
      else (failure id Error.wait_timed_out, s)
  wait_until_ready (next ∷ later) s id expected_token =
      let rest = wait_until_ready later next id expected_token in
      if (h.hello s).ready
      then (record (success id) { hello = some (present s expected_token) }, s)
      else rest

module _ {S F V : Type 0} ⦃f : Float F⦄ (h : AgentHost S F V) where
  abbrev with_fingerprints : Option Bool → UiTree F → Response F V → Response F V
  with_fingerprints wanted tree resp =
      if wanted == some true
      then record resp { fingerprints = some (fingerprint_map tree) }
      else resp

  -- The tree of a revision still in the ring, if the tree at hand has a revision at all.
  abbrev remembered : TreeCache F → Option ℕ → ℕ → Option (UiTree F)
  remembered c none s = none
  remembered c (some rev) s = tree_at c s

  abbrev since_old : Option (UiTree F) → UiTree F → Response F V → Response F V
  since_old (some old) tree resp = record resp {
    result = some (Payload.diff (diff_trees old tree));
  }
  since_old none tree resp = record resp { tree = some tree; result = some Payload.full }

  abbrev with_since : TreeCache F → Option ℕ → UiTree F → Response F V → Response F V
  with_since c none tree resp = record resp { tree = some tree }
  with_since c (some s) tree resp =
      if tree.rev == some s
      then record resp { result = some Payload.unchanged }
      else since_old (remembered c tree.rev s) tree resp

  unfoldable pub snapshot_response :
      TreeCache F
      → S
      → String
      → Option ℕ
      → Option SnapshotFormat
      → Option Bool
      → Response F V × TreeCache F
  unfolding snapshot tree_at success diff_trees compact_lines fingerprint_map
  snapshot_response c s id since format fingerprints =
      let (c1, tree) = snapshot h c s in
      let resp = with_fingerprints fingerprints tree (record (success id) { rev = tree.rev }) in
      if is_compact format
      then (record resp { result = some (Payload.compact (compact_lines tree)) }, c1)
      else (with_since c1 since tree resp, c1)

  -- Some error ends the wait at once: the geometry of a headless host never comes.
  abbrev pub is_hopeless : UiTree F → Error → Bool
  is_hopeless tree e = is_in_viewport_unavailable e && tree.platform == PlatformKind.headless

  -- What one reading decides; `rest` is what follows a failed one that is not hopeless.
  abbrev pub settle :
      String
      → UiTree F
      → TreeCache F
      → S
      → (Error → Response F V × TreeCache F × S)
      → Result (Unit {0})
      → Response F V × TreeCache F × S
  settle id tree c s rest (ok u) = (success id, c, s)
  settle id tree c s rest (err e) = if is_hopeless tree e then (failure id e, c, s) else rest e

  -- The response, the cache and the state of the host at the last reading.
  unfoldable pub wait_until_assert :
      List S → S → String → AssertSpec → TreeCache F → Response F V × TreeCache F × S
  unfolding success failure
  wait_until_assert [] s id spec c =
      let (c1, tree) = snapshot h c s in
      settle id tree c1 s (λ e. (failure id (Error.wait_until_timed_out e), c1, s))
        (assert_tree tree spec)
  wait_until_assert (next ∷ later) s id spec c =
      let (c1, tree) = snapshot h c s in
      let rest = wait_until_assert later next id spec c1 in
      settle id tree c1 s (λ e. rest) (assert_tree tree spec)
