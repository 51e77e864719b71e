-- ===== src/Tests/Serving.antt =====
-- The dispatcher and the store at concrete inputs.
use gpui_agent.Json.{get_str}
use gpui_agent.Base.{
  ℕ, ◌≡◌, ◌⊎◌, ◌↔◌, refl, true, false, ap, none, some, some-injective, [], ◌∷◌, arith, filter,
}
use gpui_agent.Error.{Error, ok}
use gpui_agent.Tree.Fingerprint.{fingerprint_of}
use gpui_agent.Tree.Order.{preorder_in, has_id}
use gpui_agent.Protocol.{Op, fingerprint_gate}
use gpui_agent.Host.{failure}
use gpui_agent.Dispatch.Cache.{authorize_request, TreeCache, snapshot}
use gpui_agent.Dispatch.Cache.Trusted.{Trusted, authorize_request-Trusted}
use gpui_agent.Dispatch.Cache.Coherent.{Coherent, IsHonest, current, stamp, snapshot-current}
use gpui_agent.Dispatch.Assert.{assert_tree}
use gpui_agent.Dispatch.Assert.Satisfied.{Satisfied, assert_tree-Satisfied}
use gpui_agent.Dispatch.Answers.{wait_until_assert, snapshot_response}
use gpui_agent.Dispatch.Answers.Faithful.{Reflects, Labels, snapshot_response-Reflects}
use gpui_agent.Dispatch.Answers.Waiting.{Fits, wait_until_assert-Fits, wait_until_assert-quiet}
use gpui_agent.Dispatch.Handle.{serve, handle_request_cached}
use gpui_agent.Dispatch.Handle.Guard.{
  Gated, gate-dispatches, handle_request_cached-Trusted, serve-observes, ReadIn,
}
use gpui_agent.Todo.{Page}
use gpui_agent.Todo.Tree.{tree}
use gpui_agent.Todo.Host.{dispatch, todo_host}
use gpui_agent.Todo.Host.Invariant.{WellFormed, dispatch-WellFormed}
use gpui_agent.Todo.Host.Revision.{Announced, dispatch-Announced, nav_go-unannounced}
use gpui_agent.Todo.Host.Session
use gpui_agent.Todo.Host.Session.{session-Reflects}
use gpui_agent.Dispatch.Handle.Session.{handle_request_cached-Coherent}
use gpui_agent.Dispatch.Cache
use gpui_agent.Dispatch.Answers.Waiting.{last}
use gpui_agent.Tests.Data.{
  unguarded, whole_float, small_tree, wants_ok, around, host, milk, add_click, identity, guarded,
  add_request, settings_args,
}

abbrev empty_cache : TreeCache ℕ
empty_cache = record { ring = []; rebuilds = 0 }

empty-Coherent : Coherent (λ r. tree milk) empty_cache
empty-Coherent = record { bounded = omega arith; entries = tt }

milk-IsHonest : IsHonest host (λ r. tree milk) milk
unfolding todo_host
milk-IsHonest r e = ap (λ k. stamp k (tree milk)) (some-injective 5 r e)

gate-dispatches_example :
    Gated host identity guarded
      (snapshot host empty_cache milk).0
      milk
      "r1"
      add_click
      "todo-add"
      7
      (serve host identity guarded [] empty_cache milk "r1" add_click)
      (fingerprint_of (current host milk) "todo-add")
unfolding fingerprint_gate
gate-dispatches_example =
    gate-dispatches host identity guarded (λ r. tree milk) [] empty_cache milk "r1" add_click
      "todo-add" 7 empty-Coherent milk-IsHonest refl

authorize_request-Trusted_example :
    (authorize_request guarded add_request ≡ ok tt)
    ↔ Trusted guarded add_request guarded.expected_token
authorize_request-Trusted_example = authorize_request-Trusted guarded add_request

snapshot_response-Reflects_example :
    Coherent (λ r. tree milk) (snapshot_response host empty_cache milk "r2" (some 4) none none).1
    × Reflects host
        (λ r. tree milk)
        milk
        (snapshot_response host empty_cache milk "r2" (some 4) none none).1
        false
        (some 4)
        (snapshot_response host empty_cache milk "r2" (some 4) none none).0
    × Labels none
        (current host milk)
        (snapshot_response host empty_cache milk "r2" (some 4) none none).0
snapshot_response-Reflects_example =
    snapshot_response-Reflects host (λ r. tree milk) milk empty_cache "r2" (some 4) none none
      empty-Coherent milk-IsHonest

wait_until_assert-Fits_example :
    let answer = wait_until_assert host (milk ∷ []) milk "r3" wants_ok empty_cache in
    Fits host "r3" wants_ok (milk ∷ milk ∷ []) answer.2 answer.0
wait_until_assert-Fits_example =
    wait_until_assert-Fits host "r3" wants_ok (λ r. tree milk) (milk ∷ []) milk empty_cache
      empty-Coherent (milk-IsHonest, (milk-IsHonest, tt))

wait_until_assert-quiet_example :
    (wait_until_assert host (milk ∷ []) milk "r3" wants_ok empty_cache).1
    ≡ (snapshot host empty_cache milk).0
unfolding todo_host
wait_until_assert-quiet_example =
    wait_until_assert-quiet host "r3" wants_ok (milk ∷ []) milk empty_cache 5 (refl, (refl, tt))

snapshot-current_example :
    Coherent (λ r. tree milk) (snapshot host empty_cache milk).0
    × ((snapshot host empty_cache milk).1 ≡ current host milk)
snapshot-current_example =
    snapshot-current host (λ r. tree milk) empty_cache milk empty-Coherent milk-IsHonest

assert_tree-Satisfied_example :
    (assert_tree small_tree wants_ok ≡ ok tt)
    ↔ Satisfied small_tree wants_ok true (filter (has_id "ok") (preorder_in small_tree.nodes))
assert_tree-Satisfied_example = assert_tree-Satisfied small_tree wants_ok

handle_request_cached-Trusted_example :
    (Trusted guarded add_request guarded.expected_token
      × (handle_request_cached host identity guarded [] empty_cache milk add_request
          ≡ serve host identity guarded [] empty_cache milk add_request.id add_request.op))
    ⊎ (¬ Trusted guarded add_request guarded.expected_token
        × ((e : Error) × (handle_request_cached host identity guarded [] empty_cache milk
                add_request
              ≡ record { response = failure add_request.id e; cache = empty_cache; host = milk })))
handle_request_cached-Trusted_example =
    handle_request_cached-Trusted host identity guarded [] empty_cache milk add_request

serve-observes_example :
    ReadIn
      (serve host identity guarded
        (milk ∷ [])
        empty_cache
        milk
        "r4"
        (Op.wait_until 50 wants_ok)).host
      (milk ∷ milk ∷ [])
serve-observes_example =
    serve-observes host identity guarded (milk ∷ []) empty_cache milk "r4"
      (Op.wait_until 50 wants_ok) refl

dispatch-WellFormed_example : WellFormed (dispatch around milk add_click).0
dispatch-WellFormed_example =
    dispatch-WellFormed around add_click milk (omega arith, (omega arith, omega arith))

dispatch-Announced_example : Announced ℕ milk (dispatch around milk add_click).0
dispatch-Announced_example = dispatch-Announced ℕ around add_click milk refl

nav_go-unannounced_example :
    let next = (dispatch around milk (Op.invoke "nav.go" settings_args)).0 in
    (next.page ≡ Page.settings)
    × (snapshot host (snapshot host empty_cache milk).0 next ≡ snapshot host empty_cache milk)
unfolding get_str
nav_go-unannounced_example = nav_go-unannounced ℕ around settings_args milk empty_cache refl

session-Reflects_example :
    let run = Session.session ℕ around identity unguarded Cache.new milk (add_request ∷ []) in
    let final = last milk run.0 in
    Reflects host
      (λ r. Session.shown_at ℕ (milk ∷ run.0) r small_tree)
      final
      (snapshot_response host run.1 final "r5" (some 5) none none).1
      false
      (some 5)
      (snapshot_response host run.1 final "r5" (some 5) none none).0
    × ((snapshot_response host run.1 final "r5" (some 5) none none).0.rev
        ≡ (current host final).rev)
session-Reflects_example =
    session-Reflects ℕ around identity unguarded milk (add_request ∷ []) small_tree "r5" (some 5)
      none none (refl, tt)

handle_request_cached-Coherent_example :
    Coherent
      (λ r. tree milk)
      (handle_request_cached host identity unguarded [] empty_cache milk add_request).cache
handle_request_cached-Coherent_example =
    handle_request_cached-Coherent host (λ r. tree milk) identity unguarded [] empty_cache milk
      add_request empty-Coherent (milk-IsHonest, tt)
