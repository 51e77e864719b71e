-- ===== src/Recipe/Run/Session.antt =====
-- The client that a run uses is `AgentClient` of crates/gpui-agent/src/client.rs.
use gpui_agent.Base.{ℕ, ◌≡◌, subst, String, List, length}
use gpui_agent.Error.{ok}
use gpui_agent.Host.{Response}
use gpui_agent.Protocol.{Op}
use gpui_agent.Client.{Wire, AgentClient, has_session, rpc_op, rpc_pipeline}
use gpui_agent.Client.Complete.{IsComplete, rpc_pipeline-IsComplete}
use gpui_agent.Recipe.Run.Report.{Client}

module _ {F V W : Type 0} (wire : Wire F V W) where
  pub complete :
      (ops : List Op) (c : AgentClient W) (answers : List (Response F V))
      → (rpc_pipeline wire ops c).0 ≡ ok answers
      → length answers ≡ length ops
  complete ops c answers h = subst (IsComplete (length ops)) h (rpc_pipeline-IsComplete wire ops c)

  -- The clock and the files are those of the outside.
  abbrev pub session_client :
      (W → ℕ) → (String → W → W) → (String → String → String) → Client F V (AgentClient W)
  session_client millis create_dir_all join_path = record {
    rpc_op = rpc_op wire;
    rpc_pipeline = rpc_pipeline wire;
    has_session = has_session;
    millis = λ c. millis c.wire;
    create_dir_all = λ dir c. record c { wire = create_dir_all dir c.wire };
    join_path = join_path;
    pipeline_complete = complete;
  }
