-- ===== src/Client.antt =====
-- The blocking client: `AgentClient` of crates/gpui-agent/src/client.rs. The socket, with the challenge
-- that opens a session, is a parameter, and so is the clock: it says how often a loop is tried.
pub mod Complete
pub mod Once
pub mod Answered
use gpui_agent.Base.{
  ℕ, zero, suc, ◌+◌, String, Bool, true, false, Option, none, some, List, [], ◌∷◌, ◌++◌, not, leb,
  if◌then◌else◌, length, find, ◌-◌,
}
use gpui_agent.Error.{Error, Result, ok, err}
use gpui_agent.Host.{Response}
use gpui_agent.Mailbox.{max_mailbox_depth}
use gpui_agent.Protocol.{Op}

-- `W` is the state of the outside. `read_line` answers `none` at the end of the stream, and fails on
-- a line that is no response.
pub record Wire (F V W : Type 0) : Type 0 where
  pub open_session : W → Result (Unit {0}) × W
  pub set_io_timeout : Op → W → Result (Unit {0}) × W
  pub send_line : ℕ → Op → W → Result (Unit {0}) × W
  pub flush : W → Result (Unit {0}) × W
  pub read_line : W → Result (Option (Response F V)) × W
  pub sleep : W → W
  pub tries : W → ℕ

-- `session` tells whether there is a live one.
pub record AgentClient (W : Type 0) : Type 0 where
  pub next_id : ℕ
  pub session : Bool
  pub wire : W

pub data PipelineError : Type 0 where
  retryable fatal : Error → PipelineError

pub data Pipelined (F V : Type 0) : Type 0 where
  answered : List (Response F V) → Pipelined F V
  broken : PipelineError → Pipelined F V

-- `AgentClient::has_session` and `AgentClient::close_session`
abbrev pub has_session : {W : Type 0} → AgentClient W → Bool
has_session c = c.session

abbrev pub close_session : {W : Type 0} → AgentClient W → AgentClient W
close_session c = record c { session = false }

abbrev closed : Error
closed = Error.host_error "connection closed"

abbrev or_closed : Option Error → Error
or_closed none = closed
or_closed (some e) = e

-- `ops.chunks(MAX_MAILBOX_DEPTH)`, with the chunk that is being filled and the room in it.
unfoldable pub chunks_from {ℓ} : {A : Type ℓ} → ℕ → List A → List A → List (List A)
chunks_from room chunk [] = chunk ∷ []
chunks_from zero chunk (x ∷ xs) = chunk ∷ chunks_from (max_mailbox_depth - 1) (x ∷ []) xs
chunks_from (suc room) chunk (x ∷ xs) = chunks_from room (chunk ++ x ∷ []) xs

unfoldable pub chunks {ℓ} : {A : Type ℓ} → List A → List (List A)
unfolding chunks_from
chunks [] = []
chunks (x ∷ xs) = chunks_from (max_mailbox_depth - 1) (x ∷ []) xs

module _ {F V : Type 0} where
  abbrev pub failed_of : Option (Response F V) → PipelineError
  failed_of none = PipelineError.fatal closed
  failed_of (some resp) = PipelineError.fatal (or_closed resp.error)

  unfoldable pub pipeline_eof : List (Response F V) → PipelineError
  pipeline_eof partial = failed_of (find (λ resp. not resp.ok) partial)

abbrev pub next_line :
    {W : Type 0}
    → Bool
    → Result (Unit {0}) × W
    → (W → Option PipelineError × W)
    → Option PipelineError × W
next_line wrote (err e, w) rest =
    (some (if wrote then PipelineError.fatal e else PipelineError.retryable e), w)
next_line wrote (ok u, w) rest = rest w

module _ {F V W : Type 0} where
  -- The loop that writes the request lines: the first error, if any.
  unfoldable pub write_lines : Wire F V W → ℕ → List Op → Bool → W → Option PipelineError × W
  write_lines wire id [] wrote w = (none, w)
  write_lines wire id (op ∷ ops) wrote w =
      next_line wrote (wire.send_line id op w) (λ after. write_lines wire (suc id) ops true after)

  abbrev pub read_next :
      List (Response F V)
      → Result (Option (Response F V)) × W
      → (List (Response F V) → W → Pipelined F V × W)
      → Pipelined F V × W
  read_next out (err e, w) rest = (broken (PipelineError.fatal e), w)
  read_next out (ok none, w) rest = (broken (pipeline_eof out), w)
  read_next out (ok (some resp), w) rest = rest (out ++ resp ∷ []) w

  -- One response for each operation
  unfoldable pub read_answers : Wire F V W → List Op → List (Response F V) → W → Pipelined F V × W
  unfolding pipeline_eof
  read_answers wire [] out w = (answered out, w)
  read_answers wire (op ∷ ops) out w =
      read_next out (wire.read_line w) (λ more after. read_answers wire ops more after)

  abbrev pub flushed : Wire F V W → List Op → Result (Unit {0}) × W → Pipelined F V × W
  flushed wire ops (err e, w) = (broken (PipelineError.fatal e), w)
  flushed wire ops (ok u, w) = read_answers wire ops [] w

  abbrev pub written : Wire F V W → List Op → Option PipelineError × W → Pipelined F V × W
  written wire ops (some e, w) = (broken e, w)
  written wire ops (none, w) = flushed wire ops (wire.flush w)

  unfoldable pub exchange_pipeline : Wire F V W → ℕ → List Op → W → Pipelined F V × W
  unfolding write_lines read_answers
  exchange_pipeline wire start_id ops w = written wire ops (write_lines wire start_id ops false w)

  abbrev pub exchanged : ℕ → Pipelined F V × W → Pipelined F V × AgentClient W
  exchanged next_id (answered resps, w) =
      (answered resps, record { next_id = next_id; session = true; wire = w })
  exchanged next_id (broken e, w) =
      (broken e, record { next_id = next_id; session = false; wire = w })

  abbrev pub opened :
      Wire F V W → ℕ → List Op → ℕ → Result (Unit {0}) × W → Pipelined F V × AgentClient W
  opened wire start_id ops next_id (err e, w) =
      (broken (PipelineError.retryable e), record { next_id = next_id; session = false; wire = w })
  opened wire start_id ops next_id (ok u, w) =
      exchanged next_id (exchange_pipeline wire start_id ops w)

  unfoldable pub pipeline_once :
      Wire F V W → ℕ → List Op → AgentClient W → Pipelined F V × AgentClient W
  unfolding exchange_pipeline
  pipeline_once wire start_id ops c =
      let live = exchanged c.next_id (exchange_pipeline wire start_id ops c.wire) in
      let fresh = opened wire start_id ops c.next_id (wire.open_session c.wire) in
      if c.session then live else fresh

  -- `self.session = None` and a pause
  abbrev pub paused : Wire F V W → AgentClient W → AgentClient W
  paused wire c = record c { session = false; wire = wire.sleep c.wire }

  abbrev pub pipeline_outcome :
      Wire F V W
      → Pipelined F V × AgentClient W
      → (Error → AgentClient W → Result (List (Response F V)) × AgentClient W)
      → Result (List (Response F V)) × AgentClient W
  pipeline_outcome wire (answered resps, c) again = (ok resps, c)
  pipeline_outcome wire (broken (PipelineError.fatal e), c) again = (err e, close_session c)
  pipeline_outcome wire (broken (PipelineError.retryable e), c) again = again e (paused wire c)

  -- The loop, with the number of tries that the deadline leaves and the last error.
  unfoldable pub pipeline_tries :
      Wire F V W
      → ℕ
      → List Op
      → ℕ
      → Error
      → AgentClient W
      → Result (List (Response F V)) × AgentClient W
  unfolding pipeline_once
  pipeline_tries wire start_id ops zero last_err c = (err (Error.connect_failed last_err), c)
  pipeline_tries wire start_id ops (suc left) last_err c =
      pipeline_outcome wire (pipeline_once wire start_id ops c)
        (λ e after. pipeline_tries wire start_id ops left e after)

  unfoldable pub pipeline_retry :
      Wire F V W → List Op → AgentClient W → Result (List (Response F V)) × AgentClient W
  unfolding pipeline_tries
  pipeline_retry wire ops c =
      pipeline_tries wire c.next_id ops (wire.tries c.wire) (Error.host_error "")
        (record c { next_id = c.next_id + length ops })

  -- One request and its answer; any error ends the session.
  abbrev pub answer_of :
      ℕ → Result (Option (Response F V)) × W → Result (Response F V) × AgentClient W
  answer_of next_id (err e, w) = (err e, record { next_id = next_id; session = false; wire = w })
  answer_of next_id (ok none, w) =
      (err closed, record { next_id = next_id; session = false; wire = w })
  answer_of next_id (ok (some resp), w) =
      (ok resp, record { next_id = next_id; session = true; wire = w })

  abbrev pub then_do :
      ℕ
      → Result (Unit {0}) × W
      → (W → Result (Response F V) × AgentClient W)
      → Result (Response F V) × AgentClient W
  then_do next_id (err e, w) rest = (err e, record { next_id = next_id; session = false; wire = w })
  then_do next_id (ok u, w) rest = rest w

  abbrev pub exchange_wire : Wire F V W → ℕ → ℕ → Op → W → Result (Response F V) × AgentClient W
  exchange_wire wire next_id id op w = then_do next_id (wire.send_line id op w) (λ sent.
      then_do next_id (wire.flush sent) (λ pushed. answer_of next_id (wire.read_line pushed)))

  -- The caller drops the session on any error, here too.
  unfoldable pub roundtrip_wire :
      Wire F V W → ℕ → Op → AgentClient W → Result (Response F V) × AgentClient W
  roundtrip_wire wire id op c =
      let begun = if c.session then wire.set_io_timeout op c.wire else wire.open_session c.wire in
      then_do c.next_id begun (λ w. exchange_wire wire c.next_id id op w)

  abbrev pub roundtrip_outcome :
      Wire F V W
      → Result (Response F V) × AgentClient W
      → (Error → AgentClient W → Result (Response F V) × AgentClient W)
      → Result (Response F V) × AgentClient W
  roundtrip_outcome wire (ok resp, c) again = (ok resp, c)
  roundtrip_outcome wire (err e, c) again = again e (paused wire c)

  unfoldable pub roundtrip_tries :
      Wire F V W → ℕ → Op → ℕ → Error → AgentClient W → Result (Response F V) × AgentClient W
  unfolding roundtrip_wire
  roundtrip_tries wire id op zero last_err c = (err (Error.connect_failed last_err), c)
  roundtrip_tries wire id op (suc left) last_err c =
      roundtrip_outcome wire (roundtrip_wire wire id op c)
        (λ e after. roundtrip_tries wire id op left e after)

  -- `rpc_op`, which is `roundtrip_retry`
  unfoldable pub rpc_op : Wire F V W → Op → AgentClient W → Result (Response F V) × AgentClient W
  unfolding roundtrip_tries
  rpc_op wire op c =
      roundtrip_tries wire c.next_id op (wire.tries c.wire) (Error.host_error "")
        (record c { next_id = c.next_id + 1 })

  -- One request on a fresh connection
  abbrev dropped : Result (Response F V) × AgentClient W → Result (Response F V) × AgentClient W
  dropped (ok resp, c) = (ok resp, close_session c)
  dropped (err e, c) = (err e, c)

  unfoldable pub rpc_once : Wire F V W → Op → AgentClient W → Result (Response F V) × AgentClient W
  unfolding rpc_op
  rpc_once wire op c = dropped (rpc_op wire op (close_session c))

  abbrev pub as_list :
      Result (Response F V) × AgentClient W → Result (List (Response F V)) × AgentClient W
  as_list (err e, c) = (err e, c)
  as_list (ok resp, c) = (ok (resp ∷ []), c)

  -- At most `max_mailbox_depth` operations
  unfoldable pub rpc_chunk :
      Wire F V W → List Op → AgentClient W → Result (List (Response F V)) × AgentClient W
  unfolding rpc_op pipeline_retry
  rpc_chunk wire [] c = (ok [], c)
  rpc_chunk wire (op ∷ []) c = as_list (rpc_op wire op c)
  rpc_chunk wire (op ∷ next ∷ ops) c = pipeline_retry wire (op ∷ next ∷ ops) c

  abbrev pub extended :
      List (Response F V)
      → Result (List (Response F V)) × AgentClient W
      → (List (Response F V) → AgentClient W → Result (List (Response F V)) × AgentClient W)
      → Result (List (Response F V)) × AgentClient W
  extended out (err e, c) rest = (err e, c)
  extended out (ok resps, c) rest = rest (out ++ resps) c

  -- The loop over the chunks
  unfoldable pub rpc_chunks :
      Wire F V W
      → List (List Op)
      → List (Response F V)
      → AgentClient W
      → Result (List (Response F V)) × AgentClient W
  unfolding rpc_chunk
  rpc_chunks wire [] out c = (ok out, c)
  rpc_chunks wire (chunk ∷ rest) out c =
      extended out (rpc_chunk wire chunk c) (λ more after. rpc_chunks wire rest more after)

  unfoldable pub rpc_pipeline :
      Wire F V W → List Op → AgentClient W → Result (List (Response F V)) × AgentClient W
  unfolding rpc_chunk rpc_chunks chunks
  rpc_pipeline wire ops c =
      let whole = rpc_chunk wire ops c in
      let parts = rpc_chunks wire (chunks ops) [] c in
      if leb (length ops) max_mailbox_depth then whole else parts
