-- ===== src/Client/Once.antt =====
-- A pipeline writes no line twice: the retries of client.rs.
use gpui_agent.Base.{
  ℕ, zero, suc, ◌+◌, ◌≡◌, refl, sym, ap, ◌∙◌, subst, Bool, true, false, Option, none, some, List,
  [], ◌∷◌, ◌++◌, append_assoc, append-nil, length, find, not, if-both,
}
use gpui_agent.Error.{Error, Result, ok, err}
use gpui_agent.Host.{Response}
use gpui_agent.Protocol.{Op}
use gpui_agent.Client.{
  Wire, AgentClient, Pipelined, answered, broken, PipelineError, read_next, read_answers, flushed,
  written, next_line, write_lines, exchange_pipeline, exchanged, opened, pipeline_once,
  pipeline_outcome, pipeline_tries, paused, pipeline_retry, pipeline_eof, failed_of,
}

abbrev pub Lines : Type 0
Lines = List (ℕ × Op)

-- The operations with their request ids
unfoldable pub numbered : ℕ → List Op → Lines
numbered id [] = []
numbered id (op ∷ ops) = (id, op) ∷ numbered (suc id) ops

-- `log` has been extended by a first part of `lines`.
abbrev pub Begun : Lines → Lines → Lines → Type 0
Begun log lines after =
    (begun : Lines) × (rest : Lines) × (begun ++ rest ≡ lines) × (after ≡ log ++ begun)

module _ {W : Type 0} where
  abbrev pub kept : {A : Type 0} → Lines → A × W → A × (W × Lines)
  kept log (r, w) = (r, (w, log))

  abbrev pub logged : Lines → ℕ → Op → Result (Unit {0}) × W → Result (Unit {0}) × (W × Lines)
  logged log id op (err e, w) = (err e, (w, log))
  logged log id op (ok u, w) = (ok u, (w, log ++ (id, op) ∷ []))

-- The same socket, which also lists the lines that have been written
abbrev pub journal : {F V W : Type 0} → Wire F V W → Wire F V (W × Lines)
journal wire = record {
  open_session = λ s. kept s.1 (wire.open_session s.0);
  set_io_timeout = λ op s. kept s.1 (wire.set_io_timeout op s.0);
  send_line = λ id op s. logged s.1 id op (wire.send_line id op s.0);
  flush = λ s. kept s.1 (wire.flush s.0);
  read_line = λ s. kept s.1 (wire.read_line s.0);
  sleep = λ s. (wire.sleep s.0, s.1);
  tries = λ s. wire.tries s.0;
}

module _ {F V : Type 0} where
  -- What has been written when one try ends
  abbrev Tried : Lines → Lines → Pipelined F V → Lines → Type 0
  Tried log lines (answered resps) after = after ≡ log ++ lines
  Tried log lines (broken (PipelineError.fatal e)) after = Begun log lines after
  Tried log lines (broken (PipelineError.retryable e)) after = after ≡ log

  abbrev pub Ended : Lines → Lines → Result (List (Response F V)) → Lines → Type 0
  Ended log lines (ok resps) after = after ≡ log ++ lines
  Ended log lines (err e) after = Begun log lines after

abbrev Written : Bool → Lines → Lines → Option PipelineError → Lines → Type 0
Written wrote log lines none after = after ≡ log ++ lines
Written wrote log lines (some (PipelineError.fatal e)) after = Begun log lines after
Written wrote log lines (some (PipelineError.retryable e)) after = (wrote ≡ false) × (after ≡ log)

true_retryable : {P : Type 0} → true ≡ false → P
true_retryable h = cc h

-- One more line before
Written-more :
    (wrote : Bool) (log : Lines) (line : ℕ × Op) (lines : Lines) (r : Option PipelineError)
    (after : Lines)
    → Written true (log ++ line ∷ []) lines r after
    → Written wrote log (line ∷ lines) r after
Written-more wrote log line lines none after h = h ∙ append_assoc log (line ∷ []) lines
Written-more wrote log line lines (some (PipelineError.fatal e)) after (begun, rest, same, h) =
    (line ∷ begun, rest, ap (λ q. line ∷ q) same, h ∙ append_assoc log (line ∷ []) begun)
Written-more wrote log line lines (some (PipelineError.retryable e)) after (h, g) = true_retryable h

module _ {W : Type 0} where
  next_line-Written :
      (wrote : Bool) (log : Lines) (id : ℕ) (op : Op) (lines : Lines) (sent : Result (Unit {0}) × W)
      (rest : W × Lines → Option PipelineError × (W × Lines))
      → ((w : W)
          → Written true
              (log ++ (id, op) ∷ [])
              lines
              (rest (w, log ++ (id, op) ∷ [])).0
              (rest (w, log ++ (id, op) ∷ [])).1.1)
      → Written wrote log
          ((id, op) ∷ lines)
          (next_line wrote (logged log id op sent) rest).0
          (next_line wrote (logged log id op sent) rest).1.1
  next_line-Written true log id op lines (err e, w) rest h =
      ([], (id, op) ∷ lines, refl, sym (append-nil log))
  next_line-Written false log id op lines (err e, w) rest h = (refl, refl)
  next_line-Written wrote log id op lines (ok u, w) rest h =
      Written-more wrote log (id, op) lines _ _ (h w)

module _ {F V W : Type 0} (wire : Wire F V W) where
  write_lines-Written :
      (ops : List Op) (id : ℕ) (wrote : Bool) (s : W × Lines)
      → Written wrote s.1
          (numbered id ops)
          (write_lines (journal wire) id ops wrote s).0
          (write_lines (journal wire) id ops wrote s).1.1
  unfolding write_lines numbered
  write_lines-Written [] id wrote s = sym (append-nil s.1)
  write_lines-Written (op ∷ ops) id wrote s =
      next_line-Written wrote s.1 id op (numbered (suc id) ops) (wire.send_line id op s.0)
        (λ after. write_lines (journal wire) (suc id) ops true after)
        (λ w. write_lines-Written ops (suc id) true (w, s.1 ++ (id, op) ∷ []))

  failed_of-Tried :
      (log lines : Lines) (found : Option (Response F V))
      → Tried {F = F} {V = V} log lines (broken (failed_of found)) (log ++ lines)
  failed_of-Tried log lines none = (lines, [], append-nil lines, refl)
  failed_of-Tried log lines (some resp) = (lines, [], append-nil lines, refl)

  read_next-Tried :
      (log lines : Lines) (out : List (Response F V)) (line : Result (Option (Response F V)) × W)
      (rest : List (Response F V) → W × Lines → Pipelined F V × (W × Lines))
      → ((resp : Response F V) (w : W)
          → Tried log lines
              (rest (out ++ resp ∷ []) (w, log ++ lines)).0
              (rest (out ++ resp ∷ []) (w, log ++ lines)).1.1)
      → Tried log lines
          (read_next out (kept (log ++ lines) line) rest).0
          (read_next out (kept (log ++ lines) line) rest).1.1
  unfolding pipeline_eof
  read_next-Tried log lines out (err e, w) rest h = (lines, [], append-nil lines, refl)
  read_next-Tried log lines out (ok none, w) rest h =
      failed_of-Tried log lines (find (λ resp. not resp.ok) out)
  read_next-Tried log lines out (ok (some resp), w) rest h = h resp w

  read_answers-Tried :
      (ops : List Op) (out : List (Response F V)) (log lines : Lines) (w : W)
      → Tried log lines
          (read_answers (journal wire) ops out (w, log ++ lines)).0
          (read_answers (journal wire) ops out (w, log ++ lines)).1.1
  unfolding read_answers
  read_answers-Tried [] out log lines w = refl
  read_answers-Tried (op ∷ ops) out log lines w =
      read_next-Tried log lines out (wire.read_line w)
        (λ more after. read_answers (journal wire) ops more after)
        (λ resp after. read_answers-Tried ops (out ++ resp ∷ []) log lines after)

  flushed-Tried :
      (ops : List Op) (log lines : Lines) (pushed : Result (Unit {0}) × W)
      → Tried log lines
          (flushed (journal wire) ops (kept (log ++ lines) pushed)).0
          (flushed (journal wire) ops (kept (log ++ lines) pushed)).1.1
  flushed-Tried ops log lines (err e, w) = (lines, [], append-nil lines, refl)
  flushed-Tried ops log lines (ok u, w) = read_answers-Tried ops [] log lines w

  written-Tried :
      (ops : List Op) (log lines : Lines) (failure : Option PipelineError) (w : W) (after : Lines)
      → Written false log lines failure after
      → Tried log lines
          (written (journal wire) ops (failure, (w, after))).0
          (written (journal wire) ops (failure, (w, after))).1.1
  written-Tried ops log lines (some (PipelineError.fatal e)) w after h = h
  written-Tried ops log lines (some (PipelineError.retryable e)) w after h = h.1
  written-Tried ops log lines none w after h =
      subst
        (λ q.
          Tried log lines (written (journal wire) ops (none, (w, q))).0
            (written (journal wire) ops (none, (w, q))).1.1)
        (sym h) (flushed-Tried ops log lines (wire.flush w))

  exchange-Tried :
      (id : ℕ) (ops : List Op) (s : W × Lines)
      → Tried s.1
          (numbered id ops)
          (exchange_pipeline (journal wire) id ops s).0
          (exchange_pipeline (journal wire) id ops s).1.1
  unfolding exchange_pipeline
  exchange-Tried id ops s =
      let lines = write_lines (journal wire) id ops false s in
      written-Tried ops s.1 (numbered id ops) lines.0 lines.1.0 lines.1.1
        (write_lines-Written ops id false s)

  exchanged-Tried :
      (next : ℕ) (log lines : Lines) (p : Pipelined F V × (W × Lines))
      → Tried log lines p.0 p.1.1
      → Tried log lines (exchanged next p).0 (exchanged next p).1.wire.1
  exchanged-Tried next log lines (answered resps, s) h = h
  exchanged-Tried next log lines (broken e, s) h = h

  opened-Tried :
      (id next : ℕ) (ops : List Op) (log : Lines) (begun : Result (Unit {0}) × W)
      → Tried log
          (numbered id ops)
          (opened (journal wire) id ops next (kept log begun)).0
          (opened (journal wire) id ops next (kept log begun)).1.wire.1
  unfolding exchange_pipeline
  opened-Tried id next ops log (err e, w) = refl
  opened-Tried id next ops log (ok u, w) =
      exchanged-Tried next log (numbered id ops) (exchange_pipeline (journal wire) id ops (w, log))
        (exchange-Tried id ops (w, log))

  once-Tried :
      (id : ℕ) (ops : List Op) (c : AgentClient (W × Lines))
      → Tried c.wire.1
          (numbered id ops)
          (pipeline_once (journal wire) id ops c).0
          (pipeline_once (journal wire) id ops c).1.wire.1
  unfolding pipeline_once exchange_pipeline
  once-Tried id ops c =
      if-both {A = Pipelined F V × AgentClient (W × Lines)}
        (λ r. Tried c.wire.1 (numbered id ops) r.0 r.1.wire.1) c.session
        (exchanged-Tried c.next_id c.wire.1 (numbered id ops)
          (exchange_pipeline (journal wire) id ops c.wire) (exchange-Tried id ops c.wire))
        (opened-Tried id c.next_id ops c.wire.1 (wire.open_session c.wire.0))

  outcome-Ended :
      (log lines : Lines) (p : Pipelined F V × AgentClient (W × Lines))
      (again : Error
        → AgentClient (W × Lines)
        → Result (List (Response F V)) × AgentClient (W × Lines))
      → Tried log lines p.0 p.1.wire.1
      → ((e : Error) (c : AgentClient (W × Lines))
          → c.wire.1 ≡ log
          → Ended log lines (again e c).0 (again e c).1.wire.1)
      → Ended log lines
          (pipeline_outcome (journal wire) p again).0
          (pipeline_outcome (journal wire) p again).1.wire.1
  outcome-Ended log lines (answered resps, c) again h k = h
  outcome-Ended log lines (broken (PipelineError.fatal e), c) again h k = h
  outcome-Ended log lines (broken (PipelineError.retryable e), c) again h k =
      k e (paused (journal wire) c) h

  tries-Ended :
      (left id : ℕ) (ops : List Op) (last : Error) (log : Lines) (c : AgentClient (W × Lines))
      → c.wire.1 ≡ log
      → Ended log
          (numbered id ops)
          (pipeline_tries (journal wire) id ops left last c).0
          (pipeline_tries (journal wire) id ops left last c).1.wire.1
  unfolding pipeline_tries
  tries-Ended zero id ops last log c h = ([], numbered id ops, refl, h ∙ sym (append-nil log))
  tries-Ended (suc left) id ops last log c h =
      outcome-Ended log (numbered id ops) (pipeline_once (journal wire) id ops c) _
        (subst
          (λ q.
            Tried q (numbered id ops) (pipeline_once (journal wire) id ops c).0
              (pipeline_once (journal wire) id ops c).1.wire.1)
          h (once-Tried id ops c))
        (λ e after same. tries-Ended left id ops e log after same)

  -- However often a pipeline is tried, the lines that it writes are a first part of its operations in
  -- their order, each under its own request id and none twice; they are all of them when it succeeds.
  pub pipeline_retry-Ended :
      (ops : List Op) (c : AgentClient (W × Lines))
      → Ended c.wire.1
          (numbered c.next_id ops)
          (pipeline_retry (journal wire) ops c).0
          (pipeline_retry (journal wire) ops c).1.wire.1
  unfolding pipeline_retry
  pipeline_retry-Ended ops c =
      tries-Ended (wire.tries c.wire.0) c.next_id ops (Error.host_error "") c.wire.1
        (record c { next_id = c.next_id + length ops }) refl
