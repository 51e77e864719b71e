-- ===== src/Client/Answered.antt =====
-- Which answer goes to which operation: client.rs, over a server that answers the lines of a session
-- in their order. Whole is about `rpc_pipeline`.
pub mod Whole
use gpui_agent.Base.{
  ℕ, zero, suc, ◌+◌, ◌≤◌, ◌-◌, ◌≡◌, refl, sym, ap, ◌∙◌, subst, Bool, true, false, Bool-cases, inl,
  inr, Option, none, some, List, [], ◌∷◌, ◌++◌, map, append_assoc, append-nil, arith, length, leb,
  if-both,
}
use gpui_agent.Error.{Error, Result, ok, err, is_ok}
use gpui_agent.Host.{Response}
use gpui_agent.Mailbox.{max_mailbox_depth}
use gpui_agent.Protocol.{Op}
use gpui_agent.Client.{
  Wire, AgentClient, Pipelined, answered, broken, PipelineError, read_next, read_answers, flushed,
  written, next_line, write_lines, exchange_pipeline, exchanged, opened, pipeline_once,
  pipeline_outcome, pipeline_tries, paused, pipeline_retry, answer_of, then_do, exchange_wire,
  roundtrip_wire, roundtrip_outcome, roundtrip_tries, rpc_op, as_list, rpc_chunk, extended,
  rpc_chunks, chunks_from, chunks, rpc_pipeline,
}
use gpui_agent.Client.Once.{Lines, numbered, kept, logged}

-- Is it a response?
abbrev pub is_line : {F V : Type 0} → Result (Option (Response F V)) → Bool
is_line (ok (some r)) = true
is_line _ = false

-- A socket that never fails, with a clock that leaves time for one try at least.
pub record Reliable {F V W : Type 0} (wire : Wire F V W) : Type 0 where
  pub opens : (w : W) → is_ok (wire.open_session w).0 ≡ true
  pub sets : (op : Op) (w : W) → is_ok (wire.set_io_timeout op w).0 ≡ true
  pub sends : (id : ℕ) (op : Op) (w : W) → is_ok (wire.send_line id op w).0 ≡ true
  pub flushes : (w : W) → is_ok (wire.flush w).0 ≡ true
  pub reads : (w : W) → is_line (wire.read_line w).0 ≡ true
  pub tried : (w : W) → 1 ≤ wire.tries w

module _ {F V : Type 0} (respond : ℕ → Op → Response F V) where
  -- The server reads one line after the other: it answers the first line of the session that it has
  -- not answered yet, and it is silent when there is none.
  abbrev pub heard :
      {W : Type 0}
      → Lines
      → Result (Option (Response F V)) × W
      → Result (Option (Response F V)) × (W × Lines)
  heard pending (err e, w) = (err e, (w, pending))
  heard pending (ok none, w) = (ok none, (w, pending))
  heard [] (ok (some r), w) = (ok none, (w, []))
  heard ((id, op) ∷ pending) (ok (some r), w) = (ok (some (respond id op)), (w, pending))

  -- A socket to that server, with the lines that wait for an answer; `wire` decides what fails.
  abbrev pub serving : {W : Type 0} → Wire F V W → Wire F V (W × Lines)
  serving wire = record {
    open_session = λ s. kept [] (wire.open_session s.0);
    set_io_timeout = λ op s. kept s.1 (wire.set_io_timeout op s.0);
    send_line = λ id op s. logged s.1 id op (wire.send_line id op s.0);
    flush = λ s. kept s.1 (wire.flush s.0);
    read_line = λ s. heard s.1 (wire.read_line s.0);
    sleep = λ s. (wire.sleep s.0, s.1);
    tries = λ s. wire.tries s.0;
  }

  abbrev pub reply : ℕ × Op → Response F V
  reply (id, op) = respond id op

  -- The answer to each of the operations, in their order, under its own request id
  abbrev pub replies : ℕ → List Op → List (Response F V)
  replies id ops = map reply (numbered id ops)

-- A live session has no answer outstanding.
abbrev pub IsIdle : {W : Type 0} → AgentClient (W × Lines) → Type 0
IsIdle c = c.session ≡ true → c.wire.1 ≡ []

module _ {F V : Type 0} where
  abbrev pub Given : Type 0 → List (Response F V) → Pipelined F V → Lines → Type 0
  Given R expected (answered resps) pending = (resps ≡ expected) × (pending ≡ [])
  Given R expected (broken e) pending = ¬ R

  module _ {W : Type 0} where
    abbrev pub Tried :
        Type 0 → List (Response F V) → ℕ → Pipelined F V → AgentClient (W × Lines) → Type 0
    Tried R expected next (answered resps) c =
        (resps ≡ expected) × (c.wire.1 ≡ []) × (c.next_id ≡ next)
    Tried R expected next (broken e) c = (¬ R) × (c.next_id ≡ next)

    -- On success the answers are the expected ones, none is outstanding in a live session, and `next`
    -- is the id that follows. Where `R` holds there is no failure.
    abbrev pub IsAnswered :
        Type 0
        → List (Response F V)
        → ℕ
        → Result (List (Response F V))
        → AgentClient (W × Lines)
        → Type 0
    IsAnswered R expected next (ok resps) c = (resps ≡ expected) × IsIdle c × (c.next_id ≡ next)
    IsAnswered R expected next (err e) c = ¬ R

    abbrev pub Single :
        Type 0 → Response F V → ℕ → Result (Response F V) → AgentClient (W × Lines) → Type 0
    Single R expected next (ok resp) c = (resp ≡ expected) × (c.wire.1 ≡ []) × (c.next_id ≡ next)
    Single R expected next (err e) c = (¬ R) × (c.next_id ≡ next)

-- What is left unanswered when all lines are written
abbrev pub Sent : Type 0 → Lines → Option PipelineError → Lines → Type 0
Sent R lines none pending = pending ≡ lines
Sent R lines (some e) pending = ¬ R

Sent-more :
    (R : Type 0) (before : Lines) (line : ℕ × Op) (lines : Lines) (r : Option PipelineError)
    (pending : Lines)
    → Sent R ((before ++ line ∷ []) ++ lines) r pending
    → Sent R (before ++ line ∷ lines) r pending
Sent-more R before line lines none pending h = h ∙ append_assoc before (line ∷ []) lines
Sent-more R before line lines (some e) pending h = h

next_line-Sent :
    {W : Type 0} (R : Type 0) (wrote : Bool) (before : Lines) (id : ℕ) (op : Op) (lines : Lines)
    (sent : Result (Unit {0}) × W) (rest : W × Lines → Option PipelineError × (W × Lines))
    → (R → is_ok sent.0 ≡ true)
    → ((w : W)
        → Sent R
            ((before ++ (id, op) ∷ []) ++ lines)
            (rest (w, before ++ (id, op) ∷ [])).0
            (rest (w, before ++ (id, op) ∷ [])).1.1)
    → Sent R
        (before ++ (id, op) ∷ lines)
        (next_line wrote (logged before id op sent) rest).0
        (next_line wrote (logged before id op sent) rest).1.1
next_line-Sent R wrote before id op lines (err e, w) rest sure h = λ rel. cc (sure rel)
next_line-Sent R wrote before id op lines (ok u, w) rest sure h =
    Sent-more R before (id, op) lines _ _ (h w)

module _ {F V W : Type 0} (respond : ℕ → Op → Response F V) (wire : Wire F V W) where
  abbrev served : Wire F V (W × Lines)
  served = serving respond wire

  write_lines-Sent :
      (ops : List Op) (id : ℕ) (wrote : Bool) (s : W × Lines)
      → Sent
          (Reliable wire)
          (s.1 ++ numbered id ops)
          (write_lines served id ops wrote s).0
          (write_lines served id ops wrote s).1.1
  unfolding write_lines numbered
  write_lines-Sent [] id wrote s = sym (append-nil s.1)
  write_lines-Sent (op ∷ ops) id wrote s =
      next_line-Sent (Reliable wire) wrote s.1 id op (numbered (suc id) ops)
        (wire.send_line id op s.0) (λ after. write_lines served (suc id) ops true after)
        (λ rel. rel.sends id op s.0)
        (λ w. write_lines-Sent ops (suc id) true (w, s.1 ++ (id, op) ∷ []))

  read_next-Given :
      (expected out : List (Response F V)) (id : ℕ) (op : Op) (pending : Lines)
      (line : Result (Option (Response F V)) × W)
      (rest : List (Response F V) → W × Lines → Pipelined F V × (W × Lines))
      → (Reliable wire → is_line line.0 ≡ true)
      → ((w : W)
          → Given
              (Reliable wire)
              expected
              (rest (out ++ respond id op ∷ []) (w, pending)).0
              (rest (out ++ respond id op ∷ []) (w, pending)).1.1)
      → Given
          (Reliable wire)
          expected
          (read_next out (heard respond ((id, op) ∷ pending) line) rest).0
          (read_next out (heard respond ((id, op) ∷ pending) line) rest).1.1
  read_next-Given expected out id op pending (err e, w) rest sure h = λ rel. cc (sure rel)
  read_next-Given expected out id op pending (ok none, w) rest sure h = λ rel. cc (sure rel)
  read_next-Given expected out id op pending (ok (some r), w) rest sure h = h w

  read_answers-Given :
      (ops : List Op) (out : List (Response F V)) (id : ℕ) (w : W)
      → Given
          (Reliable wire)
          (out ++ replies respond id ops)
          (read_answers served ops out (w, numbered id ops)).0
          (read_answers served ops out (w, numbered id ops)).1.1
  unfolding read_answers numbered
  read_answers-Given [] out id w = (sym (append-nil out), refl)
  read_answers-Given (op ∷ ops) out id w =
      read_next-Given (out ++ respond id op ∷ replies respond (suc id) ops) out id op
        (numbered (suc id) ops) (wire.read_line w)
        (λ more after. read_answers served ops more after) (λ rel. rel.reads w)
        (λ after.
          let more = out ++ respond id op ∷ [] in
          let r = read_answers served ops more (after, numbered (suc id) ops) in
          subst (λ q. Given (Reliable wire) q r.0 r.1.1)
            (append_assoc out (respond id op ∷ []) (replies respond (suc id) ops))
            (read_answers-Given ops more (suc id) after))

  flushed-Given :
      (ops : List Op) (id : ℕ) (pushed : Result (Unit {0}) × W)
      → (Reliable wire → is_ok pushed.0 ≡ true)
      → Given
          (Reliable wire)
          (replies respond id ops)
          (flushed served ops (kept (numbered id ops) pushed)).0
          (flushed served ops (kept (numbered id ops) pushed)).1.1
  flushed-Given ops id (err e, w) sure = λ rel. cc (sure rel)
  flushed-Given ops id (ok u, w) sure = read_answers-Given ops [] id w

  written-Given :
      (ops : List Op) (id : ℕ) (failure : Option PipelineError) (w : W) (pending : Lines)
      → Sent (Reliable wire) (numbered id ops) failure pending
      → Given
          (Reliable wire)
          (replies respond id ops)
          (written served ops (failure, (w, pending))).0
          (written served ops (failure, (w, pending))).1.1
  written-Given ops id (some e) w pending h = h
  written-Given ops id none w pending h =
      subst
        (λ q.
          Given (Reliable wire) (replies respond id ops) (written served ops (none, (w, q))).0
            (written served ops (none, (w, q))).1.1)
        (sym h) (flushed-Given ops id (wire.flush w) (λ rel. rel.flushes w))

  exchange-Given :
      (id : ℕ) (ops : List Op) (s : W × Lines)
      → s.1 ≡ []
      → Given
          (Reliable wire)
          (replies respond id ops)
          (exchange_pipeline served id ops s).0
          (exchange_pipeline served id ops s).1.1
  unfolding exchange_pipeline
  exchange-Given id ops s idle =
      let lines = write_lines served id ops false s in
      written-Given ops id lines.0 lines.1.0 lines.1.1 (
        subst (λ q. Sent (Reliable wire) (q ++ numbered id ops) lines.0 lines.1.1) idle
          (write_lines-Sent ops id false s))

  exchanged-Tried :
      (next : ℕ) (expected : List (Response F V)) (p : Pipelined F V × (W × Lines))
      → Given (Reliable wire) expected p.0 p.1.1
      → Tried (Reliable wire) expected next (exchanged next p).0 (exchanged next p).1
  exchanged-Tried next expected (answered resps, s) h = (h.0, h.1, refl)
  exchanged-Tried next expected (broken e, s) h = (h, refl)

  opened-Tried :
      (id next : ℕ) (ops : List Op) (begun : Result (Unit {0}) × W)
      → (Reliable wire → is_ok begun.0 ≡ true)
      → Tried
          (Reliable wire)
          (replies respond id ops)
          next
          (opened served id ops next (kept [] begun)).0
          (opened served id ops next (kept [] begun)).1
  unfolding exchange_pipeline
  opened-Tried id next ops (err e, w) sure = (λ rel. cc (sure rel), refl)
  opened-Tried id next ops (ok u, w) sure =
      exchanged-Tried next (replies respond id ops) (exchange_pipeline served id ops (w, []))
        (exchange-Given id ops (w, []) refl)

  once-Tried :
      (id : ℕ) (ops : List Op) (c : AgentClient (W × Lines))
      → IsIdle c
      → Tried
          (Reliable wire)
          (replies respond id ops)
          c.next_id
          (pipeline_once served id ops c).0
          (pipeline_once served id ops c).1
  unfolding pipeline_once exchange_pipeline
  once-Tried id ops c idle = elim (Bool-cases c.session) [
    | inl live ↦ rw live (
        exchanged-Tried c.next_id (replies respond id ops) (exchange_pipeline served id ops c.wire)
          (exchange-Given id ops c.wire (idle live)))
    | inr dead ↦
        rw dead
          (opened-Tried id c.next_id ops (wire.open_session c.wire.0) (λ rel. rel.opens c.wire.0))
  ]

  Tried-IsAnswered :
      (expected : List (Response F V)) (next : ℕ) (p : Pipelined F V × AgentClient (W × Lines))
      (again : Error
        → AgentClient (W × Lines)
        → Result (List (Response F V)) × AgentClient (W × Lines))
      → Tried (Reliable wire) expected next p.0 p.1
      → ((e : Error) (c : AgentClient (W × Lines))
          → ¬ Reliable wire
          → c.session ≡ false
          → c.next_id ≡ next
          → IsAnswered (Reliable wire) expected next (again e c).0 (again e c).1)
      → IsAnswered
          (Reliable wire)
          expected
          next
          (pipeline_outcome served p again).0
          (pipeline_outcome served p again).1
  Tried-IsAnswered expected next (answered resps, c) again h k = (h.0, λ live. h.1, h.2)
  Tried-IsAnswered expected next (broken (PipelineError.fatal e), c) again h k = h.0
  Tried-IsAnswered expected next (broken (PipelineError.retryable e), c) again h k =
      k e (paused served c) h.0 refl h.1

  pub tries-IsAnswered :
      (left id : ℕ) (ops : List Op) (last : Error) (next : ℕ) (c : AgentClient (W × Lines))
      → IsIdle c
      → c.next_id ≡ next
      → (Reliable wire → 1 ≤ left)
      → IsAnswered
          (Reliable wire)
          (replies respond id ops)
          next
          (pipeline_tries served id ops left last c).0
          (pipeline_tries served id ops left last c).1
  unfolding pipeline_tries
  tries-IsAnswered zero id ops last next c idle at sure = λ rel. absurd (omega (arith, sure rel))
  tries-IsAnswered (suc left) id ops last next c idle at sure =
      Tried-IsAnswered (replies respond id ops) next (pipeline_once served id ops c) _
        (subst
          (λ q.
            Tried (Reliable wire) (replies respond id ops) q (pipeline_once served id ops c).0
              (pipeline_once served id ops c).1)
          at (once-Tried id ops c idle))
        (λ e after broke dead same.
          tries-IsAnswered left id ops e next after (λ live. cc (dead, live)) same
            (λ rel. absurd (broke rel)))
