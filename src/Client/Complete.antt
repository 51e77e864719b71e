-- ===== src/Client/Complete.antt =====
-- A pipeline answers every operation: client.rs.
use gpui_agent.Base.{
  ℕ, zero, suc, ◌+◌, ◌-◌, ◌≡◌, refl, subst, false, Option, none, some, List, [], ◌∷◌, ◌++◌, arith,
  length, length-append, leb, if-both,
}
use native.Mathlib.Nat.{zero-add}
use gpui_agent.Error.{Error, Result, ok, err}
use gpui_agent.Host.{Response}
use gpui_agent.Mailbox.{max_mailbox_depth}
use gpui_agent.Protocol.{Op}
use gpui_agent.Client.{
  Wire, AgentClient, Pipelined, answered, broken, PipelineError, read_next, read_answers, flushed,
  written, write_lines, exchange_pipeline, exchanged, opened, pipeline_once, pipeline_outcome,
  pipeline_tries, paused, pipeline_retry, rpc_op, as_list, rpc_chunk, extended, rpc_chunks,
  chunks_from, chunks, rpc_pipeline,
}

module _ {F V : Type 0} where
  abbrev Answers : ℕ → Pipelined F V → Type 0
  Answers n (answered resps) = length resps ≡ n
  Answers n (broken e) = Unit

  abbrev pub IsComplete : ℕ → Result (List (Response F V)) → Type 0
  IsComplete n (ok resps) = length resps ≡ n
  IsComplete n (err e) = Unit

total : List (List Op) → ℕ
total [] = 0
total (ops ∷ rest) = length ops + total rest

total-chunks_from :
    (room : ℕ) (chunk ops : List Op)
    → total (chunks_from room chunk ops) ≡ length chunk + length ops
unfolding total chunks_from
total-chunks_from room chunk [] = omega arith
total-chunks_from zero chunk (op ∷ ops) =
    omega (arith, total-chunks_from (max_mailbox_depth - 1) (op ∷ []) ops)
total-chunks_from (suc room) chunk (op ∷ ops) =
    omega (arith, total-chunks_from room (chunk ++ op ∷ []) ops, length-append chunk (op ∷ []))

total-chunks : (ops : List Op) → total (chunks ops) ≡ length ops
unfolding total chunks
total-chunks [] = refl
total-chunks (op ∷ ops) = omega (arith, total-chunks_from (max_mailbox_depth - 1) (op ∷ []) ops)

module _ {F V W : Type 0} (wire : Wire F V W) where
  read_next-Answers :
      (n : ℕ) (out : List (Response F V)) (line : Result (Option (Response F V)) × W)
      (rest : List (Response F V) → W → Pipelined F V × W)
      → ((resp : Response F V) (w : W) → Answers n (rest (out ++ resp ∷ []) w).0)
      → Answers n (read_next out line rest).0
  read_next-Answers n out (err e, w) rest h = tt
  read_next-Answers n out (ok none, w) rest h = tt
  read_next-Answers n out (ok (some resp), w) rest h = h resp w

  read_answers-Answers :
      (ops : List Op) (out : List (Response F V)) (w : W)
      → Answers (length out + length ops) (read_answers wire ops out w).0
  unfolding read_answers
  read_answers-Answers [] out w = omega arith
  read_answers-Answers (op ∷ ops) out w =
      read_next-Answers _ out (wire.read_line w) (λ more after. read_answers wire ops more after)
        (λ resp after.
          let more = out ++ resp ∷ [] in
          let sum : length more + length ops ≡ length out + suc (length ops) =
            omega (arith, length-append out (resp ∷ [])) in
          subst (λ n. Answers n (read_answers wire ops more after).0) sum
            (read_answers-Answers ops more after))

  flushed-Answers :
      (ops : List Op) (pushed : Result (Unit {0}) × W)
      → Answers (length ops) (flushed wire ops pushed).0
  flushed-Answers ops (err e, w) = tt
  flushed-Answers ops (ok u, w) =
      subst (λ n. Answers n (read_answers wire ops [] w).0) (zero-add (length ops))
        (read_answers-Answers ops [] w)

  written-Answers :
      (ops : List Op) (lines : Option PipelineError × W)
      → Answers (length ops) (written wire ops lines).0
  written-Answers ops (some e, w) = tt
  written-Answers ops (none, w) = flushed-Answers ops (wire.flush w)

  exchanged-Answers :
      (n id : ℕ) (p : Pipelined F V × W) → Answers n p.0 → Answers n (exchanged id p).0
  exchanged-Answers n id (answered resps, w) h = h
  exchanged-Answers n id (broken e, w) h = tt

  opened-Answers :
      (id next : ℕ) (ops : List Op) (begun : Result (Unit {0}) × W)
      → Answers (length ops) (opened wire id ops next begun).0
  unfolding exchange_pipeline
  opened-Answers id next ops (err e, w) = tt
  opened-Answers id next ops (ok u, w) =
      exchanged-Answers (length ops) next (exchange_pipeline wire id ops w)
        (written-Answers ops (write_lines wire id ops false w))

  once-Answers :
      (id : ℕ) (ops : List Op) (c : AgentClient W)
      → Answers (length ops) (pipeline_once wire id ops c).0
  unfolding pipeline_once exchange_pipeline
  once-Answers id ops c =
      if-both {A = Pipelined F V × AgentClient W} (λ r. Answers (length ops) r.0) c.session
        (exchanged-Answers (length ops) c.next_id (exchange_pipeline wire id ops c.wire)
          (written-Answers ops (write_lines wire id ops false c.wire)))
        (opened-Answers id c.next_id ops (wire.open_session c.wire))

  outcome-IsComplete :
      (n : ℕ) (p : Pipelined F V × AgentClient W)
      (again : Error → AgentClient W → Result (List (Response F V)) × AgentClient W)
      → Answers n p.0
      → ((e : Error) (c : AgentClient W) → IsComplete n (again e c).0)
      → IsComplete n (pipeline_outcome wire p again).0
  outcome-IsComplete n (answered resps, c) again h k = h
  outcome-IsComplete n (broken (PipelineError.fatal e), c) again h k = tt
  outcome-IsComplete n (broken (PipelineError.retryable e), c) again h k = k e (paused wire c)

  listed-IsComplete :
      (answer : Result (Response F V) × AgentClient W) → IsComplete 1 (as_list answer).0
  listed-IsComplete (ok resp, c) = refl
  listed-IsComplete (err e, c) = tt

  extended-IsComplete :
      (n m : ℕ) (out : List (Response F V)) (r : Result (List (Response F V)) × AgentClient W)
      (rest : List (Response F V) → AgentClient W → Result (List (Response F V)) × AgentClient W)
      → IsComplete m r.0
      → ((resps : List (Response F V)) (c : AgentClient W)
          → length resps ≡ m
          → IsComplete n (rest (out ++ resps) c).0)
      → IsComplete n (extended out r rest).0
  extended-IsComplete n m out (ok resps, c) rest h k = k resps c h
  extended-IsComplete n m out (err e, c) rest h k = tt

  tries-IsComplete :
      (left id : ℕ) (ops : List Op) (last : Error) (c : AgentClient W)
      → IsComplete (length ops) (pipeline_tries wire id ops left last c).0
  unfolding pipeline_tries
  tries-IsComplete zero id ops last c = tt
  tries-IsComplete (suc left) id ops last c =
      outcome-IsComplete (length ops) (pipeline_once wire id ops c) _ (once-Answers id ops c)
        (λ e after. tries-IsComplete left id ops e after)

  chunk-IsComplete :
      (ops : List Op) (c : AgentClient W) → IsComplete (length ops) (rpc_chunk wire ops c).0
  unfolding rpc_chunk pipeline_retry
  chunk-IsComplete [] c = refl
  chunk-IsComplete (op ∷ []) c = listed-IsComplete (rpc_op wire op c)
  chunk-IsComplete (op ∷ next ∷ ops) c =
      tries-IsComplete (wire.tries c.wire) c.next_id (op ∷ next ∷ ops) (Error.host_error "")
        (record c { next_id = c.next_id + length (op ∷ next ∷ ops) })

  rpc_chunks-IsComplete :
      (parts : List (List Op)) (out : List (Response F V)) (c : AgentClient W)
      → IsComplete (length out + total parts) (rpc_chunks wire parts out c).0
  unfolding rpc_chunks total
  rpc_chunks-IsComplete [] out c = omega arith
  rpc_chunks-IsComplete (ops ∷ rest) out c =
      extended-IsComplete (length out + (length ops + total rest)) (length ops) out
        (rpc_chunk wire ops c) (λ more after. rpc_chunks wire rest more after)
        (chunk-IsComplete ops c)
        (λ resps after same.
          let sum : length (out ++ resps) + total rest ≡ length out + (length ops + total rest) =
            omega (arith, length-append out resps, same) in
          subst (λ n. IsComplete n (rpc_chunks wire rest (out ++ resps) after).0) sum
            (rpc_chunks-IsComplete rest (out ++ resps) after))

  -- When `rpc_pipeline` succeeds, it answers each of the operations, however many there are.
  pub rpc_pipeline-IsComplete :
      (ops : List Op) (c : AgentClient W) → IsComplete (length ops) (rpc_pipeline wire ops c).0
  unfolding rpc_pipeline
  rpc_pipeline-IsComplete ops c =
      if-both {A = Result (List (Response F V)) × AgentClient W} (λ r. IsComplete (length ops) r.0)
        (leb (length ops) max_mailbox_depth) (chunk-IsComplete ops c)
        (subst (λ n. IsComplete n (rpc_chunks wire (chunks ops) [] c).0) (total-chunks ops)
          (subst (λ n. IsComplete n (rpc_chunks wire (chunks ops) [] c).0)
            (zero-add (total (chunks ops))) (rpc_chunks-IsComplete (chunks ops) [] c)))
