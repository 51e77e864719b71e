-- ===== src/Client/Answered/Whole.antt =====
-- `rpc_op` and `rpc_pipeline` of client.rs over a server that answers the lines of a session in order.
use gpui_agent.Base.{
  ℕ, zero, suc, ◌+◌, ◌≤◌, true, ◌-◌, ◌≡◌, refl, sym, ap, ◌∙◌, subst, false, Bool-cases, inl, inr,
  Option, none, some, List, [], ◌∷◌, ◌++◌, map, append_assoc, append-nil, arith, length,
  length-append, leb, if-both,
}
use mathlib.Core.List.{map-append}
use gpui_agent.Error.{Error, Result, ok, err, is_ok}
use gpui_agent.Host.{Response}
use gpui_agent.Mailbox.{max_mailbox_depth}
use gpui_agent.Protocol.{Op}
use gpui_agent.Client.{
  Wire, AgentClient, paused, pipeline_retry, answer_of, then_do, exchange_wire, roundtrip_wire,
  roundtrip_outcome, roundtrip_tries, rpc_op, as_list, rpc_chunk, extended, rpc_chunks, chunks_from,
  chunks, rpc_pipeline,
}
use gpui_agent.Client.Once.{Lines, numbered, kept, logged}
use gpui_agent.Client.Answered.{
  heard, serving, reply, replies, IsIdle, IsAnswered, Reliable, is_line, Single, tries-IsAnswered,
}

numbered-append :
    (id : ℕ) (xs ys : List Op)
    → numbered id (xs ++ ys) ≡ numbered id xs ++ numbered (id + length xs) ys
unfolding numbered
numbered-append id [] ys = ap (λ k. numbered k ys) (omega arith)
numbered-append id (x ∷ xs) ys =
    ap (◌∷◌ (id, x)) (
      numbered-append (suc id) xs ys
      ∙ ap (λ k. numbered (suc id) xs ++ numbered k ys) (omega arith))

joined : List (List Op) → List Op
joined [] = []
joined (ops ∷ rest) = ops ++ joined rest

joined-chunks_from :
    (room : ℕ) (chunk ops : List Op) → joined (chunks_from room chunk ops) ≡ chunk ++ ops
unfolding joined chunks_from
joined-chunks_from room chunk [] = refl
joined-chunks_from zero chunk (op ∷ ops) =
    ap (λ q. chunk ++ q) (joined-chunks_from (max_mailbox_depth - 1) (op ∷ []) ops)
joined-chunks_from (suc room) chunk (op ∷ ops) =
    joined-chunks_from room (chunk ++ op ∷ []) ops ∙ append_assoc chunk (op ∷ []) ops

joined-chunks : (ops : List Op) → joined (chunks ops) ≡ ops
unfolding joined chunks
joined-chunks [] = refl
joined-chunks (op ∷ ops) = joined-chunks_from (max_mailbox_depth - 1) (op ∷ []) ops

module _ {F V W : Type 0} (respond : ℕ → Op → Response F V) (wire : Wire F V W) where
  abbrev served : Wire F V (W × Lines)
  served = serving respond wire

  replies-append :
      (id : ℕ) (xs ys : List Op)
      → replies respond id (xs ++ ys) ≡ replies respond id xs ++ replies respond (id + length xs) ys
  replies-append id xs ys =
      ap (map (reply respond)) (numbered-append id xs ys)
      ∙ map-append (reply respond) (numbered id xs) (numbered (id + length xs) ys)

  answer-Single :
      (next id : ℕ) (op : Op) (line : Result (Option (Response F V)) × W)
      → (Reliable wire → is_line line.0 ≡ true)
      → Single
          (Reliable wire)
          (respond id op)
          next
          (answer_of next (heard respond ((id, op) ∷ []) line)).0
          (answer_of next (heard respond ((id, op) ∷ []) line)).1
  answer-Single next id op (err e, w) sure = (λ rel. cc (sure rel), refl)
  answer-Single next id op (ok none, w) sure = (λ rel. cc (sure rel), refl)
  answer-Single next id op (ok (some r), w) sure = (refl, refl, refl)

  pushed-Single :
      (next id : ℕ) (op : Op) (pushed : Result (Unit {0}) × W)
      → (Reliable wire → is_ok pushed.0 ≡ true)
      → let r =
          then_do next (kept ((id, op) ∷ []) pushed) (λ s. answer_of next (served.read_line s)) in
        Single (Reliable wire) (respond id op) next r.0 r.1
  pushed-Single next id op (err e, w) sure = (λ rel. cc (sure rel), refl)
  pushed-Single next id op (ok u, w) sure =
      answer-Single next id op (wire.read_line w) (λ rel. rel.reads w)

  sent-Single :
      (next id : ℕ) (op : Op) (sent : Result (Unit {0}) × W)
      → (Reliable wire → is_ok sent.0 ≡ true)
      → let r =
          then_do next
            (logged [] id op sent)
            (λ s. then_do next (served.flush s) (λ t. answer_of next (served.read_line t))) in
        Single (Reliable wire) (respond id op) next r.0 r.1
  sent-Single next id op (err e, w) sure = (λ rel. cc (sure rel), refl)
  sent-Single next id op (ok u, w) sure =
      pushed-Single next id op (wire.flush w) (λ rel. rel.flushes w)

  begun-Single :
      (next id : ℕ) (op : Op) (begun : Result (Unit {0}) × W)
      → (Reliable wire → is_ok begun.0 ≡ true)
      → let r = then_do next (kept [] begun) (λ s. exchange_wire served next id op s) in
        Single (Reliable wire) (respond id op) next r.0 r.1
  begun-Single next id op (err e, w) sure = (λ rel. cc (sure rel), refl)
  begun-Single next id op (ok u, w) sure =
      sent-Single next id op (wire.send_line id op w) (λ rel. rel.sends id op w)

  wire-Single :
      (id : ℕ) (op : Op) (c : AgentClient (W × Lines))
      → IsIdle c
      → Single
          (Reliable wire)
          (respond id op)
          c.next_id
          (roundtrip_wire served id op c).0
          (roundtrip_wire served id op c).1
  unfolding roundtrip_wire
  wire-Single id op c idle = elim (Bool-cases c.session) [
    | inl live ↦ rw live (
        subst
          (λ q.
            let r =
              then_do c.next_id (kept q (wire.set_io_timeout op c.wire.0))
                (λ s. exchange_wire served c.next_id id op s) in
            Single (Reliable wire) (respond id op) c.next_id r.0 r.1)
          (sym (idle live))
          (begun-Single c.next_id id op (wire.set_io_timeout op c.wire.0)
            (λ rel. rel.sets op c.wire.0)))
    | inr dead ↦
        rw dead
          (begun-Single c.next_id id op (wire.open_session c.wire.0) (λ rel. rel.opens c.wire.0))
  ]

  outcome-IsAnswered :
      (expected : Response F V) (next : ℕ) (p : Result (Response F V) × AgentClient (W × Lines))
      (again : Error → AgentClient (W × Lines) → Result (Response F V) × AgentClient (W × Lines))
      → Single (Reliable wire) expected next p.0 p.1
      → ((e : Error) (c : AgentClient (W × Lines))
          → ¬ Reliable wire
          → c.session ≡ false
          → c.next_id ≡ next
          → IsAnswered
              (Reliable wire)
              (expected ∷ [])
              next
              (as_list (again e c)).0
              (as_list (again e c)).1)
      → IsAnswered
          (Reliable wire)
          (expected ∷ [])
          next
          (as_list (roundtrip_outcome served p again)).0
          (as_list (roundtrip_outcome served p again)).1
  outcome-IsAnswered expected next (ok resp, c) again h k = (ap (λ r. r ∷ []) h.0, λ live. h.1, h.2)
  outcome-IsAnswered expected next (err e, c) again h k = k e (paused served c) h.0 refl h.1

  single-IsAnswered :
      (left id : ℕ) (op : Op) (last : Error) (next : ℕ) (c : AgentClient (W × Lines))
      → IsIdle c
      → c.next_id ≡ next
      → (Reliable wire → 1 ≤ left)
      → IsAnswered
          (Reliable wire)
          (respond id op ∷ [])
          next
          (as_list (roundtrip_tries served id op left last c)).0
          (as_list (roundtrip_tries served id op left last c)).1
  unfolding roundtrip_tries
  single-IsAnswered zero id op last next c idle at sure = λ rel. absurd (omega (arith, sure rel))
  single-IsAnswered (suc left) id op last next c idle at sure =
      outcome-IsAnswered (respond id op) next (roundtrip_wire served id op c) _
        (subst
          (λ q.
            Single (Reliable wire) (respond id op) q (roundtrip_wire served id op c).0
              (roundtrip_wire served id op c).1)
          at (wire-Single id op c idle))
        (λ e after broke dead same.
          single-IsAnswered left id op e next after (λ live. cc (dead, live)) same
            (λ rel. absurd (broke rel)))

  chunk-IsAnswered :
      (ops : List Op) (c : AgentClient (W × Lines))
      → IsIdle c
      → IsAnswered
          (Reliable wire)
          (replies respond c.next_id ops)
          (c.next_id + length ops)
          (rpc_chunk served ops c).0
          (rpc_chunk served ops c).1
  unfolding rpc_chunk rpc_op pipeline_retry numbered
  chunk-IsAnswered [] c idle = (refl, idle, omega arith)
  chunk-IsAnswered (op ∷ []) c idle =
      single-IsAnswered (wire.tries c.wire.0) c.next_id op (Error.host_error "") (c.next_id + 1)
        (record c { next_id = c.next_id + 1 }) idle refl (λ rel. rel.tried c.wire.0)
  chunk-IsAnswered (op ∷ next ∷ ops) c idle =
      let many = op ∷ next ∷ ops in
      tries-IsAnswered respond wire (wire.tries c.wire.0) c.next_id many (Error.host_error "")
        (c.next_id + length many) (record c { next_id = c.next_id + length many }) idle refl
        (λ rel. rel.tried c.wire.0)

  extended-IsAnswered :
      (out expected tail : List (Response F V)) (middle next : ℕ)
      (r : Result (List (Response F V)) × AgentClient (W × Lines))
      (rest : List (Response F V)
        → AgentClient (W × Lines)
        → Result (List (Response F V)) × AgentClient (W × Lines))
      → IsAnswered (Reliable wire) expected middle r.0 r.1
      → ((c : AgentClient (W × Lines))
          → IsIdle c
          → c.next_id ≡ middle
          → IsAnswered
              (Reliable wire)
              ((out ++ expected) ++ tail)
              next
              (rest (out ++ expected) c).0
              (rest (out ++ expected) c).1)
      → IsAnswered
          (Reliable wire)
          (out ++ (expected ++ tail))
          next
          (extended out r rest).0
          (extended out r rest).1
  extended-IsAnswered out expected tail middle next (ok resps, c) rest h k =
      subst
        (λ q. IsAnswered (Reliable wire) q next (rest (out ++ resps) c).0 (rest (out ++ resps) c).1)
        (append_assoc out expected tail)
        (subst
          (λ q.
            IsAnswered (Reliable wire) ((out ++ expected) ++ tail) next (rest (out ++ q) c).0
              (rest (out ++ q) c).1)
          (sym h.0) (k c h.1 h.2))
  extended-IsAnswered out expected tail middle next (err e, c) rest h k = h

  chunks-IsAnswered :
      (parts : List (List Op)) (out : List (Response F V)) (id : ℕ) (c : AgentClient (W × Lines))
      → IsIdle c
      → c.next_id ≡ id
      → IsAnswered
          (Reliable wire)
          (out ++ replies respond id (joined parts))
          (id + length (joined parts))
          (rpc_chunks served parts out c).0
          (rpc_chunks served parts out c).1
  unfolding rpc_chunks joined numbered
  chunks-IsAnswered [] out id c idle at = (sym (append-nil out), idle, omega (arith, at))
  chunks-IsAnswered (ops ∷ rest) out id c idle at =
      let middle = id + length ops in
      let next = middle + length (joined rest) in
      let here =
        subst
          (λ q.
            IsAnswered (Reliable wire) (replies respond q ops) (q + length ops)
              (rpc_chunk served ops c).0 (rpc_chunk served ops c).1)
          at (chunk-IsAnswered ops c idle) in
      let all =
        extended-IsAnswered out (replies respond id ops) (replies respond middle (joined rest))
          middle next (rpc_chunk served ops c) (λ more after. rpc_chunks served rest more after)
          here
          (λ after free same.
            chunks-IsAnswered rest (out ++ replies respond id ops) middle after free same) in
      let r = rpc_chunks served (ops ∷ rest) out c in
      let sum : next ≡ id + length (ops ++ joined rest) =
        omega (arith, length-append ops (joined rest)) in
      subst
        (λ n. IsAnswered (Reliable wire) (out ++ replies respond id (ops ++ joined rest)) n r.0 r.1)
        sum
        (subst (λ q. IsAnswered (Reliable wire) (out ++ q) next r.0 r.1)
          (sym (replies-append id ops (joined rest))) all)

  -- Over a server that answers the lines of a session one by one in their order: `rpc_pipeline`
  -- succeeds if the socket never fails and there is time for one try; and when it succeeds, whatever
  -- failed in between and however often the client tried again, its answers are, in the order of the
  -- operations, each operation's own, to its own request id. The client has to begin with no session,
  -- or with one that has no answer outstanding.
  pub rpc_pipeline-IsAnswered :
      (ops : List Op) (c : AgentClient (W × Lines))
      → IsIdle c
      → IsAnswered
          (Reliable wire)
          (replies respond c.next_id ops)
          (c.next_id + length ops)
          (rpc_pipeline served ops c).0
          (rpc_pipeline served ops c).1
  unfolding rpc_pipeline
  rpc_pipeline-IsAnswered ops c idle =
      if-both {A = Result (List (Response F V)) × AgentClient (W × Lines)}
        (λ r.
          IsAnswered (Reliable wire) (replies respond c.next_id ops) (c.next_id + length ops) r.0
            r.1)
        (leb (length ops) max_mailbox_depth) (chunk-IsAnswered ops c idle)
        (subst
          (λ q.
            IsAnswered (Reliable wire) (replies respond c.next_id q) (c.next_id + length q)
              (rpc_chunks served (chunks ops) [] c).0 (rpc_chunks served (chunks ops) [] c).1)
          (joined-chunks ops) (chunks-IsAnswered (chunks ops) [] c.next_id c idle refl))
