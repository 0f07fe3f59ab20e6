-- ===== src/Node/Mailbox/Order.antt =====
-- The child side of src/mycoagent/node/runtime.py works on one assignment at a time, in the order in which
-- they were accepted, and its queue stays within its bound.
use myco_agent.Common.{
  ◌≡◌, refl, true, false, not, ◌&&◌, Option, none, some, List, [], ◌∷◌, arith, ◌⊎◌, inl, inr,
  length, length-append, ltb, is_some, is_nil, or_empty, ◌==◌, if◌then◌else◌, Bool-cases,
}
use myco_agent.Exec.{ok, raise}
use myco_agent.Models.{ChildWork, NodeStatus, AssignSubtaskMessage}
use myco_agent.Node.Agent.{Agent, AgentError}
use myco_agent.Node.Mailbox.{
  status, put_nowait, enqueue, accept_child, finish_child, ChildEvent, arrives, ends, child_step,
  child_run,
}
use myco_agent.Node.Mailbox.Works.{works, Inv, turned_away, abstract_step, with_child, step-works}

-- What an event returns. An assignment that is turned away raises and leaves the agent as it was; one that
-- is accepted starts a task of `_run_child` exactly if there was no work; and at a work's end a task is
-- started exactly if another waits.
pub Started : ChildEvent → Agent → Type 0
Started (arrives message) a =
    ((turned_away message a ≡ true) × (e : AgentError) × (accept_child message a ≡ (raise e, a)))
    ⊎ ((turned_away message a ≡ false) × ((accept_child message a).0 ≡ ok (is_nil (works a))))
Started ends a = (works a ≡ []) ⊎ ((finish_child a).0 ≡ ok (not (is_nil (abstract_step ends a))))

arrival-Started :
    (message : AssignSubtaskMessage) (a : Agent) (child : Option ChildWork)
    (queue : List AssignSubtaskMessage)
    → Started (arrives message) (with_child a child queue)
unfolding Started accept_child enqueue put_nowait turned_away
arrival-Started message a child queue =
    elim (Bool-cases (message.parent_node_id == or_empty a.node_id && is_some a.node_id)) [
      | inl own ↦ rw (own, accept_child) (inl (refl, _, refl))
      | inr other ↦ accepted other child
    ]
  where
    accepted :
        (message.parent_node_id == or_empty a.node_id && is_some a.node_id) ≡ false
        → (child : Option ChildWork) → Started (arrives message) (with_child a child queue)
    accepted other none = rw (other, accept_child) (inr (refl, refl))
    accepted other (some work) = elim (Bool-cases (ltb 0 a.mailbox_queue_size)) [
      | inl some_room ↦ elim (Bool-cases (ltb (length queue) a.mailbox_queue_size)) [
        | inl room ↦ rw (other, some_room, room, accept_child, turned_away) (inr (refl, refl))
        | inr full ↦ rw (other, some_room, full, accept_child, turned_away) (inl (refl, _, refl))
      ]
      | inr no_queue ↦
          let full : ltb (length queue) a.mailbox_queue_size ≡ false = ground (arith, no_queue) in
          rw (other, no_queue, full, accept_child, turned_away) (inl (refl, _, refl))
    ]

step-Started : (e : ChildEvent) (a : Agent) → Started e a
step-Started (arrives message) a = arrival-Started message a a.current_child a.mailbox_queue
step-Started ends a = go a.current_child a.mailbox_queue
  where
    go :
        (child : Option ChildWork) (queue : List AssignSubtaskMessage)
        → Started ends (with_child a child queue)
    go none queue = unfold Started in inl refl
    go (some work) [] = unfold Started finish_child abstract_step in inr refl
    go (some work) (m ∷ queue) = unfold Started finish_child abstract_step in inr refl

arrival-Inv :
    (message : AssignSubtaskMessage) (a : Agent) (child : Option ChildWork)
    (queue : List AssignSubtaskMessage)
    → Inv (with_child a child queue)
    → Inv (child_step (arrives message) (with_child a child queue))
unfolding child_step accept_child enqueue put_nowait
arrival-Inv message a none queue v =
    elim (Bool-cases (message.parent_node_id == or_empty a.node_id && is_some a.node_id)) [
      | inl e ↦ rw (e, child_step, accept_child) v
      | inr e ↦
          rw (e, child_step, accept_child)
            (record { no_waiting = λ n. absurd (ground (arith, n)); bounded = v.bounded })
    ]
arrival-Inv message a (some work) queue v =
    elim (Bool-cases (message.parent_node_id == or_empty a.node_id && is_some a.node_id)) [
      | inl e ↦ rw (e, child_step, accept_child) v
      | inr e ↦
          rw (e, child_step, accept_child)
            (elim (Bool-cases (ltb 0 a.mailbox_queue_size)) [
              | inl some_room ↦
                  rw some_room (elim (Bool-cases (ltb (length queue) a.mailbox_queue_size)) [
                    | inl room ↦ rw room (record {
                      no_waiting = λ n. absurd (ground (arith, n));
                      bounded =
                          (let grown = length-append queue (message ∷ []) in
                            ground (arith, grown, room));
                    })
                    | inr full ↦ rw full v
                  ])
              | inr no_queue ↦ rw no_queue v
            ])
    ]

pub step-Inv : (e : ChildEvent) (a : Agent) → Inv a → Inv (child_step e a)
step-Inv (arrives message) a v = arrival-Inv message a a.current_child a.mailbox_queue v
step-Inv ends a v = go a.current_child a.mailbox_queue v
  where
    go :
        (child : Option ChildWork) (queue : List AssignSubtaskMessage)
        → Inv (with_child a child queue)
        → Inv (child_step ends (with_child a child queue))
    go none queue w = unfold child_step in w
    go (some work) [] w =
        unfold child_step finish_child in record { no_waiting = λ n. refl; bounded = w.bounded }
    go (some work) (m ∷ queue) w =
        unfold child_step finish_child in
        record {
          no_waiting = λ n. absurd (ground (arith, n));
          bounded = (let b = w.bounded in omega (arith, b));
        }

run-Inv_child : (es : List ChildEvent) (a : Agent) → Inv a → Inv (child_run es a)
unfolding child_run
run-Inv_child [] a v = v
run-Inv_child (e ∷ es) a v = run-Inv_child es (child_step e a) (step-Inv e a v)

-- Whatever assignments arrive and whatever works end, from an agent whose queue is within its size
-- and empty while it has no work: the queue stays so, the next assignment that is not turned away
-- goes behind all accepted ones, one that is turned away changes nothing, and the work that ends
-- makes room for the oldest one that waits. A task of `_run_child` is started when an assignment is
-- accepted while there is no work, and when a work ends while another waits, and at no other time.
pub child_run-fifo :
    (es : List ChildEvent) (e : ChildEvent) (a : Agent)
    → Inv a
    → Inv (child_run es a)
      × (works (child_step e (child_run es a)) ≡ abstract_step e (child_run es a))
      × Started e (child_run es a)
child_run-fifo es e a v =
    let w = run-Inv_child es a v in
    (w, step-works e (child_run es a) w, step-Started e (child_run es a))

-- In every state that events lead to from such an agent, the agent reports itself busy exactly if
-- it has accepted an assignment that it has not finished.
pub status-busy :
    (es : List ChildEvent) (a : Agent)
    → Inv a
    → status (child_run es a)
      ≡ (if is_nil (works (child_run es a)) then NodeStatus.idle else NodeStatus.busy)
status-busy es a v = go (child_run es a) (run-Inv_child es a v)
  where
    split :
        (b : Agent) (child : Option ChildWork) (queue : List AssignSubtaskMessage)
        → Inv (with_child b child queue)
        → status (with_child b child queue)
          ≡ (if is_nil (works (with_child b child queue)) then NodeStatus.idle else NodeStatus.busy)
    split b none queue w = (let n = w.no_waiting refl in unfold status in rw n refl)
    split b (some work) queue w = unfold status in refl

    go :
        (b : Agent)
        → Inv b
        → status b ≡ (if is_nil (works b) then NodeStatus.idle else NodeStatus.busy)
    go b w = split b b.current_child b.mailbox_queue w
