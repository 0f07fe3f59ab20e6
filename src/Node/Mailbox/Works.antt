-- ===== src/Node/Mailbox/Works.antt =====
-- The abstract view of the child side of src/mycoagent/node/runtime.py: the list of its accepted works.
use mathlib.Core.List.{map-append}
use myco_agent.Common.{
  ◌≤◌, ◌≡◌, refl, Bool, false, not, ◌&&◌, ◌||◌, Option, none, some, List, [], ◌∷◌, ◌++◌, map, arith,
  inl, inr, length, ltb, is_some, or_empty, ◌==◌, if◌then◌else◌, Bool-cases,
}
use myco_agent.Models.{ChildWork, AssignSubtaskMessage}
use myco_agent.Node.Agent.{Agent}
use myco_agent.Node.Mailbox.{
  child_from_assign, put_nowait, enqueue, accept_child, finish_child, ChildEvent, arrives, ends,
  child_step,
}

-- The abstract view of the child side: what is worked on, then what waits, in order.
abbrev pub works : Agent → List ChildWork
works a = elim a.current_child [
  | none ↦ []
  | some work ↦ work ∷ map child_from_assign a.mailbox_queue
]

-- Nothing waits while nothing is worked on, and the queue is within its bound.
pub record Inv (a : Agent) : Type 0 where
  pub no_waiting : a.current_child ≡ none → a.mailbox_queue ≡ []
  pub bounded : length a.mailbox_queue ≤ a.mailbox_queue_size

-- An assignment is turned away: it is the agent's own, or there is no room for it.
unfoldable pub turned_away : AssignSubtaskMessage → Agent → Bool
turned_away message a =
    (message.parent_node_id == or_empty a.node_id && is_some a.node_id)
    || (is_some a.current_child && not (ltb (length a.mailbox_queue) a.mailbox_queue_size))

-- The abstract step: an accepted assignment goes to the end, and what ends is the first.
unfoldable pub abstract_step : ChildEvent → Agent → List ChildWork
abstract_step (arrives message) a =
    if turned_away message a then works a else works a ++ child_from_assign message ∷ []
abstract_step ends a = elim (works a) [ [] ↦ [] | work ∷ rest ↦ rest ]

abbrev pub with_child : Agent → Option ChildWork → List AssignSubtaskMessage → Agent
with_child a child queue = record a { current_child = child; mailbox_queue = queue }

arrival-works :
    (message : AssignSubtaskMessage) (a : Agent) (child : Option ChildWork)
    (queue : List AssignSubtaskMessage)
    → Inv (with_child a child queue)
    → works (child_step (arrives message) (with_child a child queue))
      ≡ abstract_step (arrives message) (with_child a child queue)
unfolding child_step abstract_step accept_child enqueue put_nowait turned_away
arrival-works message a none queue v =
    let empty = v.no_waiting refl in
    elim (Bool-cases (message.parent_node_id == or_empty a.node_id && is_some a.node_id)) [
      | inl e ↦ rw (e, child_step, accept_child) refl
      | inr e ↦ rw (e, empty, child_step, accept_child) refl
    ]
arrival-works message a (some work) queue v =
    elim (Bool-cases (message.parent_node_id == or_empty a.node_id && is_some a.node_id)) [
      | inl e ↦ rw (e, child_step, accept_child) refl
      | inr e ↦
          rw (e, child_step, accept_child)
            (elim (Bool-cases (ltb 0 a.mailbox_queue_size)) [
              | inl some_room ↦
                  rw some_room (elim (Bool-cases (ltb (length queue) a.mailbox_queue_size)) [
                    | inl room ↦ rw (room, map-append) refl
                    | inr full ↦ rw full refl
                  ])
              | inr no_queue ↦
                  let full : ltb (length queue) a.mailbox_queue_size ≡ false =
                    ground (arith, no_queue) in
                  rw (no_queue, full) refl
            ])
    ]

pub step-works : (e : ChildEvent) (a : Agent) → Inv a → works (child_step e a) ≡ abstract_step e a
step-works (arrives message) a v = arrival-works message a a.current_child a.mailbox_queue v
step-works ends a v = go a.current_child a.mailbox_queue
  where
    go :
        (child : Option ChildWork) (queue : List AssignSubtaskMessage)
        → works (child_step ends (with_child a child queue))
          ≡ abstract_step ends (with_child a child queue)
    go none queue = unfold child_step abstract_step in refl
    go (some work) [] = unfold child_step abstract_step finish_child in refl
    go (some work) (m ∷ queue) = unfold child_step abstract_step finish_child in refl
