-- ===== src/Node/Api/Refused.antt =====
-- A message that the mailbox of src/mycoagent/node/api.py refuses changes nothing.
use myco_agent.Common.{
  ℕ, ◌≡◌, refl, ap, ◌⊎◌, inl, inr, String, Bool, true, false, ◌&&◌, ◌||◌, Option, none, some, ltb,
  is_some, or_empty, nat_eq, ◌==◌, Bool-cases, Option-cases,
}
use myco_agent.Exec.{Result, ok, raise, resume, pure}
use myco_agent.Models.{
  AssignSubtaskMessage, SubtaskResultMessage, Envelope, assign_subtask, subtask_result,
  invalid_body, unknown_type, ChildWork, JobMemory, SubtaskRecord,
}
use myco_agent.Node.Jobs.{
  Codec, JobStore, key_error, get_job, update_subtask, update_items, require_job, rolled,
}
use myco_agent.Node.Agent.{Agent, AgentError, on_jobs, busy_error}
use myco_agent.Node.Parent.{accept_result, reported}
use myco_agent.Node.Mailbox.{child_from_assign, accept_child, enqueue, put_nowait}
use myco_agent.Node.Api.{handle_envelope, mailbox_handler, mailbox_codes, status_of, child, parent}

unfoldable pub refusal_code : ℕ → Bool
refusal_code code = nat_eq code 400 || nat_eq code 404 || nat_eq code 409

-- The call returned, or it raised what the handler catches and left the agent as it was.
abbrev Fine : {A : Type 0} → Agent → Result AgentError A × Agent → Type 0
Fine a outcome =
    (status_of mailbox_codes outcome.0 ≡ 200)
    ⊎ ((refusal_code (status_of mailbox_codes outcome.0) ≡ true) × (outcome.1 ≡ a))

enqueue-fine : (message : AssignSubtaskMessage) (a : Agent) → Fine a (enqueue message a)
unfolding enqueue mailbox_codes refusal_code
enqueue-fine message a = elim (Bool-cases (ltb 0 a.mailbox_queue_size)) [
  | inr none_waits ↦ rw (none_waits, enqueue) (inr (refl, refl))
  | inl some_wait ↦ rw (some_wait, enqueue) (room (put_nowait message a))
]
  where
    room :
        (o : Option Agent)
        → Fine a (elim o as (λ _. Result AgentError Bool × Agent) [
          | none ↦ (raise (busy_error "agent is busy and mailbox queue is full"), a)
          | some a' ↦ (ok false, a')
        ])
    room none = inr (refl, refl)
    room (some a') = inl refl

accept_child-fine : (message : AssignSubtaskMessage) (a : Agent) → Fine a (accept_child message a)
unfolding accept_child mailbox_codes refusal_code
accept_child-fine message a =
    elim (Bool-cases (message.parent_node_id == or_empty a.node_id && is_some a.node_id)) [
      | inl own ↦ rw (own, accept_child) (inr (refl, refl))
      | inr other ↦ rw (other, accept_child) (busy a.current_child)
    ]
  where
    busy :
        (o : Option ChildWork)
        → Fine a (elim o as (λ _. Result AgentError Bool × Agent) [
          | none ↦ (ok true, record a { current_child = some (child_from_assign message) })
          | some work ↦ enqueue message a
        ])
    busy none = inl refl
    busy (some work) = enqueue-fine message a

module _ (codec : Codec) where
  -- An update that raises does so for a missing key, and changes no job.
  update_subtask-raises :
      (i t : String) (f : SubtaskRecord → SubtaskRecord) (s : JobStore)
      → ((job : JobMemory) × ((update_subtask codec i t f s).0 ≡ ok job))
        ⊎ ((key : String) × (update_subtask codec i t f s ≡ (raise (key_error key), s)))
  unfolding update_subtask
  update_subtask-raises i t f s = elim (Option-cases (get_job i s)) [
    | inl e ↦ inr (i, rw (e, require_job) refl)
    | inr (job, e) ↦ elim (Bool-cases (update_items t f job.subtasks).1) [
      | inl found ↦ inl (
        rolled (record job { subtasks = (update_items t f job.subtasks).0 }),
        rw (e, require_job, found) refl,
      )
      | inr missing ↦ inr (t, rw (e, require_job, missing) refl)
    ]
  ]

  after :
      {A B : Type 0} (b : B) (a : Agent) (m : Result AgentError A × Agent)
      → Fine a m
      → Fine a (resume m.0 (λ _. pure b) m.1)
  after b a (ok x, a') h = inl refl
  after b a (raise e, a') h = h

  on_jobs-fine :
      (i t : String) (f : SubtaskRecord → SubtaskRecord) (a : Agent)
      → Fine a (on_jobs (update_subtask codec i t f) a)
  unfolding on_jobs mailbox_codes refusal_code
  on_jobs-fine i t f a = elim (update_subtask-raises i t f a.jobs) [
    | inl (done, h) ↦ rw (h, on_jobs) (inl refl)
    | inr (key, h) ↦ rw (h, on_jobs) (inr (refl, ap (λ m. record a { jobs = m.1 }) h))
  ]

  accept_result-fine :
      (message : SubtaskResultMessage) (a : Agent) → Fine a (accept_result codec message a)
  unfolding accept_result mailbox_codes refusal_code
  accept_result-fine message a = elim (Option-cases (get_job message.job_id a.jobs)) [
    | inl e ↦ rw (e, accept_result) (inr (refl, refl))
    | inr (job, e) ↦
        rw (e, accept_result)
          (after tt a
            (on_jobs (update_subtask codec message.job_id message.subtask_id (reported message)) a)
            (on_jobs-fine message.job_id message.subtask_id (reported message) a))
  ]

  -- The mailbox answers every message, of an unknown type and with an invalid body too: with 200 if it was accepted, and otherwise with 400, 404 or
  -- 409, and then the agent is as it was before.
  pub mailbox_handler-refused :
      (envelope : Envelope) (a : Agent)
      → ((mailbox_handler codec envelope a).0 ≡ 200)
        ⊎ ((refusal_code (mailbox_handler codec envelope a).0 ≡ true)
            × ((mailbox_handler codec envelope a).1 ≡ a))
  unfolding mailbox_handler handle_envelope
  mailbox_handler-refused (assign_subtask message) a =
      after child a (accept_child message a) (accept_child-fine message a)
  mailbox_handler-refused (subtask_result message) a =
      after parent a (accept_result codec message a) (accept_result-fine message a)
  mailbox_handler-refused (invalid_body detail) a =
      unfold mailbox_codes refusal_code in inr (refl, refl)
  mailbox_handler-refused (unknown_type name) a =
      unfold mailbox_codes refusal_code in inr (refl, refl)
