-- ===== src/Node/Submit/Guards.antt =====
-- Who may forward a subtask, in src/mycoagent/node/runtime.py.
use myco_agent.Common.{
  String, ◌≡◌, refl, true, false, Option, some, arith, ◌⊎◌, inl, inr, given, or_empty, ◌==◌, eq_iff,
  Bool-cases, Option-cases,
}
use myco_agent.Exec.{Result, ok, raise}
use myco_agent.Models.{SubtaskRecord, JobMemory, ForwardRequest}
use myco_agent.Node.Jobs.{Codec, get_job}
use myco_agent.Node.Agent.{Agent, AgentError, Network, works_on}
use myco_agent.Node.Submit.{check_forward, forward_subtask}

-- The agent is registered, keeps the job as its parent, and does not work on it as a child.
pub record MayForward (job_id : String) (a : Agent) : Type 0 where
  pub registered : given a.node_id ≡ true
  pub idle_on_job : works_on job_id a ≡ false
  pub job : JobMemory
  pub kept : get_job job_id a.jobs ≡ some job
  pub parent : job.parent_node_id ≡ or_empty a.node_id

check_forward-ok :
    (job_id : String) (request : ForwardRequest) (a : Agent) (source : Option SubtaskRecord)
    → (check_forward job_id request a).0 ≡ ok source
    → MayForward job_id a
unfolding check_forward
check_forward-ok job_id request a source e = elim (Bool-cases (given a.node_id)) [
  | inr none_given ↦ (let e' = rw (none_given, check_forward) at e in absurd (ground (arith, e')))
  | inl g ↦ elim (Bool-cases (works_on job_id a)) [
    | inl w ↦ (let e' = rw (g, w, check_forward) at e in absurd (ground (arith, e')))
    | inr w ↦ elim (Option-cases (get_job job_id a.jobs)) [
      | inl missing ↦
          (let e' = rw (g, w, missing, check_forward) at e in absurd (ground (arith, e')))
      | inr (job, kept) ↦ elim (Bool-cases (job.parent_node_id == or_empty a.node_id)) [
        | inr other ↦
            (let e' = rw (g, w, kept, other, check_forward) at e in absurd (ground (arith, e')))
        | inl own ↦ record {
          registered = g;
          idle_on_job = w;
          job = job;
          kept = kept;
          parent = (eq_iff job.parent_node_id (or_empty a.node_id)).0 own;
        }
      ]
    ]
  ]
]

module _ (codec : Codec) where
  -- A forwarding that returns was asked of a registered agent that keeps the job as its parent and does
  -- not work on the job as a child.
  pub forward_subtask-MayForward :
      (net : Network) (uuid job_id : String) (request : ForwardRequest) (a : Agent)
      (result : JobMemory)
      → (forward_subtask codec net uuid job_id request a).0 ≡ ok result
      → MayForward job_id a
  unfolding forward_subtask
  forward_subtask-MayForward net uuid job_id request a result e =
      elim (Result-cases (check_forward job_id request a).0) [
        | inl (source, ok_source) ↦ check_forward-ok job_id request a source ok_source
        | inr (x, raised) ↦ (let e' = rw raised at e in absurd (ground (arith, e')))
      ]
    where
      Result-cases :
          (r : Result AgentError (Option SubtaskRecord))
          → ((s : Option SubtaskRecord) × (r ≡ ok s)) ⊎ ((x : AgentError) × (r ≡ raise x))
      Result-cases (ok s) = inl (s, refl)
      Result-cases (raise x) = inr (x, refl)
