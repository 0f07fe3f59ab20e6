-- ===== src/Node/Parent/Settled.antt =====
-- Where a subtask stands once `_dispatch` was tried on it, as `submit_job` and `forward_subtask` of
-- src/mycoagent/node/runtime.py do.
use mathlib.Core.Option
use myco_agent.Common.{
  ℕ, String, ◌≡◌, refl, ap, ◌∙◌, Bool, true, false, Option, none, some, List, arith, inl, inr, ◌⊎◌,
  is_some, if◌then◌else◌,
}
use myco_agent.Exec.{Result, ok, raise, pure, throw, gets, modify, resume, ◌>>=◌}
use myco_agent.Models.{SubtaskRecord, SubtaskSpec, SubtaskStatus, NodeRecord, AssignSubtaskMessage}
use myco_agent.Node.Jobs.{Codec, JobStore, update_subtask}
use myco_agent.Node.Jobs.Calls.{run}
use myco_agent.Node.Agent.{
  Agent, AgentM, AgentError, busy_error, dispatch_error, parent_forbidden, runtime_error,
  missing_key, value_error, other_error, Network, request,
}
use myco_agent.Node.Target.{checked, named_target, take_picked, catalog_target, choose_target}
use myco_agent.Node.Parent.{
  assignment, assigned_to, failed_with, delivery_error, hand_over, dispatch, mark_failed,
  try_dispatch,
}
use myco_agent.Node.Parent.Outcome.{
  subtask_at, status_of, ending, on_jobs-ok, status_of-update, hand_over-settles,
}

-- A refusal of the runtime, or an exception of a client.
abbrev Usual : {A : Type 0} → Result AgentError A → Type 0
Usual (ok x) = Unit
Usual (raise (dispatch_error e)) = Unit
Usual (raise (other_error e)) = Unit
Usual (raise (busy_error e)) = ⊥
Usual (raise (parent_forbidden e)) = ⊥
Usual (raise (runtime_error e)) = ⊥
Usual (raise (missing_key e)) = ⊥
Usual (raise (value_error e)) = ⊥

-- The method leaves the jobs as they are, and raises nothing else.
record Quiet {A : Type 0} (m : AgentM A) : Type 0 where
  pub at : (a : Agent) → ((m a).1.jobs ≡ a.jobs) × Usual (m a).0

module _ {A B : Type 0} where
  Quiet-bind :
      (m : AgentM A) (f : A → AgentM B) → Quiet m → ((x : A) → Quiet (f x)) → Quiet (m >>= f)
  Quiet-bind m f qm qf = record { at = λ a. go (m a).0 (m a).1 (qm.at a).0 (qm.at a).1 }
    where
      go :
          {jobs : JobStore} (r : Result AgentError A) (s : Agent)
          → s.jobs ≡ jobs
          → Usual r
          → ((resume r f s).1.jobs ≡ jobs) × Usual (resume r f s).0
      go (ok x) s e u = (((qf x).at s).0 ∙ e, ((qf x).at s).1)
      go (raise (dispatch_error x)) s e u = (e, tt)
      go (raise (other_error x)) s e u = (e, tt)
      go (raise (busy_error x)) s e u = absurd u
      go (raise (parent_forbidden x)) s e u = absurd u
      go (raise (runtime_error x)) s e u = absurd u
      go (raise (missing_key x)) s e u = absurd u
      go (raise (value_error x)) s e u = absurd u

module _ {A : Type 0} where
  Quiet-pure : (x : A) → Quiet (pure x)
  Quiet-pure x = record { at = λ a. (refl, tt) }

  Quiet-gets : (f : Agent → A) → Quiet (gets f)
  Quiet-gets f = record { at = λ a. (refl, tt) }

  Quiet-refusal : (e : String) → Quiet {A = A} (throw (dispatch_error e))
  Quiet-refusal e = record { at = λ a. (refl, tt) }

  Quiet-request : (r : Result String A) → Quiet (request r)
  unfolding request
  Quiet-request (ok x) = record { at = λ a. (refl, tt) }
  Quiet-request (raise e) = record { at = λ a. (refl, tt) }

  Quiet-if : (b : Bool) (m n : AgentM A) → Quiet m → Quiet n → Quiet (if b then m else n)
  Quiet-if true m n qm qn = qm
  Quiet-if false m n qm qn = qn

Quiet-turn : (next : ℕ) → Quiet (modify (λ (s : Agent). record s { rr_index = next }))
Quiet-turn next = record { at = λ s. (refl, tt) }

ruleset quiet_rules =
    (Quiet-bind, Quiet-pure, Quiet-gets, Quiet-refusal, Quiet-request, Quiet-if, Quiet-turn)

Quiet-checked : (o : Option String) (target : NodeRecord) → Quiet (checked o target)
unfolding checked
Quiet-checked none target = Quiet-pure target
Quiet-checked (some reason) target = Quiet-refusal reason

Quiet-named_target :
    (net : Network) (blocked : List String) (id : String) → Quiet (named_target net blocked id)
unfolding named_target
Quiet-named_target net blocked id = search (quiet_rules, Quiet-checked)

Quiet-take_picked : (o : Option (NodeRecord × ℕ)) → Quiet (take_picked o)
unfolding take_picked
Quiet-take_picked none = Quiet-refusal _
Quiet-take_picked (some (target, turn)) = search (quiet_rules, Quiet-checked)

Quiet-catalog_target :
    (net : Network) (blocked : List String) (spec : SubtaskSpec)
    → Quiet (catalog_target net blocked spec)
unfolding catalog_target
Quiet-catalog_target net blocked spec = search (quiet_rules, Quiet-take_picked)

Quiet-choose_target :
    (net : Network) (i : String) (spec : SubtaskSpec) (exclude : List String)
    (target : Option String)
    → Quiet (choose_target net i spec exclude target)
unfolding choose_target
Quiet-choose_target net i spec exclude target =
    search (quiet_rules, Quiet-named_target, Quiet-catalog_target)

-- What became of a subtask: where the try returns, it runs or has failed; where an exception of a client
-- passes through, it is as it was.
abbrev pub Settled : Result AgentError (Unit {0}) → (before after : Option SubtaskStatus) → Type 0
Settled (ok x) before after =
    (after ≡ some SubtaskStatus.running) ⊎ (after ≡ some SubtaskStatus.failed)
Settled (raise (other_error e)) before after = after ≡ before
Settled (raise (dispatch_error e)) before after = ⊥
Settled (raise (busy_error e)) before after = ⊥
Settled (raise (parent_forbidden e)) before after = ⊥
Settled (raise (runtime_error e)) before after = ⊥
Settled (raise (missing_key e)) before after = ⊥
Settled (raise (value_error e)) before after = ⊥

present :
    (i t : String) (s : JobStore) (status : SubtaskStatus)
    → status_of i t s ≡ some status
    → is_some (subtask_at i t s) ≡ true
present i t s status h = go (subtask_at i t s) h
  where
    go :
        (o : Option SubtaskRecord)
        → Option.map (λ (item : SubtaskRecord). item.status) o ≡ some status
        → is_some o ≡ true
    go none e = absurd (ground (arith, e))
    go (some x) e = refl

module _ (codec : Codec) (net : Network) (i t : String) where
  after_refusal :
      (e : String) (a : Agent) (before : Option SubtaskStatus)
      → is_some (subtask_at i t a.jobs) ≡ true
      → let (r, a') = mark_failed codec i t (raise (dispatch_error e)) a in
        Settled r before (status_of i t a'.jobs)
  unfolding mark_failed
  after_refusal e a before h =
      let (job, same) = on_jobs-ok codec i t (failed_with e) a h in
      rw same (
        inr (
          status_of-update codec i t (failed_with e) a.jobs SubtaskStatus.failed h (λ x. refl)
            (λ x. refl)))

  after_ending :
      (error : Option String) (a : Agent) (before : Option SubtaskStatus)
      → status_of i t a.jobs ≡ some (ending error).1
      → let (r, a') = mark_failed codec i t (ending error).0 a in
        Settled r before (status_of i t a'.jobs)
  after_ending none a before h = unfold mark_failed in inl h
  after_ending (some e) a before h =
      after_refusal e a before (present i t a.jobs SubtaskStatus.failed h)

  -- As long as the agent's other tasks keep the subtask: once a dispatch of it was tried, it runs or has
  -- failed where the try returns; and where an exception of a client passes through, which is the one
  -- other way to end, it is as it was.
  pub try_dispatch-settles :
      (spec : SubtaskSpec) (exclude : List String) (target : Option String) (a : Agent)
      → is_some (subtask_at i t a.jobs) ≡ true
      → ((message : AssignSubtaskMessage) (s : JobStore)
          → is_some (subtask_at i t s) ≡ true
          → is_some (subtask_at i t (run codec (net.meanwhile message) s)) ≡ true)
      → let (r, a') = try_dispatch codec net i t spec exclude target a in
        Settled r (status_of i t a.jobs) (status_of i t a'.jobs)
  unfolding try_dispatch dispatch
  try_dispatch-settles spec exclude target a h keeps =
      let quiet = (Quiet-choose_target net i spec exclude target).at a in
      go (choose_target net i spec exclude target a).0 (choose_target net i spec exclude target a).1
        quiet.0 quiet.1
    where
      go :
          (r : Result AgentError NodeRecord) (b : Agent)
          → b.jobs ≡ a.jobs
          → Usual r
          → let (outcome, c) = resume r (hand_over codec net i t spec) b in
            let (r', d) = mark_failed codec i t outcome c in
            Settled r' (status_of i t a.jobs) (status_of i t d.jobs)
      go (ok node) b same u =
          let here : is_some (subtask_at i t b.jobs) ≡ true = rw same h in
          let error = delivery_error (net.assign node.mailbox_url (assignment b i t spec)) in
          let set = update_subtask codec i t (assigned_to node) in
          let assigned =
            status_of-update codec i t (assigned_to node) b.jobs SubtaskStatus.assigned here
              (λ x. refl) (λ x. refl) in
          let there =
            keeps (assignment b i t spec) (set b.jobs).1
              (present i t (set b.jobs).1 SubtaskStatus.assigned assigned) in
          let (ended, status) = hand_over-settles codec net i t spec node b here there in
          rw ended (after_ending error (hand_over codec net i t spec node b).1 _ status)
      go (raise (dispatch_error e)) b same u = after_refusal e b _ (rw same h)
      go (raise (other_error e)) b same u = unfold mark_failed in ap (status_of i t) same
      go (raise (busy_error e)) b same u = absurd u
      go (raise (parent_forbidden e)) b same u = absurd u
      go (raise (runtime_error e)) b same u = absurd u
      go (raise (missing_key e)) b same u = absurd u
      go (raise (value_error e)) b same u = absurd u
