-- ===== src/Node/Parent/Outcome.antt =====
-- What `_dispatch` and `_accept_result` of src/mycoagent/node/runtime.py leave in the job's record.
use mathlib.Core.Option
use myco_agent.Common.{
  String, ◌≡◌, refl, sym, ap, ◌∙◌, true, false, Option, none, some, List, [], ◌∷◌, map, any, arith,
  inl, inr, is_some, ◌==◌, eq_refl, if◌then◌else◌, Bool-cases, Option-cases,
}
use myco_agent.Exec.{Result, ok, raise}
use myco_agent.Models.{SubtaskSpec, SubtaskRecord, SubtaskStatus, JobMemory, NodeRecord}
use myco_agent.Table.{find}
use myco_agent.Node.Jobs.{
  Codec, JobStore, subtask_key, get_job, update_subtask, update_items, require_job, rolled,
}
use myco_agent.Node.Jobs.Calls.{run}
use myco_agent.Node.Jobs.Update.{changed, get_job-update_subtask, update_items_lem}
use myco_agent.Node.Agent.{Agent, AgentError, dispatch_error, Network, on_jobs}
use myco_agent.Node.Parent.{
  find_subtask, assigned_to, failed_with, now_running, assignment, delivery_error, settle,
  hand_over,
}

-- The record of a subtask in a store, if it is there.
unfoldable pub subtask_at : (job_id subtask_id : String) → JobStore → Option SubtaskRecord
subtask_at job_id subtask_id s = elim (get_job job_id s) [
  | none ↦ none
  | some job ↦ find_subtask job subtask_id
]

find-changed :
    (t : String) (f : SubtaskRecord → SubtaskRecord) (items : List SubtaskRecord)
    → ((i : SubtaskRecord) → (f i).id ≡ i.id)
    → find subtask_key t (map (λ (i : SubtaskRecord). if i.id == t then f i else i) items)
      ≡ Option.map f (find subtask_key t items)
unfolding find
find-changed t f [] same = refl
find-changed t f (item ∷ items) same = ground (arith, find-changed t f items same, same item)

any-find :
    (t : String) (items : List SubtaskRecord)
    → any (λ (i : SubtaskRecord). i.id == t) items ≡ is_some (find subtask_key t items)
unfolding find
any-find t [] = refl
any-find t (item ∷ items) = ground (arith, any-find t items)

find_subtask-changed :
    (t : String) (f : SubtaskRecord → SubtaskRecord) (job : JobMemory)
    → ((i : SubtaskRecord) → (f i).id ≡ i.id)
    → find_subtask (changed t f job) t ≡ Option.map f (find_subtask job t)
unfolding find_subtask changed
find_subtask-changed t f job same =
    elim (Bool-cases (any (λ (i : SubtaskRecord). i.id == t) job.subtasks)) [
      | inl e ↦ rw e (find-changed t f job.subtasks same)
      | inr e ↦ rw e (absent (find subtask_key t job.subtasks) (sym (any-find t job.subtasks) ∙ e))
    ]
  where
    absent : (o : Option SubtaskRecord) → is_some o ≡ false → o ≡ Option.map f o
    absent none h = refl
    absent (some x) h = absurd (ground (arith, h))

-- How an assignment ends for the caller, and the status that its subtask has then.
abbrev pub ending : Option String → Result AgentError (Unit {0}) × SubtaskStatus
ending none = (ok tt, SubtaskStatus.running)
ending (some error) = (raise (dispatch_error error), SubtaskStatus.failed)

abbrev pub status_of : String → String → JobStore → Option SubtaskStatus
status_of i t s = Option.map (λ (item : SubtaskRecord). item.status) (subtask_at i t s)

module _ (codec : Codec) where
  subtask_at-update :
      (i t : String) (f : SubtaskRecord → SubtaskRecord) (s : JobStore)
      → ((item : SubtaskRecord) → (f item).id ≡ item.id)
      → subtask_at i t (update_subtask codec i t f s).1 ≡ Option.map f (subtask_at i t s)
  unfolding subtask_at
  subtask_at-update i t f s same =
      rw (get_job-update_subtask codec i t i f s, subtask_at) (there (get_job i s))
    where
      there :
          (o : Option JobMemory)
          → elim (Option.map (λ job. if i == i then changed t f job else job) o) [
            | none ↦ none
            | some job ↦ find_subtask job t
          ]
            ≡ Option.map f (elim o [ none ↦ none | some job ↦ find_subtask job t ])
      there none = refl
      there (some job) = rw (eq_refl i) (find_subtask-changed t f job same)

  -- With the subtask there, an update succeeds.
  update_subtask-ok :
      (i t : String) (f : SubtaskRecord → SubtaskRecord) (s : JobStore)
      → is_some (subtask_at i t s) ≡ true
      → (job : JobMemory) × ((update_subtask codec i t f s).0 ≡ ok job)
  unfolding subtask_at update_subtask find_subtask
  update_subtask-ok i t f s h = elim (Option-cases (get_job i s)) [
    | inl e ↦ (let h' = rw (e, subtask_at) at h in absurd (ground (arith, h')))
    | inr (job, e) ↦
        let h' = rw (e, subtask_at) at h in
        let u = update_items_lem t f job.subtasks in
        let found = any-find t job.subtasks ∙ h' in
        (
          rolled (record job { subtasks = (update_items t f job.subtasks).0 }),
          rw (e, require_job, u, found) refl,
        )
  ]

  pub on_jobs-ok :
      (i t : String) (f : SubtaskRecord → SubtaskRecord) (a : Agent)
      → is_some (subtask_at i t a.jobs) ≡ true
      → (job : JobMemory) × (on_jobs (update_subtask codec i t f) a
          ≡ (ok job, record a { jobs = (update_subtask codec i t f a.jobs).1 }))
  unfolding on_jobs
  on_jobs-ok i t f a h =
      let (job, e) = update_subtask-ok i t f a.jobs h in (job, rw (e, on_jobs) refl)

  pub status_of-update :
      (i t : String) (f : SubtaskRecord → SubtaskRecord) (s : JobStore) (status : SubtaskStatus)
      → is_some (subtask_at i t s) ≡ true
      → ((item : SubtaskRecord) → (f item).id ≡ item.id)
      → ((item : SubtaskRecord) → (f item).status ≡ status)
      → status_of i t (update_subtask codec i t f s).1 ≡ some status
  status_of-update i t f s status h same after =
      ap (Option.map (λ (item : SubtaskRecord). item.status)) (subtask_at-update i t f s same)
      ∙ there (subtask_at i t s) h
    where
      there :
          (o : Option SubtaskRecord)
          → is_some o ≡ true
          → Option.map (λ (item : SubtaskRecord). item.status) (Option.map f o) ≡ some status
      there none e = absurd (ground (arith, e))
      there (some item) e = ap some (after item)

  settle-lem :
      (i t : String) (error : Option String) (a : Agent)
      → is_some (subtask_at i t a.jobs) ≡ true
      → ((settle codec i t error a).0 ≡ (ending error).0)
        × (status_of i t (settle codec i t error a).1.jobs ≡ some (ending error).1)
  unfolding settle
  settle-lem i t none a h =
      let (job, e) = on_jobs-ok i t now_running a h in
      (
        rw e refl,
        rw e (
            status_of-update i t now_running a.jobs SubtaskStatus.running h (λ x. refl)
              (λ x. refl)),
      )
  settle-lem i t (some error) a h =
      let (job, e) = on_jobs-ok i t (failed_with error) a h in
      (
        rw e refl,
        rw e (
            status_of-update i t (failed_with error) a.jobs SubtaskStatus.failed h (λ x. refl)
              (λ x. refl)),
      )

  -- The jobs of the agent when the answer to its assignment arrives.
  abbrev pub while_waiting : Network → String → String → SubtaskSpec → NodeRecord → Agent → JobStore
  while_waiting net i t spec target a =
      run codec (net.meanwhile (assignment a i t spec))
        (update_subtask codec i t (assigned_to target) a.jobs).1

  -- An assignment never leaves its subtask ASSIGNED: whatever else happened to the jobs meanwhile, if
  -- the subtask is there before and after, it is RUNNING and the call returns where the assignment
  -- was delivered, and it is FAILED and the call raises a `DispatchError` where it was not.
  pub hand_over-settles :
      (net : Network) (i t : String) (spec : SubtaskSpec) (target : NodeRecord) (a : Agent)
      → is_some (subtask_at i t a.jobs) ≡ true
      → is_some (subtask_at i t (while_waiting net i t spec target a)) ≡ true
      → let end = ending (delivery_error (net.assign target.mailbox_url (assignment a i t spec))) in
        ((hand_over codec net i t spec target a).0 ≡ end.0)
        × (status_of i t (hand_over codec net i t spec target a).1.jobs ≡ some end.1)
  unfolding hand_over
  hand_over-settles net i t spec target a h still =
      let (job, e) = on_jobs-ok i t (assigned_to target) a h in
      let message = assignment a i t spec in
      let waiting = while_waiting net i t spec target a in
      rw e (
        settle-lem i t (delivery_error (net.assign target.mailbox_url message))
          (record a { jobs = waiting }) still)
