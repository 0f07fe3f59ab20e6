-- ===== src/Node/Jobs/Failed.antt =====
-- A job that src/mycoagent/node/jobs.py has failed, and the calls that come later.
use myco_agent.Common.{
  String, Bool, true, false, none, some, List, [], ◌∷◌, ◌++◌, ◌≡◌, refl, sym, ◌∙◌, arith,
  if◌then◌else◌, ◌==◌, eq_iff, inl, inr, given, Bool-cases, Option-cases, ◌&&◌,
}
use myco_agent.Models.{SubtaskSpec, SubtaskRecord, JobMemory, JobStatus}
use myco_agent.Node.Jobs.{
  Codec, JobStore, roll_up, rolled, save, get_job, require_job, update_items, create,
  update_subtask, add_subtask, complete_local, fail, new_job, record_from_spec,
}
use myco_agent.Node.Jobs.Update.{get_job-save, key_of}
use myco_agent.Node.Jobs.Calls.{
  JobCall, step, run, create_call, update_subtask_call, add_subtask_call, complete_local_call,
  fail_call,
}

is_failed_status : JobStatus → Bool
is_failed_status JobStatus.failed = true
is_failed_status JobStatus.running = false
is_failed_status JobStatus.completed = false

-- The job has an error of its own, and its status says that it failed.
unfoldable pub is_failed_job : JobMemory → Bool
unfolding is_failed_status
is_failed_job job = given job.error && is_failed_status job.status

-- The store has a failed job under the id.
unfoldable pub is_failed : String → JobStore → Bool
is_failed k s = elim (get_job k s) [ none ↦ false | some job ↦ is_failed_job job ]

-- Ids of new jobs are fresh, and a job fails with a message: `planning failed: ...` in the source.
abbrev pub Usual : String → JobCall → Type 0
Usual k (create_call i uuids now p d specs) = (i == k) ≡ false
Usual k (update_subtask_call i t changes) = Unit
Usual k (add_subtask_call i uuid spec) = Unit
Usual k (complete_local_call i result) = Unit
Usual k (fail_call i error) = given (some error) ≡ true

abbrev pub AllUsual : String → List JobCall → Type 0
AllUsual k [] = Unit
AllUsual k (c ∷ cs) = Usual k c × AllUsual k cs

rolled-failed : (job : JobMemory) → given job.error ≡ true → is_failed_job (rolled job) ≡ true
unfolding is_failed_job roll_up
rolled-failed job h = rw h refl

module _ (codec : Codec) where
  is_failed-save :
      (k : String) (job : JobMemory) (s : JobStore)
      → is_failed k (save codec job s)
        ≡ (if job.job_id == k then is_failed_job job else is_failed k s)
  unfolding is_failed
  is_failed-save k job s =
      rw (get_job-save codec k job s, is_failed)
        (elim (Bool-cases (job.job_id == k)) [ inl t ↦ rw t refl | inr f ↦ rw f refl ])

  error_of :
      (k : String) (s : JobStore) (job : JobMemory)
      → get_job k s ≡ some job
      → is_failed k s ≡ true
      → given job.error ≡ true
  unfolding is_failed is_failed_job
  error_of k s job e h = ground (arith, rw (e, is_failed) at h)

  -- A job that is written back with its error as it was stays failed.
  rewrite :
      (i k : String) (s : JobStore) (job job' : JobMemory)
      → get_job i s ≡ some job
      → job'.job_id ≡ job.job_id
      → job'.error ≡ job.error
      → is_failed k s ≡ true
      → is_failed k (save codec (rolled job') s) ≡ true
  rewrite i k s job job' e same error h =
      is_failed-save k (rolled job') s ∙ elim (Bool-cases (job'.job_id == k)) [
        | inl t ↦
            let at_k = (sym (key_of codec i s job e) ∙ sym same) ∙ (eq_iff job'.job_id k).0 t in
            rw t (rolled-failed job' (rw error (error_of k s job (rw at_k at e) h)))
        | inr f ↦ rw (f, h) refl
      ]

  fresh_failure :
      (job : JobMemory) (error : String)
      → given (some error) ≡ true
      → (k : String) (s : JobStore) → is_failed k s ≡ true
      → (if job.job_id == k
          then is_failed_job (record job { error = some error; status = JobStatus.failed })
          else is_failed k s)
        ≡ true
  unfolding is_failed_job
  fresh_failure job error u k s h = elim (Bool-cases (job.job_id == k)) [
    | inl t ↦ rw (t, u) refl
    | inr f ↦ rw (f, h) refl
  ]

  update_subtask-failed :
      (k i t : String) (changes : SubtaskRecord → SubtaskRecord) (s : JobStore)
      → is_failed k s ≡ true
      → is_failed k (update_subtask codec i t changes s).1 ≡ true
  unfolding update_subtask
  update_subtask-failed k i t changes s h = elim (Option-cases (get_job i s)) [
    | inl e ↦ rw (e, require_job) h
    | inr (job, e) ↦
        rw (e, require_job)
          (elim (Bool-cases (update_items t changes job.subtasks).1) [
            | inl found ↦ rw found (
                rewrite i k s job
                  (record job { subtasks = (update_items t changes job.subtasks).0 }) e refl refl h)
            | inr missed ↦ rw missed h
          ])
  ]

  add_subtask-failed :
      (k i uuid : String) (spec : SubtaskSpec) (s : JobStore)
      → is_failed k s ≡ true
      → is_failed k (add_subtask codec i uuid spec s).1 ≡ true
  unfolding add_subtask
  add_subtask-failed k i uuid spec s h = elim (Option-cases (get_job i s)) [
    | inl e ↦ rw (e, require_job) h
    | inr (job, e) ↦
        rw (e, require_job)
          (rewrite i k s job
            (record job { subtasks = job.subtasks ++ record_from_spec uuid spec ∷ [] }) e refl refl
            h)
  ]

  complete_local-failed :
      (k i result : String) (s : JobStore)
      → is_failed k s ≡ true
      → is_failed k (complete_local codec i result s).1 ≡ true
  unfolding complete_local
  complete_local-failed k i result s h = elim (Option-cases (get_job i s)) [
    | inl e ↦ rw (e, require_job) h
    | inr (job, e) ↦
        rw (e, require_job)
          (rewrite i k s job (record job { local_result = some result }) e refl refl h)
  ]

  fail-failed :
      (k i error : String) (s : JobStore)
      → given (some error) ≡ true
      → is_failed k s ≡ true
      → is_failed k (fail codec i error s).1 ≡ true
  unfolding fail
  fail-failed k i error s u h = elim (Option-cases (get_job i s)) [
    | inl e ↦ rw (e, require_job) h
    | inr (job, e) ↦
        rw (e, require_job)
          (is_failed-save k (record job { error = some error; status = JobStatus.failed }) s
            ∙ fresh_failure job error u k s h)
  ]

  step-failed :
      (k : String) (c : JobCall) (s : JobStore)
      → Usual k c
      → is_failed k s ≡ true
      → is_failed k (step codec c s) ≡ true
  unfolding step create
  step-failed k (create_call i uuids now p d specs) s u h =
      is_failed-save k (new_job i uuids now p d specs) s ∙ rw u h
  step-failed k (update_subtask_call i t changes) s u h = update_subtask-failed k i t changes s h
  step-failed k (add_subtask_call i uuid spec) s u h = add_subtask-failed k i uuid spec s h
  step-failed k (complete_local_call i result) s u h = complete_local-failed k i result s h
  step-failed k (fail_call i error) s u h = fail-failed k i error s u h

  -- A job that failed for an error of its own (its planning) stays failed whatever is reported or
  -- added later, as long as new jobs have other ids and no job is failed with an empty message.
  pub run-is_failed :
      (k : String) (cs : List JobCall) (s : JobStore)
      → AllUsual k cs
      → is_failed k s ≡ true
      → is_failed k (run codec cs s) ≡ true
  unfolding run
  run-is_failed k [] s u h = h
  run-is_failed k (c ∷ cs) s (u, us) h =
      run-is_failed k cs (step codec c s) us (step-failed k c s u h)
