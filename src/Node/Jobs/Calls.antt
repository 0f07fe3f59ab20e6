-- ===== src/Node/Jobs/Calls.antt =====
-- The calls on a `JobStore` of src/mycoagent/node/jobs.py, and the table that follows them.
use myco_agent.Common.{
  ℕ, String, Option, none, some, List, [], ◌∷◌, map, ◌≡◌, refl, sym, ap, Nodup, arith,
}
use myco_agent.Exec.{Keeps, keeps_rules, modify}
use myco_agent.Models.{SubtaskSpec, SubtaskRecord, JobMemory}
use myco_agent.Table.{keys, put}
use myco_agent.Table.Rows.{Nodup-put}
use myco_agent.Node.Jobs.{
  Codec, Restores, JobRow, JobStore, JobError, job_key, row_of, save, persist, require_job, create,
  update_subtask, add_subtask, complete_local, fail, open_store, load_rows,
}
use myco_agent.Node.Jobs.Load.{map-put, load_rows-map}

pub data JobCall : Type 0 where
  create_call : String → (ℕ → String) → ℕ → String → String → List SubtaskSpec → JobCall
  update_subtask_call : String → String → (SubtaskRecord → SubtaskRecord) → JobCall
  add_subtask_call : String → String → SubtaskSpec → JobCall
  complete_local_call : String → String → JobCall
  fail_call : String → String → JobCall

module _ (codec : Codec) where
  -- Job ids are distinct, and the table, where there is one, has a row for each job.
  pub record Inv (s : JobStore) : Type 0 where
    pub ids_distinct : Nodup (keys job_key s.jobs)
    pub mirrored : (rows : List JobRow) → s.disk ≡ some rows → rows ≡ map (row_of codec) s.jobs

  persist-mirrored :
      (job : JobMemory) (jobs : List JobMemory) (disk : Option (List JobRow))
      → ((rows : List JobRow) → disk ≡ some rows → rows ≡ map (row_of codec) jobs)
      → (rows : List JobRow) → persist codec job disk ≡ some rows
      → rows ≡ map (row_of codec) (put job_key job jobs)
  unfolding persist
  persist-mirrored job jobs none h rows e = cc
  persist-mirrored job jobs (some old) h rows e =
      let before = h old refl in let after = map-put codec job jobs in cc

  pub save-Inv : (job : JobMemory) (s : JobStore) → Inv s → Inv (save codec job s)
  unfolding save
  save-Inv job s v = record {
    ids_distinct = Nodup-put job_key job s.jobs v.ids_distinct;
    mirrored = persist-mirrored job s.jobs s.disk v.mirrored;
  }

  save-Keeps : (job : JobMemory) → Keeps {E = JobError} Inv (modify (save codec job))
  save-Keeps job = record { at = λ s v. save-Inv job s v }

  require_job-Keeps : (job_id : String) → Keeps Inv (require_job job_id)
  unfolding require_job
  require_job-Keeps job_id = record { at = λ s v. ground arith }

  ruleset job_rules = (keeps_rules, save-Keeps, require_job-Keeps)

  create-Keeps :
      (job_id : String) (uuids : ℕ → String) (now : ℕ) (parent description : String)
      (subtasks : List SubtaskSpec)
      → Keeps Inv (create codec job_id uuids now parent description subtasks)
  unfolding create
  create-Keeps job_id uuids now parent description subtasks = search (job_rules) depth 9

  update_subtask-Keeps :
      (job_id subtask_id : String) (changes : SubtaskRecord → SubtaskRecord)
      → Keeps Inv (update_subtask codec job_id subtask_id changes)
  unfolding update_subtask
  update_subtask-Keeps job_id subtask_id changes = search (job_rules) depth 9

  add_subtask-Keeps :
      (job_id uuid : String) (spec : SubtaskSpec) → Keeps Inv (add_subtask codec job_id uuid spec)
  unfolding add_subtask
  add_subtask-Keeps job_id uuid spec = search (job_rules) depth 9

  complete_local-Keeps : (job_id result : String) → Keeps Inv (complete_local codec job_id result)
  unfolding complete_local
  complete_local-Keeps job_id result = search (job_rules) depth 9

  fail-Keeps : (job_id error : String) → Keeps Inv (fail codec job_id error)
  unfolding fail
  fail-Keeps job_id error = search (job_rules) depth 9

  -- The store after a call, whether it returned or raised.
  unfoldable pub step : JobCall → JobStore → JobStore
  step (create_call i uuids now p d specs) s = (create codec i uuids now p d specs s).1
  step (update_subtask_call i t changes) s = (update_subtask codec i t changes s).1
  step (add_subtask_call i uuid spec) s = (add_subtask codec i uuid spec s).1
  step (complete_local_call i result) s = (complete_local codec i result s).1
  step (fail_call i error) s = (fail codec i error s).1

  step-Inv : (c : JobCall) (s : JobStore) → Inv s → Inv (step c s)
  unfolding step
  step-Inv (create_call i uuids now p d specs) s v = (create-Keeps i uuids now p d specs).at s v
  step-Inv (update_subtask_call i t changes) s v = (update_subtask-Keeps i t changes).at s v
  step-Inv (add_subtask_call i uuid spec) s v = (add_subtask-Keeps i uuid spec).at s v
  step-Inv (complete_local_call i result) s v = (complete_local-Keeps i result).at s v
  step-Inv (fail_call i error) s v = (fail-Keeps i error).at s v

  unfoldable pub run : List JobCall → JobStore → JobStore
  run [] s = s
  run (c ∷ cs) s = run cs (step c s)

  pub run-job_Inv : (cs : List JobCall) (s : JobStore) → Inv s → Inv (run cs s)
  unfolding run
  run-job_Inv [] s v = v
  run-job_Inv (c ∷ cs) s v = run-job_Inv cs (step c s) (step-Inv c s v)

  opened :
      (s : JobStore) (rows : List JobRow)
      → rows ≡ map (row_of codec) s.jobs
      → s.disk ≡ some rows
      → load_rows codec (map (row_of codec) s.jobs) [] ≡ some s.jobs
      → open_store codec (some rows) ≡ some s
  unfolding open_store
  opened s rows same e loads =
      let read : load_rows codec rows [] ≡ some s.jobs = (rw same loads) in
      rw (read, open_store) (ap (λ d. some (record { jobs = s.jobs; disk = d })) (sym e))

  -- A node that stops and opens its job table again has the jobs that it had: after any calls on a
  -- store whose job ids are distinct and whose table has a row for each job, opening the table
  -- gives the same store, where pydantic reads its jobs back as it wrote them.
  pub open_store-run :
      (cs : List JobCall) (s : JobStore) (rows : List JobRow)
      → Restores codec (run cs s).jobs
      → Inv s
      → (run cs s).disk ≡ some rows
      → open_store codec (some rows) ≡ some (run cs s)
  open_store-run cs s rows restores v e =
      let v' = run-job_Inv cs s v in
      let same = v'.mirrored rows e in
      let loads = load_rows-map codec (run cs s).jobs [] restores v'.ids_distinct in
      opened (run cs s) rows same e loads
