-- ===== src/Node/Jobs.antt =====
-- src/mycoagent/node/jobs.py: `JobStore`, the parent's memory of its jobs, and its optional table
-- on disk. Jobs are values here: the source hands out deep copies only.
pub mod RollUp
pub mod Update
pub mod Load
pub mod Calls
pub mod Failed
pub mod Inflight
use myco_agent.Common.{
  ℕ, suc, ◌+◌, String, Bool, true, false, not, ◌&&◌, ◌||◌, Option, none, some, List, [], ◌∷◌, ◌++◌,
  map, any, all, given, or_empty, is_nil, is_some, ◌==◌, if◌then◌else◌, ◌≡◌, Mem,
}
use myco_agent.Exec.{Exec, Result, ok, raise, pure, throw, gets, modify, ◌>>=◌, ◌>>◌}
use myco_agent.Models.{
  SubtaskStatus, JobStatus, SubtaskSpec, SubtaskRecord, JobMemory, subtask_status_eq,
}
use myco_agent.Table.{find, put}

-- pydantic's JSON of a job, as `model_dump_json` writes it and `model_validate_json` reads it.
pub record Codec : Type 0 where
  pub encode : JobMemory → String
  pub decode : String → Option JobMemory

-- pydantic reads the jobs back that it wrote.
abbrev pub Restores : Codec → List JobMemory → Type 0
Restores codec [] = Unit
Restores codec (job ∷ jobs) = (codec.decode (codec.encode job) ≡ some job) × Restores codec jobs

pub record JobRow : Type 0 where
  pub id : String
  pub json : String

-- `disk` holds the table where the store has a path.
pub record JobStore : Type 0 where
  pub jobs : List JobMemory
  pub disk : Option (List JobRow)

pub data JobError : Type 0 where
  key_error : String → JobError

abbrev pub JobM : Type 0 → Type 0
JobM A = Exec JobStore JobError A

abbrev pub job_key : JobMemory → String
job_key job = job.job_id

abbrev pub row_key : JobRow → String
row_key row = row.id

abbrev pub subtask_key : SubtaskRecord → String
subtask_key item = item.id

unfoldable pub roll_up : JobMemory → JobStatus
roll_up job =
    if given job.error
    then JobStatus.failed
    else if is_nil job.subtasks
    then (if is_some job.local_result then JobStatus.completed else JobStatus.running)
    else if any (λ (item : SubtaskRecord). subtask_status_eq item.status SubtaskStatus.failed)
        job.subtasks
    then JobStatus.failed
    else if all (λ (item : SubtaskRecord). subtask_status_eq item.status SubtaskStatus.completed)
        job.subtasks
    then JobStatus.completed
    else JobStatus.running

-- `job.status = _roll_up(job)`
abbrev pub rolled : JobMemory → JobMemory
rolled job = record job { status = roll_up job }

-- `uuid` is the fresh id.
unfoldable pub record_from_spec : (uuid : String) → SubtaskSpec → SubtaskRecord
record_from_spec uuid item = record {
  id = uuid;
  description = item.description;
  skills = item.skills;
  tools = item.tools;
  payload = item.payload;
  model = item.model;
  min_context_window = item.min_context_window;
  min_memory_mb = item.min_memory_mb;
  assignee_node_id = none;
  assignee_mailbox_url = none;
  status = SubtaskStatus.pending;
  result = none;
  error = none;
  artifact_ids = [];
}

-- The records of a job's subtasks; `uuids k` is the k-th fresh id.
unfoldable pub records_from_specs : (uuids : ℕ → String) → ℕ → List SubtaskSpec → List SubtaskRecord
records_from_specs uuids k [] = []
records_from_specs uuids k (item ∷ items) =
    record_from_spec (uuids k) item ∷ records_from_specs uuids (suc k) items

-- `counts[node] = counts.get(node, 0) + 1` over a dict of counts
abbrev pub count_key : String × ℕ → String
count_key entry = entry.0

unfoldable pub count_of : String → List (String × ℕ) → ℕ
count_of node counts = elim (find count_key node counts) [ none ↦ 0 | some entry ↦ entry.1 ]

-- The subtask is with a node that has not reported.
unfoldable pub is_inflight : SubtaskRecord → Bool
is_inflight item =
    given item.assignee_node_id
    && (subtask_status_eq item.status SubtaskStatus.assigned
        || subtask_status_eq item.status SubtaskStatus.running)

unfoldable pub count_item : List (String × ℕ) → SubtaskRecord → List (String × ℕ)
count_item counts item =
    if is_inflight item
    then (let node = or_empty item.assignee_node_id in
        put count_key (node, count_of node counts + 1) counts)
    else counts

unfoldable pub count_items : List (String × ℕ) → List SubtaskRecord → List (String × ℕ)
count_items counts [] = counts
count_items counts (item ∷ items) = count_items (count_item counts item) items

unfoldable pub count_jobs : List (String × ℕ) → List JobMemory → List (String × ℕ)
count_jobs counts [] = counts
count_jobs counts (job ∷ jobs) = count_jobs (count_items counts job.subtasks) jobs

unfoldable pub inflight_counts : JobStore → List (String × ℕ)
inflight_counts s = count_jobs [] s.jobs

-- The loop of `update_subtask`: the items, those of the id changed, and whether there was one.
unfoldable pub update_items :
    String → (SubtaskRecord → SubtaskRecord) → List SubtaskRecord → List SubtaskRecord × Bool
update_items subtask_id changes [] = ([], false)
update_items subtask_id changes (item ∷ items) =
    let (updated, found) = update_items subtask_id changes items in
    if item.id == subtask_id then (changes item ∷ updated, true) else (item ∷ updated, found)

unfoldable pub get_job : String → JobStore → Option JobMemory
get_job job_id s = find job_key job_id s.jobs

unfoldable pub require_job : String → JobM JobMemory
require_job job_id s = elim (get_job job_id s) [
  | none ↦ (raise (key_error job_id), s)
  | some job ↦ (ok job, s)
]

abbrev pub new_job :
    (job_id : String)
    → (uuids : ℕ → String) → (now : ℕ) → String
    → String
    → List SubtaskSpec
    → JobMemory
new_job job_id uuids now parent description subtasks = record {
  job_id = job_id;
  description = description;
  parent_node_id = parent;
  status = JobStatus.running;
  subtasks = records_from_specs uuids 0 subtasks;
  local_result = none;
  error = none;
  created_at = now;
}

module _ (codec : Codec) where
  abbrev pub row_of : JobMemory → JobRow
  row_of job = record { id = job.job_id; json = codec.encode job }

  -- INSERT INTO jobs ... ON CONFLICT(id) DO UPDATE SET json=excluded.json
  unfoldable pub persist : JobMemory → Option (List JobRow) → Option (List JobRow)
  persist job none = none
  persist job (some rows) = some (put row_key (row_of job) rows)

  -- `self._jobs[job.job_id] = job; self._persist(job)`
  unfoldable pub save : JobMemory → JobStore → JobStore
  unfolding persist
  save job s = record { jobs = put job_key job s.jobs; disk = persist job s.disk }

  unfoldable pub load_rows : List JobRow → List JobMemory → Option (List JobMemory)
  load_rows [] jobs = some jobs
  load_rows (row ∷ rows) jobs = elim (codec.decode row.json) [
    | none ↦ none
    | some job ↦ load_rows rows (put job_key job jobs)
  ]

  -- `JobStore(path)` over the table at the path; `none` if a row does not validate.
  unfoldable pub open_store : Option (List JobRow) → Option JobStore
  unfolding load_rows
  open_store none = some (record { jobs = []; disk = none })
  open_store (some rows) = elim (load_rows rows []) [
    | none ↦ none
    | some jobs ↦ some (record { jobs = jobs; disk = some rows })
  ]

  unfoldable pub create :
      (job_id : String)
      → (uuids : ℕ → String) → (now : ℕ) → String
      → String
      → List SubtaskSpec
      → JobM JobMemory
  unfolding save
  create job_id uuids now parent description subtasks = do
    let job = new_job job_id uuids now parent description subtasks
    modify (save job)
    pure job

  unfoldable pub update_subtask : String → String → (SubtaskRecord → SubtaskRecord) → JobM JobMemory
  unfolding save require_job
  update_subtask job_id subtask_id changes = do
    job ← require_job job_id
    let outcome = update_items subtask_id changes job.subtasks
    if not outcome.1 then throw (key_error subtask_id) else do
      let job' = rolled (record job { subtasks = outcome.0 })
      modify (save job')
      pure job'

  unfoldable pub add_subtask :
      String → (uuid : String) → SubtaskSpec → JobM (JobMemory × SubtaskRecord)
  unfolding save require_job
  add_subtask job_id uuid spec = do
    job ← require_job job_id
    let item = record_from_spec uuid spec
    let job' = rolled (record job { subtasks = job.subtasks ++ item ∷ [] })
    modify (save job')
    pure (job', item)

  unfoldable pub complete_local : String → String → JobM JobMemory
  unfolding save require_job
  complete_local job_id result = do
    job ← require_job job_id
    let job' = rolled (record job { local_result = some result })
    modify (save job')
    pure job'

  unfoldable pub fail : String → String → JobM JobMemory
  unfolding save require_job
  fail job_id error = do
    job ← require_job job_id
    let job' = record job { error = some error; status = JobStatus.failed }
    modify (save job')
    pure job'
