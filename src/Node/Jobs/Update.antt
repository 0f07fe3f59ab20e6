-- ===== src/Node/Jobs/Update.antt =====
-- What `update_subtask` of src/mycoagent/node/jobs.py changes, and how a failed job stays failed.
use myco_agent.Common.{
  String, Option, none, some, List, [], ◌∷◌, map, ◌≡◌, refl, ◌∙◌, ap, arith, if◌then◌else◌, ◌==◌,
  eq_iff, inl, inr, any, Bool-cases, Option-cases,
}
use myco_agent.Models.{SubtaskRecord, JobMemory}
use myco_agent.Table.Laws.{find-put, find_key}
use myco_agent.Node.Jobs.{
  Codec, JobStore, job_key, rolled, save, get_job, require_job, update_items, update_subtask,
}
use mathlib.Core.Option

-- The items of an update: those of the id are changed in their places, the others stay, and it is
-- found exactly if some item has the id.
pub update_items_lem :
    (subtask_id : String) (changes : SubtaskRecord → SubtaskRecord) (items : List SubtaskRecord)
    → update_items subtask_id changes items ≡ (
      map (λ (i : SubtaskRecord). if i.id == subtask_id then changes i else i) items,
      any (λ (i : SubtaskRecord). i.id == subtask_id) items,
    )
unfolding update_items
update_items_lem subtask_id changes [] = refl
update_items_lem subtask_id changes (item ∷ items) =
    let h = update_items_lem subtask_id changes items in ground (arith, h)

-- The job with the records of a subtask changed, if it has the subtask.
unfoldable pub changed : String → (SubtaskRecord → SubtaskRecord) → JobMemory → JobMemory
changed subtask_id changes job =
    if any (λ (i : SubtaskRecord). i.id == subtask_id) job.subtasks
    then rolled (record job {
      subtasks =
          map (λ (i : SubtaskRecord). if i.id == subtask_id then changes i else i) job.subtasks;
    })
    else job

module _ (codec : Codec) where
  pub get_job-save :
      (k : String) (job : JobMemory) (s : JobStore)
      → get_job k (save codec job s) ≡ (if job.job_id == k then some job else get_job k s)
  unfolding get_job save
  get_job-save k job s = find-put job_key k job s.jobs

  pub key_of :
      (k : String) (s : JobStore) (job : JobMemory) → get_job k s ≡ some job → job.job_id ≡ k
  unfolding get_job
  key_of k s job e = find_key job_key k s.jobs job e

  written :
      (job_id subtask_id : String) (changes : SubtaskRecord → SubtaskRecord) (s : JobStore)
      (job : JobMemory)
      → get_job job_id s ≡ some job
      → (k : String)
      → get_job k (update_subtask codec job_id subtask_id changes s).1
        ≡ (if job_id == k then some (changed subtask_id changes job) else get_job k s)
  unfolding changed update_subtask require_job
  written job_id subtask_id changes s job e k =
      let u = update_items_lem subtask_id changes job.subtasks in
      let at_id = key_of job_id s job e in
      let job' = rolled (record job {
        subtasks =
            map (λ (i : SubtaskRecord). if i.id == subtask_id then changes i else i) job.subtasks;
      }) in
      elim (Bool-cases (any (λ (i : SubtaskRecord). i.id == subtask_id) job.subtasks)) [
        | inl t ↦
            rw (e, u, t, require_job)
              (get_job-save k job' s ∙ ap (λ x. if x == k then some job' else get_job k s) at_id)
        | inr f ↦ rw (e, u, f, require_job) (ground (arith, e, eq_iff job_id k))
      ]

  kept : (o : Option JobMemory) → o ≡ Option.map (λ job. job) o
  kept none = refl
  kept (some job) = refl

  missing :
      (job_id subtask_id k : String) (changes : SubtaskRecord → SubtaskRecord) (s : JobStore)
      → get_job job_id s ≡ none
      → get_job k (update_subtask codec job_id subtask_id changes s).1
        ≡ Option.map
            (λ job. if job_id == k then changed subtask_id changes job else job)
            (get_job k s)
  unfolding update_subtask require_job
  missing job_id subtask_id k changes s e =
      rw (e, require_job)
        (elim (Bool-cases (job_id == k)) [
          | inl t ↦ (let e' = rw ((eq_iff job_id k).0 t) at e in rw e' refl)
          | inr f ↦ rw f (kept (get_job k s))
        ])

  -- What a call of `update_subtask` leaves under each job id. The job that it names, where that job
  -- has a subtask of the id, has that subtask's record changed, its other records as before, and
  -- its status rolled up again; every other job is as before, and so is every job where the call
  -- raises.
  pub get_job-update_subtask :
      (job_id subtask_id k : String) (changes : SubtaskRecord → SubtaskRecord) (s : JobStore)
      → get_job k (update_subtask codec job_id subtask_id changes s).1
        ≡ Option.map
            (λ job. if job_id == k then changed subtask_id changes job else job)
            (get_job k s)
  get_job-update_subtask job_id subtask_id k changes s = elim (Option-cases (get_job job_id s)) [
    | inl e ↦ missing job_id subtask_id k changes s e
    | inr (job, e) ↦ written job_id subtask_id changes s job e k ∙ elim (Bool-cases (job_id == k)) [
      | inl t ↦ (let e' = rw ((eq_iff job_id k).0 t) at e in rw (t, e') refl)
      | inr f ↦ rw f (kept (get_job k s))
    ]
  ]
