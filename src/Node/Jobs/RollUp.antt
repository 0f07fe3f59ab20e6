-- ===== src/Node/Jobs/RollUp.antt =====
-- The status of a job, as a statement about its error, its subtasks and its local result.
use mathlib.Core.Bool.{false≢true}
use mathlib.Core.List.{not-mem-nil}
use mathlib.Core.Logic.{∥∥₁_map}
use myco_agent.Common.{
  ◌≡◌, refl, ◌↔◌, ◌⊎◌, inl, inr, Bool, true, false, List, [], ◌∷◌, Mem, arith, given, is_nil,
  is_some, any, all, any_iff, all_iff, Bool-cases,
}
use myco_agent.Models.{SubtaskStatus, JobStatus, SubtaskRecord, JobMemory, subtask_status_eq}
use myco_agent.Node.Jobs.{roll_up}

-- Some subtask has failed.
abbrev pub SomeFailed : List SubtaskRecord → Type 0
SomeFailed items =
    ∥ ((item : SubtaskRecord) × Mem item items × (item.status ≡ SubtaskStatus.failed)) ∥₁

abbrev pub AllCompleted : List SubtaskRecord → Type 0
AllCompleted items = (item : SubtaskRecord) → Mem item items → item.status ≡ SubtaskStatus.completed

abbrev is_failed : SubtaskRecord → Bool
is_failed item = subtask_status_eq item.status SubtaskStatus.failed

abbrev is_completed : SubtaskRecord → Bool
is_completed item = subtask_status_eq item.status SubtaskStatus.completed

status_iff : (a b : SubtaskStatus) → (subtask_status_eq a b ≡ true) ↔ (a ≡ b)
status_iff a b = ground arith

failed_iff : (items : List SubtaskRecord) → (any is_failed items ≡ true) ↔ SomeFailed items
failed_iff items = (
  (λ h.
      ∥∥₁_map ((any_iff is_failed items).0 h)
        (λ (a, m, e). (a, m, (status_iff a.status SubtaskStatus.failed).0 e))),
  (λ h.
      (any_iff is_failed items).1
        (∥∥₁_map h (λ (a, m, e). (a, m, (status_iff a.status SubtaskStatus.failed).1 e)))),
)

completed_iff : (items : List SubtaskRecord) → (all is_completed items ≡ true) ↔ AllCompleted items
completed_iff items = (
  (λ h a m. (status_iff a.status SubtaskStatus.completed).0 ((all_iff is_completed items).0 h a m)),
  (λ h.
      (all_iff is_completed items).1
        (λ a m. (status_iff a.status SubtaskStatus.completed).1 (h a m))),
)

-- A list whose items have all completed has none that failed.
none_failed :
    (items : List SubtaskRecord) → all is_completed items ≡ true → any is_failed items ≡ false
none_failed [] h = refl
none_failed (a ∷ items) h = ground (arith, none_failed items)

roll_up_failed :
    (job : JobMemory)
    → (roll_up job ≡ JobStatus.failed) ↔ ((given job.error ≡ true) ⊎ SomeFailed job.subtasks)
unfolding roll_up
roll_up_failed job = (there, back)
  where
    there : roll_up job ≡ JobStatus.failed → (given job.error ≡ true) ⊎ SomeFailed job.subtasks
    there h = elim (Bool-cases (given job.error)) [
      | inl e ↦ inl e
      | inr e ↦ inr ((failed_iff job.subtasks).0 (ground arith))
    ]

    nonempty : (items : List SubtaskRecord) → any is_failed items ≡ true → is_nil items ≡ false
    nonempty [] h = absurd (false≢true h)
    nonempty (a ∷ items) h = refl

    back : (given job.error ≡ true) ⊎ SomeFailed job.subtasks → roll_up job ≡ JobStatus.failed
    back (inl e) = rw e
    back (inr t) =
        let e = (failed_iff job.subtasks).1 t in ground (arith, e, nonempty job.subtasks e)

roll_up_completed :
    (job : JobMemory)
    → (roll_up job ≡ JobStatus.completed) ↔ (
        (given job.error ≡ false)
        × AllCompleted job.subtasks
        × (job.subtasks ≡ [] → is_some job.local_result ≡ true))
unfolding roll_up
roll_up_completed job = (there job.subtasks refl, back job.subtasks refl)
  where
    Done : List SubtaskRecord → Type 0
    Done items =
        (given job.error ≡ false)
        × AllCompleted items
        × (items ≡ [] → is_some job.local_result ≡ true)

    there :
        (items : List SubtaskRecord)
        → job.subtasks ≡ items
        → roll_up job ≡ JobStatus.completed
        → Done job.subtasks
    there [] e h = (ground arith, rw e (λ a m. absurd (not-mem-nil m)), λ _. ground arith)
    there (a ∷ items) e h =
        (ground arith, (completed_iff job.subtasks).0 (ground arith), λ n. ground arith)

    back :
        (items : List SubtaskRecord)
        → job.subtasks ≡ items
        → Done job.subtasks
        → roll_up job ≡ JobStatus.completed
    back [] e (g, c, l) = let t = l e in ground arith
    back (a ∷ items) e (g, c, l) =
        let t = (completed_iff job.subtasks).1 c in ground (arith, t, none_failed job.subtasks t)

-- A job has failed exactly when it has an error or a failed subtask; it has completed exactly when
-- it has no error, every subtask has completed, and, where it has none, a local result is there.
pub roll_up_iff :
    (job : JobMemory)
    → ((roll_up job ≡ JobStatus.failed) ↔ ((given job.error ≡ true) ⊎ SomeFailed job.subtasks))
      × ((roll_up job ≡ JobStatus.completed) ↔ (
          (given job.error ≡ false)
          × AllCompleted job.subtasks
          × (job.subtasks ≡ [] → is_some job.local_result ≡ true)))
roll_up_iff job = (roll_up_failed job, roll_up_completed job)
