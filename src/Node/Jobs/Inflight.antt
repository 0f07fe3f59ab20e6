-- ===== src/Node/Jobs/Inflight.antt =====
-- `inflight_counts` gives each node the number of its subtasks that have not reported.
use myco_agent.Common.{
  ℕ, ◌+◌, suc, String, ◌≡◌, sym, ◌∙◌, Bool, true, false, Option, none, some, truthy, given, List,
  [], ◌∷◌, arith, ◌==◌, eq_iff, if◌then◌else◌, ◌&&◌, ◌||◌, or_empty,
}
use myco_agent.Models.{subtask_status_eq, SubtaskStatus, SubtaskRecord, JobMemory}
use myco_agent.Table.{find, put}
use myco_agent.Table.Laws.{find-put}
use myco_agent.Node.Jobs.{
  JobStore, count_key, count_of, is_inflight, count_item, count_items, count_jobs, inflight_counts,
}

-- A subtask that was assigned and has not ended
abbrev in_hand : SubtaskStatus → Bool
in_hand SubtaskStatus.pending = false
in_hand SubtaskStatus.assigned = true
in_hand SubtaskStatus.running = true
in_hand SubtaskStatus.completed = false
in_hand SubtaskStatus.failed = false

-- It is in hand at a node with this id; an empty id is none.
unfoldable pub at_node : String → SubtaskRecord → Bool
at_node node item =
    in_hand item.status
    && truthy node
    && elim item.assignee_node_id [ none ↦ false | some id ↦ id == node ]

inflight_at_node :
    (node : String) (item : SubtaskRecord)
    → (is_inflight item && or_empty item.assignee_node_id == node) ≡ at_node node item
unfolding is_inflight at_node
inflight_at_node node item = go item.status item.assignee_node_id
  where
    go :
        (st : SubtaskStatus) (assignee : Option String)
        → ((given assignee
              && (subtask_status_eq st SubtaskStatus.assigned
                  || subtask_status_eq st SubtaskStatus.running))
            && or_empty assignee == node)
          ≡ (in_hand st && truthy node && elim assignee [ none ↦ false | some id ↦ id == node ])
    go SubtaskStatus.pending o = ground arith
    go SubtaskStatus.assigned none = ground arith
    go SubtaskStatus.assigned (some id) = ground (arith, eq_iff id node)
    go SubtaskStatus.running none = ground arith
    go SubtaskStatus.running (some id) = ground (arith, eq_iff id node)
    go SubtaskStatus.completed o = ground arith
    go SubtaskStatus.failed o = ground arith

-- The subtasks of a list that are in hand at the node.
unfoldable pub tally : String → List SubtaskRecord → ℕ
tally node [] = 0
tally node (item ∷ items) =
    let rest = tally node items in if at_node node item then suc rest else rest

unfoldable pub tally_jobs : String → List JobMemory → ℕ
tally_jobs node [] = 0
tally_jobs node (job ∷ jobs) = tally node job.subtasks + tally_jobs node jobs

count_of-put :
    (node k : String) (n : ℕ) (counts : List (String × ℕ))
    → count_of node (put count_key (k, n) counts) ≡ (if k == node then n else count_of node counts)
unfolding count_of
count_of-put node k n counts = ground (arith, find-put count_key node (k, n) counts)

count_of-count_item :
    (node : String) (counts : List (String × ℕ)) (item : SubtaskRecord)
    → count_of node (count_item counts item) ≡ count_of node counts + tally node (item ∷ [])
unfolding count_item tally
count_of-count_item node counts item =
    let k = or_empty item.assignee_node_id in
    ground (
      arith,
      eq_iff k node,
      sym (inflight_at_node node item),
      count_of-put node k (count_of k counts + 1) counts,
    )

tally-cons :
    (node : String) (item : SubtaskRecord) (items : List SubtaskRecord)
    → tally node (item ∷ items) ≡ tally node (item ∷ []) + tally node items
unfolding tally
tally-cons node item items = ground arith

count_of-count_items :
    (node : String) (counts : List (String × ℕ)) (items : List SubtaskRecord)
    → count_of node (count_items counts items) ≡ count_of node counts + tally node items
unfolding count_items
count_of-count_items node counts [] = unfold tally in omega arith
count_of-count_items node counts (item ∷ items) = omega (
  arith,
  count_of-count_items node (count_item counts item) items,
  count_of-count_item node counts item,
  tally-cons node item items,
)

count_of-count_jobs :
    (node : String) (counts : List (String × ℕ)) (jobs : List JobMemory)
    → count_of node (count_jobs counts jobs) ≡ count_of node counts + tally_jobs node jobs
unfolding count_jobs tally_jobs
count_of-count_jobs node counts [] = omega arith
count_of-count_jobs node counts (job ∷ jobs) = omega (
  arith,
  count_of-count_jobs node (count_items counts job.subtasks) jobs,
  count_of-count_items node counts job.subtasks,
)

-- The count of every node, one that the dict lacks being 0, is the number of the subtasks of all
-- jobs that are assigned to it or running there.
pub inflight_counts_lem :
    (node : String) (s : JobStore) → count_of node (inflight_counts s) ≡ tally_jobs node s.jobs
unfolding inflight_counts
inflight_counts_lem node s =
    count_of-count_jobs node [] s.jobs ∙ (unfold count_of find in omega arith)
