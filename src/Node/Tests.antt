-- ===== src/Node/Tests.antt =====
-- The theorems about the node runtime at small concrete states.
use mathlib.Core.List.{mem-cons_self, not-mem-nil, eq-or-mem_of_mem-cons, Nodup-nil}
use mathlib.Core.Logic.Or
use mathlib.Core.Option
use native.Mathlib.Bridge.{le_prop}
use myco_agent.Common.{
  ℕ, ◌+◌, ◌<◌, ◌≡◌, ◌↔◌, ◌⊎◌, refl, true, false, none, some, List, [], ◌∷◌, arith, ◌==◌, given,
  is_nil, is_some, if◌then◌else◌, length,
}
use myco_agent.Exec.{ok}
use myco_agent.Models.{
  ForwardRequest, NodeStatus, JobStatus, SubtaskStatus, MembershipStatus, NodeRecord, JobMemory,
  end,
}
use myco_agent.Table.{find, put}
use myco_agent.Node.Jobs.{
  JobRow, JobStore, roll_up, get_job, update_subtask, count_of, inflight_counts, update_items,
  require_job, save, persist, create, add_subtask, complete_local, records_from_specs,
  record_from_spec, open_store,
}
use myco_agent.Node.Jobs.RollUp.{SomeFailed, AllCompleted, roll_up_iff}
use myco_agent.Node.Jobs.Inflight.{at_node, tally, tally_jobs, inflight_counts_lem}
use myco_agent.Node.Jobs.Update.{changed, get_job-update_subtask}
use myco_agent.Node.Jobs.Calls.{
  run, open_store-run, step, JobCall, create_call, complete_local_call,
}
use myco_agent.Node.Jobs.Failed.{is_failed, is_failed_job, run-is_failed}
use myco_agent.Node.Agent.{on_jobs, request, works_on}
use myco_agent.Node.Target.{
  pick_dispatch_target, pool_of, choose_target, named_target, checked, refusal,
}
use myco_agent.Node.Target.Load.{LeastLoaded, pick_dispatch_target-least, pick_dispatch_target-fair}
use myco_agent.Node.Target.Safety.{Allowed, choose_target-safe}
use myco_agent.Node.Parent.{
  now_running, hand_over, settle, mark_failed, dispatch, try_dispatch, find_subtask, delivery_error,
}
use myco_agent.Node.Parent.Outcome.{subtask_at, status_of, hand_over-settles, ending}
use myco_agent.Node.Submit.{
  forward_subtask, check_forward, source_of, excluded, forward_payload, refreshed,
}
use myco_agent.Node.Submit.Guards.{MayForward, forward_subtask-MayForward}
use myco_agent.Node.Mailbox.{
  ChildEvent, arrives, ends, child_step, child_run, status, report_result,
}
use myco_agent.Node.Mailbox.Works.{works, abstract_step}
use myco_agent.Node.Mailbox.Works as Works
use myco_agent.Node.Mailbox.Order.{Started, child_run-fifo, status-busy}
use myco_agent.Node.Mailbox.Report.{report_result_lem}
use myco_agent.Node.Samples.{
  work, job, store, finished, by_id_codec, spec, peer, agent, network, message, calm_network,
}
use myco_agent.Node.Parent.Settled.{Settled, try_dispatch-settles}

roll_up_iff_example :
    ((roll_up job ≡ JobStatus.failed) ↔ ((given job.error ≡ true) ⊎ SomeFailed job.subtasks))
    × ((roll_up job ≡ JobStatus.completed) ↔ (
        (given job.error ≡ false)
        × AllCompleted job.subtasks
        × (job.subtasks ≡ [] → is_some job.local_result ≡ true)))
roll_up_iff_example = roll_up_iff job

inflight_counts_lem_example : count_of "b1" (inflight_counts store) ≡ 1
unfolding tally_jobs tally at_node
inflight_counts_lem_example = inflight_counts_lem "b1" store

get_job-update_subtask_example :
    get_job "j1" (update_subtask by_id_codec "j1" "t1" now_running store).1
    ≡ Option.map
        (λ (j : JobMemory). if "j1" == "j1" then changed "t1" now_running j else j)
        (get_job "j1" store)
get_job-update_subtask_example = get_job-update_subtask by_id_codec "j1" "t1" "j1" now_running store

run-is_failed_example :
    is_failed "j2" (
      run by_id_codec
        (complete_local_call "j2" "late" ∷ (create_call "j4" (λ k. "u") 9 "a1" "x" [] ∷ []))
        store)
    ≡ true
unfolding get_job find is_failed_job
run-is_failed_example =
    run-is_failed by_id_codec "j2"
      (complete_local_call "j2" "late" ∷ (create_call "j4" (λ k. "u") 9 "a1" "x" [] ∷ [])) store
      (tt, (refl, tt)) (unfold is_failed in refl)

abbrev later_calls : List JobCall
later_calls = create_call "j3" (λ k. "u") 9 "a1" "note" [] ∷ (complete_local_call "j3" "done" ∷ [])

abbrev table : List JobRow
table = record { id = "j3"; json = "j3" } ∷ []

abbrev fresh : JobStore
fresh = record { jobs = []; disk = some [] }

ran : run by_id_codec later_calls fresh ≡ record { jobs = finished ∷ []; disk = some table }
unfolding run step create complete_local require_job get_job find save persist put roll_up
    records_from_specs
ran = refl

open_store-run_example :
    open_store by_id_codec (some table) ≡ some (run by_id_codec later_calls fresh)
open_store-run_example =
    open_store-run by_id_codec later_calls fresh table (rw ran (refl, tt))
      (record { ids_distinct = Nodup-nil; mirrored = λ rows e. ground (arith, e) }) (rw ran refl)

pick_dispatch_target-least_example :
    (chosen : NodeRecord) × (pick_dispatch_target (peer ∷ []) (("b1", 2) ∷ []) 5 ≡ some (chosen, 6))
    × LeastLoaded (("b1", 2) ∷ []) (peer ∷ []) chosen
pick_dispatch_target-least_example = pick_dispatch_target-least peer [] (("b1", 2) ∷ []) 5

pick_dispatch_target-fair_example : ∥ (
    (k : ℕ) × (k < length (pool_of [] peer []))
    × (pick_dispatch_target (peer ∷ []) [] (5 + k) ≡ some (peer, 5 + k + 1))) ∥₁
pick_dispatch_target-fair_example = pick_dispatch_target-fair peer [] [] 5 peer (
  mem-cons_self,
  λ n m.
      Or.elim le_prop (eq-or-mem_of_mem-cons m) (λ e. rw e (omega arith))
        (λ t. absurd (not-mem-nil t)),
)

choose_target-safe_example :
    Allowed ("a1" ∷ []) "lab" peer
    × (works_on "j1" agent ≡ false)
    × (given (some "b1") ≡ true
        → (peer.membership_status ≡ MembershipStatus.approved) × (peer.status ≡ NodeStatus.idle))
choose_target-safe_example =
    choose_target-safe network "j1" spec [] (some "b1") agent agent peer
      (unfold choose_target named_target request checked refusal works_on in refl)

hand_over-settles_example :
    let end = ending (some "dispatch timed out") in
    ((hand_over by_id_codec network "j1" "t1" spec peer agent).0 ≡ end.0)
    × (status_of "j1" "t1" (hand_over by_id_codec network "j1" "t1" spec peer agent).1.jobs
        ≡ some end.1)
unfolding delivery_error
hand_over-settles_example =
    hand_over-settles by_id_codec network "j1" "t1" spec peer agent
      (unfold subtask_at get_job find find_subtask in refl)
      (unfold subtask_at get_job find find_subtask run step complete_local update_subtask
          require_job update_items save put persist roll_up in
        refl)

try_dispatch-settles_example :
    let (r, a') = try_dispatch by_id_codec calm_network "j1" "t1" spec [] none agent in
    Settled r (status_of "j1" "t1" agent.jobs) (status_of "j1" "t1" a'.jobs)
try_dispatch-settles_example =
    try_dispatch-settles by_id_codec calm_network "j1" "t1" spec [] none agent
      (unfold subtask_at get_job find find_subtask in refl) (λ message s h. unfold run in h)

agent-Inv : Works.Inv agent
agent-Inv = record { no_waiting = λ n. refl; bounded = omega arith }

abbrev two_arrive : List ChildEvent
two_arrive = arrives message ∷ (arrives message ∷ [])

child_run-fifo_example :
    Works.Inv (child_run two_arrive agent)
    × (works (child_step ends (child_run two_arrive agent))
        ≡ abstract_step ends (child_run two_arrive agent))
    × Started ends (child_run two_arrive agent)
child_run-fifo_example = child_run-fifo two_arrive ends agent agent-Inv

status-busy_example :
    status (child_run two_arrive agent)
    ≡ (if is_nil (works (child_run two_arrive agent)) then NodeStatus.idle else NodeStatus.busy)
status-busy_example = status-busy two_arrive agent agent-Inv

report_result_lem_example : report_result (λ k. false) ≡ (2, false)
report_result_lem_example = report_result_lem (λ k. false)

abbrev forward_request : ForwardRequest
forward_request = record {
  description = "check";
  skills = [];
  tools = [];
  payload = end;
  source_subtask_id = none;
  target_node_id = some "b1";
}

abbrev forwarded : JobMemory
forwarded = record job {
  status = JobStatus.failed;
  subtasks =
      work
      ∷ (record work {
        id = "t2";
        description = "check";
        status = SubtaskStatus.failed;
        error = some "dispatch timed out";
      }
          ∷ []);
}

forwards : (forward_subtask by_id_codec network "t2" "j1" forward_request agent).0 ≡ ok forwarded
unfolding forward_subtask check_forward source_of excluded forward_payload refreshed try_dispatch
    mark_failed dispatch hand_over settle delivery_error choose_target named_target request checked
    refusal works_on on_jobs add_subtask update_subtask require_job update_items get_job find run
    step complete_local save put persist roll_up record_from_spec
forwards = refl

forward_subtask-MayForward_example : MayForward "j1" agent
forward_subtask-MayForward_example =
    forward_subtask-MayForward by_id_codec network "t2" "j1" forward_request agent forwarded
      forwards
