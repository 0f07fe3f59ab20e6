-- ===== src/Node/OpenCode/Tests.antt =====
-- Application of the theorem on what is shown, at a directory behind a link.
use myco_agent.Common.{String, ◌≡◌, refl, false, none, some, List, [], ◌∷◌}
use myco_agent.Exec.{Result, ok}
use myco_agent.Models.{ChildWork, SubtaskStatus, end}
use myco_agent.Text.{contains_text, startswith, removeprefix}
use myco_agent.Node.Workspace.{variants, shell_output}
use myco_agent.Node.OpenCode.{Completed, LaunchError, run}
use myco_agent.Node.OpenCode.Hidden.{Hides, run-Hides}

abbrev work : ChildWork
work = record {
  job_id = "j1";
  subtask_id = "t1";
  parent_node_id = "b1";
  parent_mailbox_url = "http://h/b1";
  description = "draw";
  payload = end;
  status = SubtaskStatus.running;
  result = none;
  artifact_ids = [];
}

abbrev runner : List String → Result LaunchError Completed
runner arguments =
    ok (record { returncode = none; stdout = "wrote /private/var/w1/a"; stderr = "" })

abbrev arguments : Result LaunchError (List String)
arguments = ok ("opencode" ∷ ("run" ∷ []))

run-Hides_example :
    (contains_text "/var/w1"
        (shell_output "/var/w1" "/private/var/w1" (some "/var/w1/b") none (some "2"))
      ≡ false)
    × Hides "/var/w1" refl "/var/w1" "/private/var/w1" work
        (run (λ s. none) "/var/w1" "/private/var/w1" runner arguments work)
run-Hides_example =
    run-Hides "/var/w1" refl "/var/w1" "/private/var/w1" (λ s. none)
      (unfold variants startswith removeprefix in refl) (some "/var/w1/b") none (some "2") runner
      arguments work
