-- ===== src/Node/Mailbox/Report.antt =====
-- How often `_report_result` of src/mycoagent/node/runtime.py tries.
use myco_agent.Common.{ℕ, ◌≡◌, Bool, arith, if◌then◌else◌, ◌||◌}
use myco_agent.Node.Mailbox.{report_loop, report_result}

-- A report is tried once, and once more exactly where the first try failed; it is lost exactly
-- where both tries fail.
pub report_result_lem :
    (sends : ℕ → Bool) → report_result sends ≡ ((if sends 0 then 1 else 2), sends 0 || sends 1)
unfolding report_result report_loop
report_result_lem sends = ground arith
