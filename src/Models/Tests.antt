-- ===== src/Models/Tests.antt =====
-- Equality tests of the enums of src/mycoagent/models.py.
use myco_agent.Common.{Bool, true, false}
use myco_agent.Models.Enums.{NodeStatus, SubtaskStatus, MembershipStatus, JoinMode}

abbrev pub node_status_eq : NodeStatus → NodeStatus → Bool
node_status_eq NodeStatus.idle NodeStatus.idle = true
node_status_eq NodeStatus.busy NodeStatus.busy = true
node_status_eq NodeStatus.offline NodeStatus.offline = true
node_status_eq _ _ = false

abbrev pub subtask_status_eq : SubtaskStatus → SubtaskStatus → Bool
subtask_status_eq SubtaskStatus.pending SubtaskStatus.pending = true
subtask_status_eq SubtaskStatus.assigned SubtaskStatus.assigned = true
subtask_status_eq SubtaskStatus.running SubtaskStatus.running = true
subtask_status_eq SubtaskStatus.completed SubtaskStatus.completed = true
subtask_status_eq SubtaskStatus.failed SubtaskStatus.failed = true
subtask_status_eq _ _ = false

abbrev pub membership_eq : MembershipStatus → MembershipStatus → Bool
membership_eq MembershipStatus.approved MembershipStatus.approved = true
membership_eq MembershipStatus.pending MembershipStatus.pending = true
membership_eq MembershipStatus.denied MembershipStatus.denied = true
membership_eq _ _ = false

abbrev pub join_mode_eq : JoinMode → JoinMode → Bool
join_mode_eq JoinMode.auto JoinMode.auto = true
join_mode_eq JoinMode.manual JoinMode.manual = true
join_mode_eq _ _ = false
