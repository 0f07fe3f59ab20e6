-- ===== src/Models/Enums.antt =====
-- The enums of src/mycoagent/models.py.
pub data NodeStatus : Type 0 where
  idle busy offline : NodeStatus

pub data SubtaskStatus : Type 0 where
  pending assigned running completed failed : SubtaskStatus

pub data JobStatus : Type 0 where
  running completed failed : JobStatus

pub data ModelSource : Type 0 where
  local_model api_model : ModelSource

pub data RuntimeKind : Type 0 where
  bare_metal container : RuntimeKind

pub data JoinMode : Type 0 where
  auto manual : JoinMode

pub data MembershipStatus : Type 0 where
  approved pending denied : MembershipStatus
