-- ===== src/Statuses.antt =====
-- The enumerations whose values the database columns hold: hosts/models.py, sessions/registry.py,
-- sessions/project_sessions.py, approvals/registry.py and recovery/models.py.
use remote_control_pjt.Prelude.{Eq, discrete_beq, discrete_beq_iff}

pub data HostStatus : Type 0 where
  online offline : HostStatus

-- The status of a job's agent session.
pub data SessionStatus : Type 0 where
  active waiting_human waiting_host waiting_quota paused cancelling idle failed cancelled :
      SessionStatus

pub data ProjectSessionStatus : Type 0 where
  idle active closed error : ProjectSessionStatus

pub data ApprovalStatus : Type 0 where
  pending resolved rejected cancelled expired : ApprovalStatus

pub data RecoveryKind : Type 0 where
  host lease quota restart : RecoveryKind

pub data RecoveryMode : Type 0 where
  start resume adopt finalize cancel qa : RecoveryMode

abbrev pub HostStatus-discrete : Discrete HostStatus
HostStatus-discrete = hlevel

instance abbrev pub host_status_eq : Eq HostStatus
host_status_eq = record {
  equal = discrete_beq HostStatus-discrete;
  equal_iff = discrete_beq_iff HostStatus-discrete;
}

abbrev pub ProjectSessionStatus-discrete : Discrete ProjectSessionStatus
ProjectSessionStatus-discrete = hlevel

instance abbrev pub project_session_status_eq : Eq ProjectSessionStatus
project_session_status_eq = record {
  equal = discrete_beq ProjectSessionStatus-discrete;
  equal_iff = discrete_beq_iff ProjectSessionStatus-discrete;
}

abbrev pub ApprovalStatus-discrete : Discrete ApprovalStatus
ApprovalStatus-discrete = hlevel

instance abbrev pub approval_status_eq : Eq ApprovalStatus
approval_status_eq = record {
  equal = discrete_beq ApprovalStatus-discrete;
  equal_iff = discrete_beq_iff ApprovalStatus-discrete;
}

abbrev pub RecoveryMode-discrete : Discrete RecoveryMode
RecoveryMode-discrete = hlevel

instance abbrev pub recovery_mode_eq : Eq RecoveryMode
recovery_mode_eq = record {
  equal = discrete_beq RecoveryMode-discrete;
  equal_iff = discrete_beq_iff RecoveryMode-discrete;
}
