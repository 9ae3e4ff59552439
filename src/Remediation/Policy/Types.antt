-- ===== src/Remediation/Policy/Types.antt =====
-- app/remediation/policy.py: the policy's input and answer. A confidence is a number of one fixed unit
-- (say 1/10000); `now` is UTC, in microseconds since the epoch. A check's detail is kept as the data
-- of its message.
use sre_blackboard.Common.{ℕ, String, Bool, Option, List}
use sre_blackboard.Remediation.Plan.{Risk}

pub data Verdict : Type 0 where
  allow require_approval deny : Verdict

-- `args` are the string-valued arguments.
pub record EvidenceRef : Type 0 where
  pub tool : String
  pub args : List (String × String)

pub record PolicyContext : Type 0 where
  pub incident_service : String
  pub root_causes : List (String × ℕ)
  pub evidence : List (String × EvidenceRef)
  pub namespace : String
  pub allowed_targets : List String
  pub min_confidence : ℕ
  pub auto_max_risk : Risk
  pub change_window : String
  pub now : ℕ

pub data Detail : Type 0 where
  no_actions policy_error no_root_cause : Detail
  not_in_catalogue : String → Detail
  has_risk : String → Risk → Detail
  out_of_scope : String → Detail
  in_scope : String → String → Detail
  not_top : String → Bool → String → Detail
  low_confidence : String → ℕ → ℕ → Detail
  is_top : String → ℕ → Detail
  unknown_evidence : List String → Detail
  needs_evidence : String → List String → String → Detail
  cites : ℕ → Detail
  undo : String → Detail
  lower_options : List String → Detail
  no_lower_option : Risk → Detail
  window : ℕ → Bool → String → Detail

pub record Check : Type 0 where
  pub name : String
  pub ok : Bool
  pub detail : Detail
  pub blocking : Bool
  pub action : Option ℕ

pub record Decision : Type 0 where
  pub verdict : Verdict
  pub risk : Option Risk
  pub checks : List Check
