-- ===== src/Database.antt =====
-- The database that a transaction reads and writes, and the transaction as a monad: it commits a
-- new database, or raises, which rolls everything back. The state moves of incidents are here,
-- since they write the audit log too.
pub mod Done
pub mod Lock
use sre_blackboard.Common.{
  ℕ, zero, suc, ◌+◌, String, Bool, true, false, ◌&&◌, Option, none, some, List, [], ◌∷◌, ◌==◌,
  str_eq, if◌then◌else◌, update_where, find_where,
}
use sre_blackboard.Incident.State.{State, Illegal, same_state, is_terminal, check_transition}
use sre_blackboard.Incident.Table.{Incident, Incidents}
use sre_blackboard.Ingest.Alert.{AlertStatus}
use sre_blackboard.Audit.Payload.{Payload, Reason, transition_payload}
use sre_blackboard.Audit.Log.{Entry, Log, append}
use sre_blackboard.Queue.{Queue, Job, Owned, ok, assert_fence}
use sre_blackboard.Remediation.Plan.{Risk, RemediationPlan}
use sre_blackboard.Remediation.Policy.{Verdict, Check, EvidenceRef}

pub record PlanRow : Type 0 where
  pub id : ℕ
  pub tenant_id : String
  pub incident_id : ℕ
  pub seq : ℕ
  pub proposed_by : String
  pub plan : RemediationPlan
  pub plan_hash : String
  pub verdict : Verdict
  pub risk : Option Risk
  pub checks : List Check
  pub expires_at : Option ℕ
  pub created_at : ℕ

pub record Approval : Type 0 where
  pub id : ℕ
  pub tenant_id : String
  pub incident_id : ℕ
  pub plan_id : ℕ
  pub plan_hash : String
  pub approver : String
  pub decision : String
  pub comment : String
  pub created_at : ℕ

pub record EvidenceRow : Type 0 where
  pub id : String
  pub incident_id : ℕ
  pub ref : EvidenceRef

-- A diagnosis on the blackboard: its incident, and its root causes with their confidence.
pub record DiagnosisRow : Type 0 where
  pub incident_id : ℕ
  pub root_causes : List (String × ℕ)

pub record AlertRow : Type 0 where
  pub tenant_id : String
  pub incident_id : Option ℕ
  pub fingerprint : String
  pub status : AlertStatus
  pub labels : List (String × String)
  pub annotations : List (String × String)
  pub starts_at : Option ℕ
  pub ends_at : Option ℕ

pub record Db : Type 0 where
  pub incidents : Incidents
  pub log : Log
  pub queue : Queue
  pub diagnoses : List DiagnosisRow
  pub evidence : List EvidenceRow
  pub plans : List PlanRow
  pub next_plan : ℕ
  pub approvals : List Approval
  pub next_approval : ℕ
  pub alerts : List AlertRow

-- The settings that these parts read.
pub record Settings : Type 0 where
  pub k8s_namespace : String
  pub remediation_targets : List String
  pub remediation_min_confidence : ℕ
  pub remediation_auto_max_risk : Risk
  pub remediation_change_window : String
  pub remediation_approval_ttl : ℕ
  pub queue_max_attempts : ℕ
  pub queue_aging_step : ℕ
  pub verify_settle : ℕ

-- What a transaction is given: the time, the settings, and the two SHA-256 digests of canonical
-- JSON, of an audit entry and of a plan.
pub record World : Type 0 where
  pub now : ℕ
  pub settings : Settings
  pub digest : String → Entry → String
  pub plan_hash : ℕ → ℕ → RemediationPlan → String

-- Why `decide` refuses.
pub data Refused : Type 0 where
  not_waiting : State → Refused
  no_plan_waiting plan_changed window_closed own_plan already_decided : Refused

pub data Failure : Type 0 where
  illegal : Illegal → Failure
  permanent_error cannot_open lease_lost : Failure
  stale_version : ℕ → Failure
  approval_refused : ℕ → Refused → Failure

pub data Outcome (A : Type 0) : Type 0 where
  done : A → Db → Outcome A
  raised : Failure → Outcome A

abbrev pub Tx : Type 0 → Type 0
Tx A = Db → Outcome A

abbrev pub pure : {A : Type 0} → A → Tx A
pure a db = done a db

abbrev pub raise : {A : Type 0} → Failure → Tx A
raise f db = raised f

infixl 5 ◌>>=◌ ◌>>◌
abbrev pub ◌>>=◌ : {A B : Type 0} → Tx A → (A → Tx B) → Tx B
◌>>=◌ m f db = elim (m db) [ done a db' ↦ f a db' | raised e ↦ raised e ]

abbrev pub ◌>>◌ : {A B : Type 0} → Tx A → Tx B → Tx B
m >> n = m >>= (λ _. n)

abbrev pub fenced : {A : Type 0} → Owned (Unit {0}) → Tx A → Tx A
fenced (ok _) m db = m db
fenced Owned.lease_lost m db = raised lease_lost

-- `JobContext.transaction`: a transaction that runs only while its worker still owns the job.
unfoldable pub transaction : {A : Type 0} → Job → Tx A → Tx A
unfolding assert_fence
transaction job m db = fenced (assert_fence job db.queue) m db

unfoldable pub audit : World → String → String → ℕ → String → Payload → Tx (Unit {0})
unfolding append
audit w actor event incident tenant payload db =
    let e : Entry = record {
      ts = w.now;
      tenant_id = some tenant;
      actor = actor;
      event = event;
      subject = incident;
      payload = payload;
    } in
    done tt (record db { log = (append w.digest e db.log).1 })

-- i.id = … AND i.state = … AND i.version = …
abbrev pub is_at : ℕ → State → ℕ → Incident → Bool
is_at id from version r = r.id == id && same_state r.state from && r.version == version

abbrev pub moved : ℕ → State → Incident → Incident
moved now to r = record r {
  state = to;
  version = suc r.version;
  updated_at = now;
  closed_at = if is_terminal to then some now else r.closed_at;
}

-- The UPDATE of `transition`; the row as it was, if one fits.
unfoldable pub update_at : ℕ → ℕ → State → State → ℕ → Db → Option Incident × Db
unfolding update_where find_where
update_at now id from to version db = (
  find_where (is_at id from version) db.incidents.rows,
  record db {
    incidents = record db.incidents {
      rows = update_where (is_at id from version) (moved now to) db.incidents.rows;
    };
  },
)

unfoldable pub transition : World → ℕ → State → State → ℕ → String → Reason → Tx ℕ
unfolding check_transition update_at audit
transition w id from to expected actor reason db =
    let (before, db') = update_at w.now id from to expected db in
    elim (check_transition from to) [
      | some e ↦ raised (illegal e)
      | none ↦ elim before [
        | none ↦ raised (stale_version id)
        | some r ↦
            (audit w actor "incident.transition" id r.tenant_id
                  (transition_payload from to (suc r.version) reason)
                >> pure (suc r.version))
              db'
      ]
    ]

-- `get`, for the callers of this model, which pass tenant_id=None.
unfoldable pub get : ℕ → Db → Option Incident
unfolding find_where
get id db = find_where (λ r. r.id == id) db.incidents.rows
