-- ===== src/Audit/Log.antt =====
-- app/db/audit.py: `append` and `verify`, on the rows of the table audit_log, newest first.
use sre_blackboard.Common.{
  ℕ, suc, String, Bool, true, false, not, Option, none, some, List, [], ◌∷◌, ◌++◌, str_eq,
  if◌then◌else◌, or_else,
}
use sre_blackboard.Audit.Payload.{Payload}

pub record Entry : Type 0 where
  pub ts : ℕ
  pub tenant_id : Option String
  pub actor : String
  pub event : String
  pub subject : ℕ  -- the incident
  pub payload : Payload

pub record AuditRow : Type 0 where
  pub seq : ℕ
  pub entry : Entry
  pub prev_hash : String
  pub hash : String

pub record Log : Type 0 where
  pub rows : List AuditRow
  pub next_seq : ℕ

pub record Verification : Type 0 where
  pub ok : Bool
  pub checked : ℕ
  pub first_bad_seq : Option ℕ
  pub reason : String

-- Verification(True, checked)
abbrev pub accepted : ℕ → Verification
accepted checked = record { ok = true; checked = checked; first_bad_seq = none; reason = "" }

abbrev pub genesis : String
genesis = "0000000000000000000000000000000000000000000000000000000000000000"

-- SELECT hash FROM audit_log ORDER BY seq DESC LIMIT 1; None is falsy, as "" is.
abbrev newest_hash : List AuditRow → String
newest_hash [] = ""
newest_hash (r ∷ rs) = r.hash

-- `prev or GENESIS`
abbrev pub prev_hash_of : List AuditRow → String
prev_hash_of rs = or_else (newest_hash rs) genesis

-- ORDER BY seq
unfoldable pub in_order : List AuditRow → List AuditRow
in_order [] = []
in_order (r ∷ rs) = in_order rs ++ r ∷ []

-- `digest`: the SHA-256 of the canonical JSON of the previous hash and the entry.
module _ (digest : String → Entry → String) where
  unfoldable pub append : Entry → Log → String × Log
  append e log =
      let prev = prev_hash_of log.rows in
      let hash = digest prev e in
      let row : AuditRow = record {
        seq = log.next_seq;
        entry = e;
        prev_hash = prev;
        hash = hash;
      } in
      (hash, record { rows = row ∷ log.rows; next_seq = suc log.next_seq })

  unfoldable pub verify_rows : String → ℕ → List AuditRow → Verification
  verify_rows prev checked [] = accepted checked
  verify_rows prev checked (r ∷ rs) =
      let rest = verify_rows r.hash (suc checked) rs in
      if not (str_eq r.prev_hash prev)
      then bad "prev_hash does not match the previous row"
      else if not (str_eq r.hash (digest prev r.entry))
      then bad "row content does not match its hash"
      else rest
    where
      bad : String → Verification
      bad why = record { ok = false; checked = checked; first_bad_seq = some r.seq; reason = why }

  unfoldable pub verify : Log → Verification
  unfolding verify_rows
  verify log = verify_rows genesis 0 (in_order log.rows)
