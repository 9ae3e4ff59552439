-- ===== src/Examples/History.antt =====
-- An incident's moves, alerts that open or join an incident, and a small audit log.
use sre_blackboard.Common.{
  ℕ, ◌≡◌, ◌≢◌, refl, sym, ap, ◌∙◌, String, true, ◌++◌, some, [], ◌∷◌, map, first, later,
}
use sre_blackboard.Incident.State.{triaged, investigating, check_transition}
use sre_blackboard.Incident.Walk.{Walk, start, move, visited, walk-needed}
use sre_blackboard.Incident.Table.{Incidents, NewIncident, insert}
use sre_blackboard.Incident.Merge.{UniqueOpen}
use sre_blackboard.Audit.Payload.{empty}
use sre_blackboard.Audit.Log.{
  Entry, AuditRow, Log, accepted, genesis, in_order, append, verify_rows, verify,
}
use sre_blackboard.Audit.Chain.{Reports, verify-Reports, append-verify, verify_prefix}
use sre_blackboard.Audit.Tamper.{content, tip, CollisionFree, verified_unique}

to_investigating : Walk investigating
unfolding check_transition
to_investigating = move investigating (move triaged start refl) refl

walk-needed_example : visited to_investigating triaged ≡ true
walk-needed_example = walk-needed to_investigating triaged refl

abbrev alert : NewIncident
alert = record {
  tenant_id = "acme";
  fingerprint = "fp";
  title = "checkout is slow";
  service = "checkout";
  environment = "prod";
  priority = 1;
  labels = [];
}

abbrev no_incidents : Incidents
no_incidents = record { rows = []; next_id = 1 }

abbrev one_open : Incidents
one_open = (insert 100 alert no_incidents).1

-- Another transaction that opens the incident first.
abbrev racing : ℕ → Incidents → Incidents
racing n t = (insert 101 alert t).1

one_open-UniqueOpen : UniqueOpen one_open.rows
unfolding insert
one_open-UniqueOpen = ((λ _. refl), tt)

-- A digest that the example's few rows do not make collide.
abbrev digest : String → Entry → String
digest prev e = String.◌∷◌ "h" e.actor

abbrev entry_by : String → Entry
entry_by actor = record {
  ts = 100;
  tenant_id = some "acme";
  actor = actor;
  event = "incident.transition";
  subject = 7;
  payload = empty;
}

abbrev no_rows : Log
no_rows = record { rows = []; next_seq = 1 }

abbrev log : Log
log = (append digest (entry_by "ana") no_rows).1

verify-Reports_example : Reports digest genesis 0 (in_order log.rows) (verify digest log)
verify-Reports_example = verify-Reports digest log

digest_full : (p : String) (e : Entry) → digest p e ≢ ""
digest_full p e h = cc

digest_proper : (p : String) (e : Entry) → digest p e ≢ genesis
digest_proper p e h = cc

no_rows-verify : verify digest no_rows ≡ accepted 0
unfolding verify verify_rows in_order
no_rows-verify = refl

append-verify_example : verify digest (append digest (entry_by "ana") no_rows).1 ≡ accepted 1
append-verify_example = append-verify digest digest_full (entry_by "ana") no_rows 0 no_rows-verify

abbrev second : AuditRow
second = record { seq = 2; entry = entry_by "bob"; prev_hash = "hana"; hash = "hbob" }

two_verify : verify digest (record { rows = (second ∷ []) ++ log.rows; next_seq = 3 }) ≡ accepted 2
unfolding verify verify_rows in_order append
two_verify = refl

verify_prefix_example : verify digest (record { rows = log.rows; next_seq = 2 }) ≡ accepted 1
unfolding append
verify_prefix_example = verify_prefix digest log.rows (second ∷ []) 3 2 2 two_verify

-- The first row again, under another number.
abbrev forged : Log
forged = record log { rows = map (λ (r : AuditRow). record r { seq = 9 }) log.rows }

free : CollisionFree digest log.rows forged.rows
unfolding append
free r s (first a) (first b) e = (
  ap (λ x. x.prev_hash) (sym a) ∙ ap (λ x. x.prev_hash) b,
  ap (λ x. x.entry) (sym a) ∙ ap (λ x. x.entry) b,
)
free r s (later m) n e = elim m [ ]
free r s (first a) (later n) e = elim n [ ]

log_ok : (verify digest log).ok ≡ true
unfolding verify verify_rows in_order append
log_ok = refl

forged_ok : (verify digest forged).ok ≡ true
unfolding verify verify_rows in_order append
forged_ok = refl

same_tip : tip log.rows ≡ tip forged.rows
unfolding append
same_tip = refl

verified_unique_example : map content log.rows ≡ map content forged.rows
verified_unique_example =
    verified_unique digest digest_proper log forged free log_ok forged_ok same_tip
