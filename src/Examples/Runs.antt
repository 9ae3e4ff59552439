-- ===== src/Examples/Runs.antt =====
-- Small runs of the executor, of the verification loop, of the citation check and of a breaker.
use sre_blackboard.Common.{
  ℕ, ◌+◌, ◌≤◌, ◌≡◌, refl, String, Bool, true, false, none, some, List, [], ◌∷◌, length, arith,
}
use sre_blackboard.Incident.State.{executing}
use sre_blackboard.Remediation.Plan.{Action, restart_deployment}
use sre_blackboard.Executor.Job.{Writer, applied, run_actions, row_of}
use sre_blackboard.Executor.Once.{Attempt, times_sent, attempt_all, untouched, sent_at_most_once}
use sre_blackboard.Executor.Complete.{Completes, run_actions-Completes}
use sre_blackboard.Database.{Db, done}
use sre_blackboard.Worker.Verify.{SliCheck, Sample, watch}
use sre_blackboard.Worker.Streak.{Verified, watch-Verified, watch_decides}
use sre_blackboard.Agents.Citations.{Finding, fact, logs, check_report}
use sre_blackboard.Agents.Cited.{WellCited, Sifted, check_report-Sifted}
use sre_blackboard.Tools.Resilience.{Event, checked, recorded}
use sre_blackboard.Common.{update_where}
use sre_blackboard.Database.{Outcome, raised}
use sre_blackboard.Remediation.Plan.{lookup}
use sre_blackboard.Incident.Table.{Incidents, open_or_merge, attempts, insert, merge, returning}
use sre_blackboard.Incident.Merge.{UniqueOpen}
use sre_blackboard.Ingest.Alert.{
  AlertmanagerAlert, AlertIdentity, firing, priority_of, same_fold, label,
}
use sre_blackboard.Ingest.Flow.{IngestedAlert, ingest_one, open_for, record_alert}
use sre_blackboard.Ingest.Opened.{Matched, ingest_one-Matched}
use sre_blackboard.Examples.Checkout.{world, incident_at, database}

abbrev restart_checkout : Action
restart_checkout =
    restart_deployment (record { deployment = "checkout"; evidence_ids = []; reason = "leak" })

abbrev taking : Writer
taking = record { prepare = λ i a. some false; patch = λ i a. applied }

-- The first attempt crashes after the patch; the second finds the row.
abbrev two_attempts : List Attempt
two_attempts =
    record {
      writer = taking;
      executor = "e1";
      plan_id = 4;
      actions = restart_checkout ∷ [];
      budget = 2;
    }
    ∷ record {
      writer = taking;
      executor = "e2";
      plan_id = 4;
      actions = restart_checkout ∷ [];
      budget = 9;
    }
    ∷ []

sent_at_most_once_example : times_sent 4 0 (attempt_all two_attempts untouched).sent ≤ 1
sent_at_most_once_example = sent_at_most_once two_attempts 4 0

no_row : (j : ℕ) → 0 ≤ j → row_of 4 j untouched ≡ none
unfolding row_of
no_row j l = refl

run_actions-Completes_example :
    Completes 4
      (restart_checkout ∷ [])
      0
      untouched
      (run_actions taking "e1" 4 3 (restart_checkout ∷ []) 0 untouched)
run_actions-Completes_example =
    run_actions-Completes taking "e1" 4 3 (restart_checkout ∷ []) 0 untouched
      (record { prepares = λ i a. refl; patches = λ i a. refl }) no_row (omega arith)

abbrev executing_db : Db
executing_db = database (incident_at executing 9)

abbrev latency : SliCheck
latency = record { name = "p95 over 1m"; healthy_below = 1000; unit = "ms" }

abbrev readings : List Sample
readings =
    record { value = none; at = 10 }
    ∷ record { value = some 900; at = 20 }
    ∷ record { value = some 800; at = 30 }
    ∷ []

is_verified : watch latency 2 100 0 readings ≡ some true
unfolding watch
is_verified = refl

watch-Verified_example : Verified latency 2 0 readings
watch-Verified_example = watch-Verified latency 2 100 0 readings is_verified

watch_decides_example : (ok : Bool) × (watch latency 9 25 0 readings ≡ some ok)
watch_decides_example = watch_decides latency 9 25 0 readings refl

abbrev known : List (String × String)
known = ("ev_1", "logs_search") ∷ ("ev_2", "kb_search") ∷ []

abbrev finding : List String → Finding
finding ids = record {
  statement = "the pods run out of memory";
  kind = fact;
  signal = logs;
  service = none;
  evidence_ids = ids;
  confidence = 9000;
}

abbrev findings : List Finding
findings = finding ("ev_1" ∷ []) ∷ finding ("ev_2" ∷ []) ∷ []

check_report-Sifted_example :
    Sifted
      (WellCited known ("ev_1" ∷ "ev_2" ∷ []))
      findings
      (check_report findings known ("ev_1" ∷ "ev_2" ∷ [])).value
      (check_report findings known ("ev_1" ∷ "ev_2" ∷ [])).problems
    × (length (check_report findings known ("ev_1" ∷ "ev_2" ∷ [])).value
          + (check_report findings known ("ev_1" ∷ "ev_2" ∷ [])).dropped
        ≡ length findings)
check_report-Sifted_example = check_report-Sifted findings known ("ev_1" ∷ "ev_2" ∷ [])

-- Two failures, and a check that lets a trial through; the trial fails too.
abbrev history : List Event
history = recorded 61 false ∷ checked 60 ∷ recorded 30 false ∷ recorded 20 false ∷ checked 10 ∷ []

abbrev alert : AlertmanagerAlert
alert = record {
  status = firing;
  labels = ("alertname", "Slow") ∷ ("service", "checkout") ∷ ("priority", "p1") ∷ [];
  annotations = [];
  starts_at = some 900;
  ends_at = none;
}

abbrev slow_checkout : AlertIdentity
slow_checkout = record {
  title = "Slow";
  service = "checkout";
  environment = "default";
  fingerprint = "fp";
}

-- No other transaction commits.
abbrev alone : ℕ → Incidents → Incidents
alone n t = t

abbrev ingested : IngestedAlert
ingested = record { fingerprint = "fp"; status = firing; incident_id = some 7; created = false }

abbrev or_before : {A : Type 0} → Outcome A → Db
or_before (done a db) = db
or_before (raised f) = executing_db

abbrev ingested_db : Db
ingested_db = or_before (ingest_one world alone "acme" "ingest" (slow_checkout, alert) executing_db)

ingests :
    ingest_one world alone "acme" "ingest" (slow_checkout, alert) executing_db
    ≡ done ingested ingested_db
unfolding ingest_one open_for record_alert open_or_merge attempts insert merge returning
    update_where priority_of same_fold label lookup
ingests = refl

one_open-UniqueOpen : UniqueOpen executing_db.incidents.rows
one_open-UniqueOpen = ((λ _. refl), tt)

ingest_one-Matched_example :
    Matched "acme" slow_checkout alert firing (some 7, false) ingested_db × (firing ≡ firing)
ingest_one-Matched_example =
    ingest_one-Matched world alone "acme" "ingest" (λ n t h. h) slow_checkout alert executing_db
      ingested ingested_db one_open-UniqueOpen ingests
