-- ===== src/Ingest/Flow.antt =====
-- app/ingest.py: `ingest` and its helpers, as a transaction.
use sre_blackboard.Common.{ℕ, String, Bool, true, false, Option, none, some, List, [], ◌∷◌, map}
use sre_blackboard.Incident.Table.{Incidents, NewIncident, is_open_for, returning, open_or_merge}
use sre_blackboard.Audit.Payload.{created_payload}
use sre_blackboard.Queue.{NewJob, incident_key, enqueue}
use sre_blackboard.Database.{Db, World, cannot_open, done, Tx, pure, raise, ◌>>=◌, ◌>>◌, audit}
use sre_blackboard.Ingest.Alert.{
  AlertStatus, firing, resolved, AlertmanagerAlert, AlertIdentity, identify, priority_of,
  sort_identified,
}

pub record IngestedAlert : Type 0 where
  pub fingerprint : String
  pub status : AlertStatus
  pub incident_id : Option ℕ
  pub created : Bool

abbrev pub incident_for : String → AlertIdentity → AlertmanagerAlert → NewIncident
incident_for tenant ident alert = record {
  tenant_id = tenant;
  fingerprint = ident.fingerprint;
  title = ident.title;
  service = ident.service;
  environment = ident.environment;
  priority = priority_of alert.labels;
  labels = alert.labels;
}

unfoldable pub enqueue_triage : World → String → ℕ → ℕ → Tx (Unit {0})
unfolding enqueue
enqueue_triage w tenant id priority db =
    done tt (record db { queue = (enqueue w.now job db.queue).1 })
  where
    job : NewJob
    job = record {
      tenant_id = tenant;
      incident_id = some id;
      kind = "triage";
      plan_id = none;
      idempotency_key = some (incident_key id "triage");
      priority = priority;
      max_attempts = w.settings.queue_max_attempts;
      aging_step = w.settings.queue_aging_step;
      delay = 0;
    }

-- `_on_incident_created`, without the trace context.
unfoldable pub on_created :
    World → String → String → ℕ → AlertIdentity → AlertmanagerAlert → Tx (Unit {0})
unfolding enqueue_triage audit
on_created w tenant actor id ident alert = do
  enqueue_triage w tenant id (priority_of alert.labels)
  audit w actor "incident.created" id tenant
      (created_payload ident.title ident.service ident.environment (priority_of alert.labels))

abbrev pub after_open :
    World
    → String
    → String
    → AlertIdentity
    → AlertmanagerAlert
    → Option (ℕ × Bool)
    → Tx (Option ℕ × Bool)
after_open w tenant actor ident alert none = raise cannot_open
after_open w tenant actor ident alert (some (id, false)) = pure (some id, false)
after_open w tenant actor ident alert (some (id, true)) = do
  on_created w tenant actor id ident alert
  pure (some id, true)

-- `between`: what other transactions commit between the statements of `open_or_merge`.
unfoldable pub open_for :
    World
    → (ℕ → Incidents → Incidents)
    → String
    → String
    → AlertIdentity
    → AlertmanagerAlert
    → Tx (Option ℕ × Bool)
unfolding open_or_merge on_created
open_for w between tenant actor ident alert db =
    let (out, t) = open_or_merge w.now (incident_for tenant ident alert) between db.incidents in
    after_open w tenant actor ident alert out (record db { incidents = t })

-- `_open_incident_id`
unfoldable pub open_incident_id : String → String → Db → Option ℕ
unfolding returning
open_incident_id tenant fingerprint db =
    returning (is_open_for tenant fingerprint) db.incidents.rows

abbrev pub match_alert :
    World
    → (ℕ → Incidents → Incidents)
    → String
    → String
    → AlertIdentity
    → AlertmanagerAlert
    → AlertStatus
    → Tx (Option ℕ × Bool)
match_alert w between tenant actor ident alert firing db =
    open_for w between tenant actor ident alert db
match_alert w between tenant actor ident alert resolved db =
    done (open_incident_id tenant ident.fingerprint db, false) db

abbrev pub ends_of : AlertmanagerAlert → AlertStatus → Option ℕ
ends_of alert firing = none
ends_of alert resolved = alert.ends_at

-- `_record_alert`, and the result.
unfoldable pub record_alert :
    String → AlertIdentity → AlertmanagerAlert → Option ℕ × Bool → Tx IngestedAlert
record_alert tenant ident alert (id, created) db =
    done
      (record {
        fingerprint = ident.fingerprint;
        status = alert.status;
        incident_id = id;
        created = created;
      })
      (record db {
        alerts =
            record {
              tenant_id = tenant;
              incident_id = id;
              fingerprint = ident.fingerprint;
              status = alert.status;
              labels = alert.labels;
              annotations = alert.annotations;
              starts_at = alert.starts_at;
              ends_at = ends_of alert alert.status;
            }
            ∷ db.alerts;
      })

unfoldable pub ingest_one :
    World
    → (ℕ → Incidents → Incidents)
    → String
    → String
    → AlertIdentity × AlertmanagerAlert
    → Tx IngestedAlert
unfolding open_for open_incident_id record_alert
ingest_one w between tenant actor (ident, alert) =
    match_alert w between tenant actor ident alert alert.status >>= record_alert tenant ident alert

unfoldable pub ingest_all :
    World
    → (ℕ → Incidents → Incidents)
    → String
    → String
    → List (AlertIdentity × AlertmanagerAlert)
    → Tx (List IngestedAlert)
unfolding ingest_one
ingest_all w between tenant actor [] = pure []
ingest_all w between tenant actor (x ∷ xs) = do
  r ← ingest_one w between tenant actor x
  rs ← ingest_all w between tenant actor xs
  pure (r ∷ rs)

unfoldable pub ingest :
    World
    → (String → String → String → String)
    → (ℕ → Incidents → Incidents)
    → String
    → String
    → List AlertmanagerAlert
    → Tx (List IngestedAlert)
unfolding identify sort_identified ingest_all
ingest w hash3 between tenant actor alerts =
    ingest_all w between tenant actor
      (sort_identified (map (λ a. (identify hash3 a.labels, a)) alerts))
