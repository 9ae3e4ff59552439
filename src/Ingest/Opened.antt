-- ===== src/Ingest/Opened.antt =====
-- What an ingested alert leaves in the database.
use sre_blackboard.Common.{
  ℕ, ◌≡◌, refl, sym, ◌∙◌, subst, String, Bool, true, false, Option, none, some, any, ==_refl,
  eq_refl, arith, Bool-cases, inl, inr,
}
use sre_blackboard.Incident.Table.{Incidents, open_or_merge}
use sre_blackboard.Incident.Merge.{UniqueOpen, Found, Told, open_or_merge-Told}
use sre_blackboard.Queue.{Queue, incident_key, key_conflict, enqueue}
use sre_blackboard.Database.{Db, World, done, pure, audit}
use sre_blackboard.Database.Done.{bind-done}
use sre_blackboard.Ingest.Alert.{AlertStatus, firing, resolved, AlertmanagerAlert, AlertIdentity}
use sre_blackboard.Ingest.Flow.{
  IngestedAlert, incident_for, enqueue_triage, on_created, after_open, open_for, open_incident_id,
  match_alert, record_alert, ingest_one,
}

-- A triage job of the incident is in the queue, whatever has become of it.
abbrev pub HasTriage : ℕ → Queue → Type 0
HasTriage id q =
    any (λ r. key_conflict (some (incident_key id "triage")) r.idempotency_key) q.rows ≡ true

on_created-HasTriage :
    (w : World) (tenant actor : String) (id : ℕ) (ident : AlertIdentity) (alert : AlertmanagerAlert)
    (db db' : Db)
    → on_created w tenant actor id ident alert db ≡ done tt db'
    → (db'.incidents ≡ db.incidents) × HasTriage id db'.queue
unfolding on_created enqueue_triage audit enqueue
on_created-HasTriage w tenant actor id ident alert db db' h =
    elim (Bool-cases
      (any (λ r. key_conflict (some (incident_key id "triage")) r.idempotency_key) db.queue.rows)) [
        | inl e ↦ (ground arith, ground arith)
        | inr e ↦ (ground arith, ground (arith, ==_refl id, eq_refl "triage"))
      ]

-- What `ingest` knows of an alert's incident after it was opened, merged or looked up.
pub record Matched (tenant : String) (ident : AlertIdentity) (alert : AlertmanagerAlert)
    (s : AlertStatus) (out : Option ℕ × Bool) (db' : Db) : Type 0 where
  pub unique : UniqueOpen db'.incidents.rows
  pub opened :
      s ≡ firing
      → (id : ℕ) × (out.0 ≡ some id) × Found (incident_for tenant ident alert) id db'.incidents.rows
  pub triaged : out.1 ≡ true → (id : ℕ) × (out.0 ≡ some id) × HasTriage id db'.queue

module _ (w : World) (between : ℕ → Incidents → Incidents) (tenant actor : String)
    (keeps : (n : ℕ) (t : Incidents) → UniqueOpen t.rows → UniqueOpen (between n t).rows) where
  after_open-Matched :
      (ident : AlertIdentity) (alert : AlertmanagerAlert) (o : Option (ℕ × Bool)) (db : Db)
      (out : Option ℕ × Bool) (db' : Db)
      → UniqueOpen db.incidents.rows
      → Told (incident_for tenant ident alert) o db.incidents.rows
      → after_open w tenant actor ident alert o db ≡ done out db'
      → Matched tenant ident alert firing out db'
  after_open-Matched ident alert none db out db' u t h = absurd (ground arith)
  after_open-Matched ident alert (some (id, false)) db out db' u t h =
      let same : ((some id, false) ≡ out) × (db ≡ db') = ground arith in
      subst (λ d. Matched tenant ident alert firing out d) same.1
        (subst (λ o. Matched tenant ident alert firing o db) same.0
          (record {
            unique = u;
            opened = (λ _. (id, refl, t));
            triaged = (λ e. absurd (ground arith));
          }))
  after_open-Matched ident alert (some (id, true)) db out db' u t h =
      let (_, mid, c, rest) =
        bind-done (on_created w tenant actor id ident alert) (λ _. pure (some id, true)) db out db'
          h in
      let (i, q) = on_created-HasTriage w tenant actor id ident alert db mid c in
      let same : ((some id, true) ≡ out) × (mid ≡ db') = ground arith in
      subst (λ d. Matched tenant ident alert firing out d) same.1
        (subst (λ o. Matched tenant ident alert firing o mid) same.0
          (record {
            unique = rw i u;
            opened = (λ _. (id, refl, rw i t));
            triaged = (λ _. (id, refl, q));
          }))

  match_alert-Matched :
      (ident : AlertIdentity) (alert : AlertmanagerAlert) (s : AlertStatus) (db : Db)
      (out : Option ℕ × Bool) (db' : Db)
      → UniqueOpen db.incidents.rows
      → match_alert w between tenant actor ident alert s db ≡ done out db'
      → Matched tenant ident alert s out db'
  unfolding open_for
  match_alert-Matched ident alert firing db out db' u h =
      let a = incident_for tenant ident alert in
      let (u', t) = open_or_merge-Told w.now a between keeps db.incidents u in
      after_open-Matched ident alert (open_or_merge w.now a between db.incidents).0
        (record db { incidents = (open_or_merge w.now a between db.incidents).1 }) out db' u' t h
  match_alert-Matched ident alert resolved db out db' u h =
      let same : ((open_incident_id tenant ident.fingerprint db, false) ≡ out) × (db ≡ db') =
        ground arith in
      record {
        unique = subst (λ d. UniqueOpen d.incidents.rows) same.1 u;
        opened = (λ e. absurd (ground arith));
        triaged = (λ e. absurd (ground arith));
      }

  -- Whatever other transactions commit meanwhile, as long as they keep the unique index: an alert that
  -- is ingested leaves at most one open incident for each key; a firing alert's result names the one
  -- that is open for it; and whenever an incident was created, its triage job is in the queue.
  pub ingest_one-Matched :
      (ident : AlertIdentity) (alert : AlertmanagerAlert) (db : Db) (r : IngestedAlert) (db' : Db)
      → UniqueOpen db.incidents.rows
      → ingest_one w between tenant actor (ident, alert) db ≡ done r db'
      → Matched tenant ident alert r.status (r.incident_id, r.created) db'
        × (r.status ≡ alert.status)
  unfolding ingest_one record_alert
  ingest_one-Matched ident alert db r db' u h =
      let ((id, created), mid, run, rest) =
        bind-done (match_alert w between tenant actor ident alert alert.status)
          (record_alert tenant ident alert) db r db' h in
      let m = match_alert-Matched ident alert alert.status db (id, created) mid u run in
      let st : r.status ≡ alert.status = ground arith in
      let ri : r.incident_id ≡ id = ground arith in
      let rc : r.created ≡ created = ground arith in
      let inc : db'.incidents ≡ mid.incidents = ground arith in
      let jobs : db'.queue ≡ mid.queue = ground arith in
      (
        record {
          unique = rw inc (m.unique);
          opened = (λ e. let (k, a, f) = m.opened (sym st ∙ e) in (k, ri ∙ a, rw inc f));
          triaged = (λ e. let (k, a, q) = m.triaged (sym rc ∙ e) in (k, ri ∙ a, rw jobs q));
        },
        st,
      )
