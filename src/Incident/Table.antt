-- ===== src/Incident/Table.antt =====
-- app/db/incidents.py, app/db/schema.py: the `incidents` table, and the two statements of
-- `open_or_merge`. An id is a counter in place of a random UUID; times are microseconds.
use sre_blackboard.Common.{
  ℕ, zero, suc, ◌+◌, ◌-◌, ◌*◌, min, String, Bool, true, false, ◌&&◌, Option, none, some, List, [],
  ◌∷◌, str_eq, if◌then◌else◌, any, update_where,
}
use sre_blackboard.Incident.State.{State, received}

pub record Incident : Type 0 where
  pub id : ℕ
  pub tenant_id : String
  pub fingerprint : String
  pub title : String
  pub service : String
  pub environment : String
  pub priority : ℕ
  pub state : State
  pub version : ℕ
  pub alert_count : ℕ
  pub labels : List (String × String)
  pub created_at : ℕ
  pub updated_at : ℕ
  pub closed_at : Option ℕ

pub record Incidents : Type 0 where
  pub rows : List Incident
  pub next_id : ℕ

-- The arguments of `open_or_merge`.
pub record NewIncident : Type 0 where
  pub tenant_id : String
  pub fingerprint : String
  pub title : String
  pub service : String
  pub environment : String
  pub priority : ℕ
  pub labels : List (String × String)

-- closed_at IS NULL
abbrev pub is_open : Incident → Bool
is_open r = elim (r.closed_at) [ none ↦ true | some t ↦ false ]

-- tenant_id = … AND fingerprint = … AND closed_at IS NULL
abbrev pub is_open_for : String → String → Incident → Bool
is_open_for tenant fingerprint r =
    str_eq r.tenant_id tenant && str_eq r.fingerprint fingerprint && is_open r

-- The id of the row that a statement returns; the unique index leaves at most one.
unfoldable pub returning : (Incident → Bool) → List Incident → Option ℕ
returning p [] = none
returning p (r ∷ rs) = if p r then some r.id else returning p rs

-- INSERT … ON CONFLICT (tenant_id, fingerprint) WHERE closed_at IS NULL DO NOTHING RETURNING id
unfoldable pub insert : ℕ → NewIncident → Incidents → Option ℕ × Incidents
insert now a t =
    if any (is_open_for a.tenant_id a.fingerprint) t.rows
    then (none, t)
    else (some t.next_id, record { rows = row ∷ t.rows; next_id = suc t.next_id })
  where
    row : Incident
    row = record {
      id = t.next_id;
      tenant_id = a.tenant_id;
      fingerprint = a.fingerprint;
      title = a.title;
      service = a.service;
      environment = a.environment;
      priority = a.priority;
      state = received;
      version = 1;
      alert_count = 1;
      labels = a.labels;
      created_at = now;
      updated_at = now;
      closed_at = none;
    }

abbrev pub merged : ℕ → ℕ → Incident → Incident
merged now priority r = record r {
  alert_count = r.alert_count + 1;
  priority = min r.priority priority;
  updated_at = now;
}

-- UPDATE incidents SET alert_count = …, priority = LEAST(…) WHERE … RETURNING id
unfoldable pub merge : ℕ → NewIncident → Incidents → Option ℕ × Incidents
unfolding update_where returning
merge now a t =
    let matches = is_open_for a.tenant_id a.fingerprint in
    (
      returning matches t.rows,
      record t { rows = update_where matches (merged now a.priority) t.rows },
    )

-- The loop of `open_or_merge`: `between n` is what other transactions commit before its statement
-- that may have `n` statements after it. `none`: the RuntimeError.
unfoldable pub attempts :
    ℕ → NewIncident → (ℕ → Incidents → Incidents) → ℕ → Incidents → Option (ℕ × Bool) × Incidents
attempts now a between zero t = (none, t)
attempts now a between (suc k) t =
    let (inserted, u) = insert now a t in
    let (found, v) = merge now a (between (2 * k) u) in
    let again = attempts now a between k (between (2 * k - 1) v) in
    elim inserted [
      | some id ↦ (some (id, true), u)
      | none ↦ elim found [ some id ↦ (some (id, false), v) | none ↦ again ]
    ]

unfoldable pub open_or_merge :
    ℕ → NewIncident → (ℕ → Incidents → Incidents) → Incidents → Option (ℕ × Bool) × Incidents
unfolding attempts
open_or_merge now a between t = attempts now a between 3 t
