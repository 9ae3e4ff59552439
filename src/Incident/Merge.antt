-- ===== src/Incident/Merge.antt =====
-- app/db/incidents.py: `open_or_merge` under any interference by other transactions.
use sre_blackboard.Common.{
  ℕ, zero, suc, ◌-◌, ◌*◌, ◌≡◌, refl, String, Bool, true, false, not, Option, none, some, List, [],
  ◌∷◌, any, update_where, arith, Among, first, later, Bool-cases, Option-cases, inl, inr, eq_refl,
}
use sre_blackboard.Incident.Table.{
  Incident, Incidents, NewIncident, is_open, is_open_for, returning, insert, merged, merge,
  attempts, open_or_merge,
}

-- The unique index: of each tenant and fingerprint, at most one row is open.
abbrev pub UniqueOpen : List Incident → Type 0
UniqueOpen [] = Unit
UniqueOpen (r ∷ rs) =
    (is_open r ≡ true → any (is_open_for r.tenant_id r.fingerprint) rs ≡ false) × UniqueOpen rs

-- An update that moves no incident to another key, and reopens none.
abbrev pub Keeps : (Incident → Incident) → Type 0
Keeps f =
    (r : Incident)
    → ((f r).tenant_id ≡ r.tenant_id)
      × ((f r).fingerprint ≡ r.fingerprint)
      × (is_open r ≡ false → is_open (f r) ≡ false)

any-update_where :
    (tenant fingerprint : String) (p : Incident → Bool) (f : Incident → Incident)
    → Keeps f
    → (rs : List Incident) → any (is_open_for tenant fingerprint) rs ≡ false
    → any (is_open_for tenant fingerprint) (update_where p f rs) ≡ false
unfolding update_where
any-update_where tenant fingerprint p f keeps [] h = refl
any-update_where tenant fingerprint p f keeps (r ∷ rs) h =
    let (t, g, c) = keeps r in
    ground (arith, t, g, c, any-update_where tenant fingerprint p f keeps rs)

pub update-UniqueOpen :
    (p : Incident → Bool) (f : Incident → Incident)
    → Keeps f
    → (rs : List Incident) → UniqueOpen rs
    → UniqueOpen (update_where p f rs)
unfolding update_where
update-UniqueOpen p f keeps [] h = tt
update-UniqueOpen p f keeps (r ∷ rs) (h, hs) = (
  elim (Bool-cases (p r)) [
    | inl e ↦ rw e (λ o.
        let (t, g, c) = keeps r in
        rw (t, g) (any-update_where r.tenant_id r.fingerprint p f keeps rs (h (ground (arith, c)))))
    | inr e ↦ rw e (λ o. any-update_where r.tenant_id r.fingerprint p f keeps rs (h o))
  ],
  update-UniqueOpen p f keeps rs hs,
)

-- The open row of a tenant and fingerprint, with its id.
abbrev pub Found : NewIncident → ℕ → List Incident → Type 0
Found a id rs =
    (r : Incident) × Among r rs × (r.id ≡ id) × (is_open_for a.tenant_id a.fingerprint r ≡ true)

returning-none :
    (p : Incident → Bool) (rs : List Incident) → any p rs ≡ false → returning p rs ≡ none
unfolding returning
returning-none p [] h = refl
returning-none p (r ∷ rs) h = ground (arith, returning-none p rs)

returning-some :
    (p : Incident → Bool) (rs : List Incident)
    → any p rs ≡ true
    → (r : Incident) × Among r rs × (p r ≡ true) × (returning p rs ≡ some r.id)
unfolding returning
returning-some p [] h = absurd (ground arith)
returning-some p (r ∷ rs) h = elim (Bool-cases (p r)) [
  | inl e ↦ (r, first refl, e, rw e refl)
  | inr e ↦
      let (x, m, px, found) = returning-some p rs (ground arith) in (x, later m, px, rw e found)
]

Among-update_where :
    (p : Incident → Bool) (f : Incident → Incident) (rs : List Incident) (r : Incident)
    → Among r rs
    → p r ≡ true
    → Among (f r) (update_where p f rs)
unfolding update_where
Among-update_where p f [] r m h = elim m [ ]
Among-update_where p f (x ∷ rs) r (first e) h = first (rw (e, h) refl)
Among-update_where p f (x ∷ rs) r (later m) h = later (Among-update_where p f rs r m h)

insert-UniqueOpen :
    (now : ℕ) (a : NewIncident) (t : Incidents)
    → UniqueOpen t.rows
    → UniqueOpen (insert now a t).1.rows
unfolding insert
insert-UniqueOpen now a t h =
    elim (Bool-cases (any (is_open_for a.tenant_id a.fingerprint) t.rows)) [
      | inl e ↦ rw (e, insert) h
      | inr e ↦ rw (e, insert) ((λ _. e), h)
    ]

merged-Keeps : (now priority : ℕ) → Keeps (merged now priority)
merged-Keeps now priority r = (refl, refl, (λ h. h))

merge-UniqueOpen :
    (now : ℕ) (a : NewIncident) (t : Incidents)
    → UniqueOpen t.rows
    → UniqueOpen (merge now a t).1.rows
unfolding merge
merge-UniqueOpen now a t h =
    update-UniqueOpen _ (merged now a.priority) (merged-Keeps now a.priority) t.rows h

insert-Found :
    (now : ℕ) (a : NewIncident) (t : Incidents) (id : ℕ)
    → (insert now a t).0 ≡ some id
    → Found a id (insert now a t).1.rows
unfolding insert
insert-Found now a t id h = elim (Bool-cases (any (is_open_for a.tenant_id a.fingerprint) t.rows)) [
  | inl e ↦ absurd (ground arith)
  | inr e ↦
      rw (e, insert)
        (_, first refl, ground arith, ground (arith, eq_refl a.tenant_id, eq_refl a.fingerprint))
]

merge-Found :
    (now : ℕ) (a : NewIncident) (t : Incidents) (id : ℕ)
    → (merge now a t).0 ≡ some id
    → Found a id (merge now a t).1.rows
unfolding merge
merge-Found now a t id h =
    let p = is_open_for a.tenant_id a.fingerprint in
    elim (Bool-cases (any p t.rows)) [
      | inl e ↦
          let (r, m, pr, found) = returning-some p t.rows e in
          (
            merged now a.priority r,
            Among-update_where p (merged now a.priority) t.rows r m pr,
            ground arith,
            pr,
          )
      | inr e ↦ absurd (ground (arith, returning-none p t.rows))
    ]

-- What a caller is told: the id of the one incident that is open for the alert.
abbrev pub Told : NewIncident → Option (ℕ × Bool) → List Incident → Type 0
Told a none rs = Unit
Told a (some (id, created)) rs = Found a id rs

attempts-Told :
    (now : ℕ) (a : NewIncident) (between : ℕ → Incidents → Incidents)
    → ((n : ℕ) (t : Incidents) → UniqueOpen t.rows → UniqueOpen (between n t).rows)
    → (k : ℕ) (t : Incidents) → UniqueOpen t.rows
    → UniqueOpen (attempts now a between k t).1.rows
      × Told a (attempts now a between k t).0 (attempts now a between k t).1.rows
unfolding attempts
attempts-Told now a between keeps zero t h = (h, tt)
attempts-Told now a between keeps (suc k) t h =
    let u = (insert now a t).1 in
    let hu = insert-UniqueOpen now a t h in
    let hm = keeps (2 * k) u hu in
    let hv = merge-UniqueOpen now a (between (2 * k) u) hm in
    let v = (merge now a (between (2 * k) u)).1 in
    elim (Option-cases (insert now a t).0) [
      | inr (id, e) ↦ rw (e, attempts) (hu, insert-Found now a t id e)
      | inl e ↦ elim (Option-cases (merge now a (between (2 * k) u)).0) [
        | inr (id, f) ↦ rw (e, f, attempts) (hv, merge-Found now a (between (2 * k) u) id f)
        | inl f ↦
            rw (e, f, attempts)
              (attempts-Told now a between keeps k (between (2 * k - 1) v) (keeps (2 * k - 1) v hv))
      ]
    ]

-- Whatever other transactions commit between its statements, as long as they keep the unique
-- index, `open_or_merge` leaves at most one open incident for each tenant and fingerprint, and if
-- it returns an id then this is the id of the open incident of the alert.
pub open_or_merge-Told :
    (now : ℕ) (a : NewIncident) (between : ℕ → Incidents → Incidents)
    → ((n : ℕ) (t : Incidents) → UniqueOpen t.rows → UniqueOpen (between n t).rows)
    → (t : Incidents) → UniqueOpen t.rows
    → UniqueOpen (open_or_merge now a between t).1.rows
      × Told a (open_or_merge now a between t).0 (open_or_merge now a between t).1.rows
unfolding open_or_merge
open_or_merge-Told now a between keeps t h = attempts-Told now a between keeps 3 t h

-- Where no other transaction commits between its statements, `open_or_merge` always returns an id,
-- and it says that it created the incident exactly if none was open for the alert.
pub open_or_merge_alone :
    (now : ℕ) (a : NewIncident) (t : Incidents)
    → (id : ℕ) × ((open_or_merge now a (λ n u. u) t).0
        ≡ some (id, not (any (is_open_for a.tenant_id a.fingerprint) t.rows)))
unfolding open_or_merge attempts insert merge
open_or_merge_alone now a t =
    let p = is_open_for a.tenant_id a.fingerprint in
    elim (Bool-cases (any p t.rows)) [
      | inr e ↦ (t.next_id, rw (e, open_or_merge, attempts, insert) refl)
      | inl e ↦
          let (r, _, _, found) = returning-some p t.rows e in
          let taken : (insert now a t).0 ≡ none = rw (e, insert) refl in
          let same : (insert now a t).1 ≡ t = rw (e, insert) refl in
          let hit : (merge now a t).0 ≡ some r.id = found in
          (r.id, rw (taken, same, hit, e, open_or_merge, attempts) refl)
    ]
