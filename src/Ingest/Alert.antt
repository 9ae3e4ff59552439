-- ===== src/Ingest/Alert.antt =====
-- app/ingest.py: an alert's identity and its priority. `.upper()` and `.lower()` are modelled on ASCII
-- text, which the names that they are compared with are.
use Prim.Native.Char.{code}
use Prim.Native.String.{String, compare}
use Prim.Native.Nat.{Ordering}
use sre_blackboard.Common.{
  ℕ, ◌-◌, Bool, true, false, ◌&&◌, Option, none, some, List, [], ◌∷◌, leb, ◌==◌, if◌then◌else◌,
  or_else,
}
use sre_blackboard.Remediation.Plan.{lookup}

pub data AlertStatus : Type 0 where
  firing resolved : AlertStatus

pub record AlertmanagerAlert : Type 0 where
  pub status : AlertStatus
  pub labels : List (String × String)
  pub annotations : List (String × String)
  pub starts_at : Option ℕ
  pub ends_at : Option ℕ

pub record AlertIdentity : Type 0 where
  pub title : String
  pub service : String
  pub environment : String
  pub fingerprint : String

abbrev upper_code : ℕ → ℕ
upper_code c = if leb b'a' c && leb c b'z' then c - 32 else c

-- Equal but for the case of ASCII letters.
unfoldable pub same_fold : String → String → Bool
same_fold String.[] String.[] = true
same_fold String.[] (String.◌∷◌ d t) = false
same_fold (String.◌∷◌ c s) String.[] = false
same_fold (String.◌∷◌ c s) (String.◌∷◌ d t) =
    let rest = same_fold s t in upper_code (code c) == upper_code (code d) && rest

-- labels.get(k, ""): a missing label is falsy, as an empty one is.
unfoldable pub label : String → List (String × String) → String
unfolding lookup
label k labels = elim (lookup k labels) [ none ↦ "" | some v ↦ v ]

-- `hash3`: the SHA-256 of the JSON list of three texts, cut to 32 digits.
unfoldable pub identify :
    (String → String → String → String) → List (String × String) → AlertIdentity
unfolding label
identify hash3 labels =
    let title = label "alertname" labels in
    let service =
      or_else
        (or_else (or_else (label "service" labels) (label "service_name" labels))
          (label "job" labels))
        "unknown" in
    let environment =
      or_else
        (or_else (or_else (label "environment" labels) (label "env" labels))
          (label "namespace" labels))
        "default" in
    record {
      title = title;
      service = service;
      environment = environment;
      fingerprint = hash3 title service environment;
    }

abbrev pub severity_priority : String → ℕ
severity_priority s =
    if same_fold s "critical"
    then 1
    else if same_fold s "high"
    then 1
    else if same_fold s "warning"
    then 2
    else 3

-- A "priority" label, or else what the "severity" label stands for.
unfoldable pub priority_of : List (String × String) → ℕ
unfolding same_fold label
priority_of labels =
    let explicit = label "priority" labels in
    if same_fold explicit "P0"
    then 0
    else if same_fold explicit "P1"
    then 1
    else if same_fold explicit "P2"
    then 2
    else if same_fold explicit "P3"
    then 3
    else severity_priority (label "severity" labels)

-- Not after, by code points.
abbrev pub str_leb : String → String → Bool
str_leb s t = elim (compare s t) [ Ordering.gt ↦ false | _ ↦ true ]

unfoldable pub insert_sorted :
    AlertIdentity × AlertmanagerAlert
    → List (AlertIdentity × AlertmanagerAlert)
    → List (AlertIdentity × AlertmanagerAlert)
insert_sorted x [] = x ∷ []
insert_sorted x (y ∷ ys) =
    let rest = insert_sorted x ys in
    if str_leb (x.0).fingerprint (y.0).fingerprint then x ∷ y ∷ ys else y ∷ rest

-- The stable sort by fingerprint.
unfoldable pub sort_identified :
    List (AlertIdentity × AlertmanagerAlert) → List (AlertIdentity × AlertmanagerAlert)
unfolding insert_sorted
sort_identified [] = []
sort_identified (x ∷ xs) = insert_sorted x (sort_identified xs)
