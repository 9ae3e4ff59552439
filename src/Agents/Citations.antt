-- ===== src/Agents/Citations.antt =====
-- app/agents/citations.py: the citation check. A problem is kept as the data of its message.
use sre_blackboard.Common.{
  ℕ, ◌+◌, ◌-◌, String, Bool, true, false, not, ◌&&◌, Option, none, some, List, [], ◌∷◌, ◌++◌,
  if◌then◌else◌, any, all, length,
}
use sre_blackboard.Remediation.Plan.{target, RemediationPlan, lookup}
use sre_blackboard.Remediation.Policy.{is_empty, mem}

pub data Signal : Type 0 where
  metrics logs traces changes flags : Signal

pub data FindingKind : Type 0 where
  fact inference hypothesis : FindingKind

pub record Finding : Type 0 where
  pub statement : String
  pub kind : FindingKind
  pub signal : Signal
  pub service : Option String
  pub evidence_ids : List String
  pub confidence : ℕ

pub data Problem : Type 0 where
  not_of_incident not_shown : String → Problem
  needs_evidence wrong_signal knowledge_only : Problem

abbrev pub signal_tools : Signal → List String
signal_tools metrics = "prom_query" ∷ "prom_range" ∷ []
signal_tools logs = "logs_search" ∷ []
signal_tools traces = "traces_search" ∷ "trace_get" ∷ []
signal_tools changes = "rollout_history" ∷ "deploy_diff" ∷ "k8s_events" ∷ []
signal_tools flags = "flag_state" ∷ []

abbrev pub knowledge_tools : List String
knowledge_tools = "kb_search" ∷ []

abbrev pub is_hypothesis : FindingKind → Bool
is_hypothesis hypothesis = true
is_hypothesis _ = false

abbrev pub is_known_id : List (String × String) → String → Bool
is_known_id known ev = elim (lookup ev known) [ none ↦ false | some t ↦ true ]

abbrev pub id_problem : List (String × String) → List String → String → List Problem
id_problem known shown ev =
    if not (is_known_id known ev)
    then not_of_incident ev ∷ []
    else if not (mem ev shown)
    then not_shown ev ∷ []
    else []

unfoldable pub id_problems : List String → List (String × String) → List String → List Problem
id_problems [] known shown = []
id_problems (ev ∷ ids) known shown = id_problem known shown ev ++ id_problems ids known shown

-- {known[ev] for ev in ids if ev in known}, as a list
unfoldable pub tools_of : List String → List (String × String) → List String
unfolding lookup
tools_of [] known = []
tools_of (ev ∷ ids) known =
    let rest = tools_of ids known in elim (lookup ev known) [ none ↦ rest | some t ↦ t ∷ rest ]

-- Some tool is not one of the knowledge base.
abbrev pub is_live : List String → Bool
is_live = any (λ t. not (mem t knowledge_tools))

-- live & SIGNAL_TOOLS[signal]: no tool of the knowledge base is a signal's.
abbrev pub shows_signal : Signal → List String → Bool
shows_signal s = any (λ t. not (mem t knowledge_tools) && mem t (signal_tools s))

unfoldable pub finding_problems : Finding → List (String × String) → List String → List Problem
unfolding id_problems tools_of
finding_problems f known shown =
    let tools = tools_of f.evidence_ids known in
    id_problems f.evidence_ids known shown
    ++ ((if not (is_hypothesis f.kind) && is_empty f.evidence_ids then needs_evidence ∷ [] else [])
        ++ (if not (is_hypothesis f.kind) && not (is_empty tools) && not (is_live tools)
            then knowledge_only ∷ []
            else if is_live tools && not (shows_signal f.signal tools)
            then wrong_signal ∷ []
            else []))

pub record Checked (A : Type 0) : Type 0 where
  pub value : A
  pub problems : List Problem
  pub dropped : ℕ

-- The loop: the items that have no problem, and all problems.
unfoldable pub sift : {A : Type 0} → (A → List Problem) → List A → List A × List Problem
sift check [] = ([], [])
sift check (x ∷ xs) =
    let (kept, problems) = sift check xs in
    ((if is_empty (check x) then x ∷ kept else kept), check x ++ problems)

unfoldable pub check_report :
    List Finding → List (String × String) → List String → Checked (List Finding)
unfolding finding_problems sift
check_report findings known shown =
    let (kept, problems) = sift (λ f. finding_problems f known shown) findings in
    record { value = kept; problems = problems; dropped = length findings - length kept }

pub record RootCause : Type 0 where
  pub service : String
  pub cause : String
  pub confidence : ℕ
  pub evidence_ids : List String

pub record Claim : Type 0 where
  pub statement : String
  pub evidence_ids : List String

pub record OpenQuestion : Type 0 where
  pub statement : String
  pub how_to_verify : String

-- The problems of an item in `_keep`.
unfoldable pub item_problems :
    Bool → List String → List (String × String) → List String → List Problem
unfolding id_problems tools_of
item_problems live ids known shown =
    let tools = tools_of ids known in
    id_problems ids known shown
    ++ (if live && not (is_empty tools) && all (λ t. mem t knowledge_tools) tools
        then knowledge_only ∷ []
        else [])

pub record Diagnosis : Type 0 where
  pub summary : String
  pub root_causes : List RootCause
  pub facts : List Claim
  pub inferences : List Claim
  pub hypotheses : List OpenQuestion

unfoldable pub check_diagnosis :
    Diagnosis → List (String × String) → List String → Checked Diagnosis
unfolding sift item_problems
check_diagnosis d known shown =
    let check : Claim → List Problem = (λ c. item_problems true c.evidence_ids known shown) in
    let (causes, p) = sift (λ c. item_problems true c.evidence_ids known shown) d.root_causes in
    let (facts, q) = sift check d.facts in
    let (inferences, r) = sift check d.inferences in
    record {
      value = record d { root_causes = causes; facts = facts; inferences = inferences };
      problems = p ++ q ++ r;
      dropped =
          (length d.root_causes - length causes)
          + (length d.facts - length facts)
          + (length d.inferences - length inferences);
    }

unfoldable pub check_plan :
    RemediationPlan → List (String × String) → List String → Checked RemediationPlan
unfolding sift item_problems
check_plan plan known shown =
    let (actions, problems) =
      sift (λ a. item_problems false (target a).evidence_ids known shown) plan.actions in
    record {
      value = record plan { actions = actions };
      problems = problems;
      dropped = length plan.actions - length actions;
    }
