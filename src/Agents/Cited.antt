-- ===== src/Agents/Cited.antt =====
-- What the citation check guarantees of the answers that it lets through.
use sre_blackboard.Common.{
  ◌+◌, ◌≤◌, ◌≡◌, refl, ap, String, Bool, true, false, not, ◌&&◌, List, [], ◌∷◌, ◌++◌, if◌then◌else◌,
  all, length, arith, All, ◌↔◌, inl, inr, Bool-cases,
}
use sre_blackboard.Remediation.Policy.{is_empty, mem}
use sre_blackboard.Agents.Citations.{
  Finding, Problem, is_hypothesis, is_known_id, id_problem, id_problems, tools_of, is_live,
  shows_signal, finding_problems, sift, check_report,
}

-- A finding whose citations are sound: it cites only evidence of the incident that its agent was
-- shown; unless it is a hypothesis it cites some, and not only the knowledge base; and where it
-- cites live evidence, some of it is of its signal.
pub record WellCited (known : List (String × String)) (shown : List String) (f : Finding)
    : Type 0 where
  pub real : all (λ ev. is_known_id known ev && mem ev shown) f.evidence_ids ≡ true
  pub supported : is_hypothesis f.kind ≡ false → is_live (tools_of f.evidence_ids known) ≡ true
  pub fits :
      is_live (tools_of f.evidence_ids known) ≡ true
      → shows_signal f.signal (tools_of f.evidence_ids known) ≡ true

append-nil : (xs ys : List Problem) → (xs ++ ys ≡ []) ↔ ((xs ≡ []) × (ys ≡ []))
append-nil [] ys = ground arith
append-nil (x ∷ xs) ys = ground arith

id_problems-nil :
    (ids : List String) (known : List (String × String)) (shown : List String)
    → (id_problems ids known shown ≡ [])
      ↔ (all (λ ev. is_known_id known ev && mem ev shown) ids ≡ true)
unfolding id_problems
id_problems-nil [] known shown = ground arith
id_problems-nil (ev ∷ ids) known shown = ground (
  arith,
  id_problems-nil ids known shown,
  append-nil (id_problem known shown ev) (id_problems ids known shown),
)

-- Known ids have tools.
tools_of-nonempty :
    (ids : List String) (known : List (String × String)) (shown : List String)
    → all (λ ev. is_known_id known ev && mem ev shown) ids ≡ true
    → is_empty (tools_of ids known) ≡ is_empty ids
unfolding tools_of
tools_of-nonempty [] known shown h = refl
tools_of-nonempty (ev ∷ ids) known shown h = ground arith

-- The other problems of a finding, for the tests that they rest on.
others-nil :
    (hypo no_ids no_tools live shows : Bool)
    → no_tools ≡ no_ids
    → (no_tools ≡ true → live ≡ false)
    → (((if not hypo && no_ids then Problem.needs_evidence ∷ [] else [])
          ++ (if not hypo && not no_tools && not live
              then Problem.knowledge_only ∷ []
              else if live && not shows
              then Problem.wrong_signal ∷ []
              else []))
        ≡ [])
      ↔ ((hypo ≡ false → live ≡ true) × (live ≡ true → shows ≡ true))
others-nil hypo no_ids no_tools live shows e l = ground arith

is_live-empty : (ts : List String) → is_empty ts ≡ true → is_live ts ≡ false
is_live-empty [] h = refl
is_live-empty (t ∷ ts) h = absurd (ground arith)

-- The check finds no problem in a finding exactly if its citations are sound.
pub finding_problems-WellCited :
    (known : List (String × String)) (shown : List String) (f : Finding)
    → (finding_problems f known shown ≡ []) ↔ WellCited known shown f
unfolding finding_problems
finding_problems-WellCited known shown f =
    let ids = f.evidence_ids in
    let tools = tools_of ids known in
    let i = id_problems-nil ids known shown in
    let split = append-nil (id_problems ids known shown) _ in
    let o = λ (r : all (λ ev. is_known_id known ev && mem ev shown) ids ≡ true).
      others-nil (is_hypothesis f.kind) (is_empty ids) (is_empty tools) (is_live tools)
        (shows_signal f.signal tools) (tools_of-nonempty ids known shown r) (is_live-empty tools) in
    (
      (λ h.
          let (a, b) = split.0 h in
          let r = i.0 a in let (x, y) = (o r).0 b in record { real = r; supported = x; fits = y }),
      (λ wc. split.1 (i.1 wc.real, (o wc.real).1 (wc.supported, wc.fits))),
    )

is_empty-nil : (ps : List Problem) → (is_empty ps ≡ true) ↔ (ps ≡ [])
is_empty-nil [] = ground arith
is_empty-nil (p ∷ ps) = ground arith

-- `kept` are the items with the property, all of them, in their order.
pub data Keeps {A : Type 0} (P : A → Type 0) : List A → List A → Type 0 where
  nothing : Keeps P [] []
  keeps : (x : A) (xs kept : List A) → P x → Keeps P xs kept → Keeps P (x ∷ xs) (x ∷ kept)
  drops : (x : A) (xs kept : List A) → (P x → ⊥) → Keeps P xs kept → Keeps P (x ∷ xs) kept

-- What a sifting of items does: it keeps exactly those without problems, in their order, and reports
-- no problem only if it keeps all.
abbrev pub Sifted : {A : Type 0} → (A → Type 0) → List A → List A → List Problem → Type 0
Sifted P xs kept problems =
    Keeps P xs kept
    × All P kept
    × (length kept ≤ length xs)
    × ((problems ≡ []) ↔ All P xs)
    × (All P xs → kept ≡ xs)

sift-Sifted :
    {A : Type 0} (check : A → List Problem) (P : A → Type 0)
    → ((x : A) → (check x ≡ []) ↔ P x)
    → (xs : List A) → Sifted P xs (sift check xs).0 (sift check xs).1
unfolding sift
sift-Sifted check P i [] = (nothing, tt, omega arith, ((λ _. tt), (λ _. refl)), (λ _. refl))
sift-Sifted check P i (x ∷ xs) =
    let (exact, each, short, none', same) = sift-Sifted check P i xs in
    let split = append-nil (check x) (sift check xs).1 in
    let problems : (check x ++ (sift check xs).1 ≡ []) ↔ (P x × All P xs) = (
      (λ e. let (a, b) = split.0 e in ((i x).0 a, none'.0 b)),
      (λ ps. split.1 ((i x).1 ps.0, none'.1 ps.1)),
    ) in
    elim (Bool-cases (is_empty (check x))) [
      | inl e ↦
          let ok = (i x).0 ((is_empty-nil (check x)).0 e) in
          (
            rw e (keeps x xs (sift check xs).0 ok exact),
            rw e (ok, each),
            rw e (omega (arith, short)),
            problems,
            (λ ps. rw e (ap (λ r. x ∷ r) (same ps.1))),
          )
      | inr e ↦ (
        rw e (
            drops x xs (sift check xs).0 (λ ok. cc ((is_empty-nil (check x)).1 ((i x).1 ok)))
              exact),
        rw e each,
        rw e (omega (arith, short)),
        problems,
        (λ ps. absurd (cc ((is_empty-nil (check x)).1 ((i x).1 ps.0)))),
      )
    ]

-- A report that passed the check has exactly the findings of the answer that cite soundly, all of them
-- and in their order. It reports no problem exactly if the answer cited soundly as it was, which is
-- then kept unchanged; the number dropped makes up the rest.
pub check_report-Sifted :
    (findings : List Finding) (known : List (String × String)) (shown : List String)
    → Sifted
        (WellCited known shown)
        findings
        (check_report findings known shown).value
        (check_report findings known shown).problems
      × (length (check_report findings known shown).value
            + (check_report findings known shown).dropped
          ≡ length findings)
unfolding check_report
check_report-Sifted findings known shown =
    let s =
      sift-Sifted (λ f. finding_problems f known shown) (WellCited known shown)
        (finding_problems-WellCited known shown) findings in
    (s, omega (arith, s.2))
