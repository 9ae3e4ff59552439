-- ===== src/Remediation/Verdict.antt =====
-- app/remediation/policy.py: what each verdict means, for every plan and context.
use sre_blackboard.Common.{
  ℕ, ◌≤◌, ◌≡◌, ◌≢◌, ◌↔◌, refl, ap, sym, ◌∙◌, inl, inr, true, false, none, some, List, [], ◌∷◌, ◌++◌,
  map, arith, any, All, ltb, leb, Bool-cases, Option-cases, if◌then◌else◌,
}
use sre_blackboard.Remediation.Plan.{
  Risk, r2, r3, risk_rank, Action, rollout_undo, restart_deployment, scale_deployment, lookup,
  RemediationPlan,
}
use sre_blackboard.Remediation.Policy.{
  PolicyContext, Check, allow, deny, is_empty, blocks, action_checks, action_risks, highest, decide,
  change_window, try_evaluate, evaluate,
}
use sre_blackboard.Remediation.Safety.{
  PlanPermitted, WindowOpen, actions-Permitted, any-append, any-append_inv,
}

-- Rolling back is R3, the other actions are R2.
abbrev pub risk : Action → Risk
risk (rollout_undo t r) = r3
risk (restart_deployment t) = r2
risk (scale_deployment t n) = r2

action_risks-map : (as' : List Action) → action_risks as' ≡ map risk as'
unfolding action_risks lookup
action_risks-map [] = refl
action_risks-map (rollout_undo t r ∷ rest) = ap (◌∷◌ r3) (action_risks-map rest)
action_risks-map (restart_deployment t ∷ rest) = ap (◌∷◌ r2) (action_risks-map rest)
action_risks-map (scale_deployment t n ∷ rest) = ap (◌∷◌ r2) (action_risks-map rest)

-- No risk is above `k`.
abbrev pub Within : ℕ → List Action → Type 0
Within k = All λ a. risk_rank (risk a) ≤ k

abbrev larger : Risk → Risk → Risk
larger b r = if ltb (risk_rank b) (risk_rank r) then r else b

larger-le :
    (b r : Risk) (k : ℕ) → (risk_rank (larger b r) ≤ k) ↔ ((risk_rank b ≤ k) × (risk_rank r ≤ k))
larger-le b r k = elim (Bool-cases (ltb (risk_rank b) (risk_rank r))) [
  | inl t ↦ rw t ((λ h. (ground arith, h)), λ h. h.1)
  | inr f ↦ rw f ((λ h. (h, ground arith)), λ h. h.0)
]

highest-Within :
    (b : Risk) (as' : List Action)
    → (m : Risk) × (highest (some b) (map risk as') ≡ some m)
      × ((k : ℕ) → (risk_rank m ≤ k) ↔ ((risk_rank b ≤ k) × Within k as'))
unfolding highest
highest-Within b [] = (b, refl, λ k. ((λ h. (h, tt)), λ h. h.0))
highest-Within b (a ∷ rest) =
    let (m, e, same) = highest-Within (larger b (risk a)) rest in
    (
      m,
      e,
      λ k. (
        (λ h.
            let (x, y) = (same k).0 h in let (u, v) = (larger-le b (risk a) k).0 x in (u, (v, y))),
        λ h. (same k).1 ((larger-le b (risk a) k).1 (h.0, h.1.0), h.1.1),
      ),
    )

decide-verdict :
    (ctx : PolicyContext) (checks : List Check) (m : Risk)
    → (((decide ctx checks (some m)).verdict ≢ deny) ↔ (any blocks checks ≡ false))
      × (((decide ctx checks (some m)).verdict ≡ allow)
          ↔ ((any blocks checks ≡ false) × (risk_rank m ≤ risk_rank ctx.auto_max_risk)))
decide-verdict ctx checks m = elim (Bool-cases (any blocks checks)) [
  | inl t ↦ rw t ((ground arith, ground arith), (ground arith, ground arith))
  | inr f ↦ elim (Bool-cases (leb (risk_rank m) (risk_rank ctx.auto_max_risk))) [
    | inl u ↦ rw (f, u) ((ground arith, ground arith), (ground arith, ground arith))
    | inr w ↦ rw (f, w) ((ground arith, ground arith), (ground arith, ground arith))
  ]
]

-- The decision on a plan with actions, once the window can be read.
decide-Within :
    (ctx : PolicyContext) (checks : List Check) (as' : List Action)
    → as' ≢ []
    → let d = decide ctx checks (highest none (map risk as')) in
      ((d.verdict ≢ deny) ↔ (any blocks checks ≡ false))
      × ((d.verdict ≡ allow)
          ↔ ((any blocks checks ≡ false) × Within (risk_rank ctx.auto_max_risk) as'))
unfolding highest
decide-Within ctx checks [] h = absurd (h refl)
decide-Within ctx checks (a ∷ rest) h =
    let (m, e, same) = highest-Within (risk a) rest in
    let (to, from) = same (risk_rank ctx.auto_max_risk) in
    let (x, y) = decide-verdict ctx checks m in
    rw e (x, ((λ h. let (u, v) = y.0 h in (u, to v)), λ h. y.1 (h.0, from h.1)))

open_window :
    (ctx : PolicyContext) (w : Check)
    → change_window ctx ≡ some w
    → WindowOpen ctx
    → any blocks (w ∷ []) ≡ false
open_window ctx w e (c, f, b) = let same : some c ≡ some w = sym f ∙ e in ground arith

checks_pass :
    (plan : RemediationPlan) (ctx : PolicyContext) (w : Check)
    → change_window ctx ≡ some w
    → plan.actions ≢ []
    → (any blocks (action_checks plan ctx 0 plan.actions ++ w ∷ []) ≡ false)
      ↔ PlanPermitted plan ctx
checks_pass plan ctx w e h =
    let mine = action_checks plan ctx 0 plan.actions in
    let same = actions-Permitted plan ctx 0 plan.actions in
    (
      (λ b.
          let (x, y) = any-append_inv blocks mine (w ∷ []) b in
          record { nonempty = h; each = same.0 x; window = (w, e, ground arith) }),
      λ p. any-append blocks mine (w ∷ []) (same.1 p.each) (open_window ctx w e p.window),
    )

-- What the verdicts on one plan mean.
pub record Judged (plan : RemediationPlan) (ctx : PolicyContext) : Type 0 where
  pub passes : ((evaluate plan ctx).verdict ≢ deny) ↔ PlanPermitted plan ctx
  pub automatic :
      ((evaluate plan ctx).verdict ≡ allow)
      ↔ (PlanPermitted plan ctx × Within (risk_rank ctx.auto_max_risk) plan.actions)

denied :
    (plan : RemediationPlan) (ctx : PolicyContext)
    → (evaluate plan ctx).verdict ≡ deny
    → (PlanPermitted plan ctx → ⊥)
    → Judged plan ctx
denied plan ctx d no' = record {
  passes = ((λ h. absurd (h d)), λ p. absurd (no' p));
  automatic = ((λ h. absurd (cc)), λ p. absurd (no' p.0));
}

is_empty-eq : (as' : List Action) → is_empty as' ≡ true → as' ≡ []
is_empty-eq [] h = refl
is_empty-eq (a ∷ rest) h = cc

is_empty-ne : (as' : List Action) → is_empty as' ≡ false → as' ≢ []
is_empty-ne [] h e = cc
is_empty-ne (a ∷ rest) h e = cc

Judged-with :
    (plan : RemediationPlan) (ctx : PolicyContext) (w : Check)
    → change_window ctx ≡ some w
    → plan.actions ≢ []
    → is_empty plan.actions ≡ false
    → Judged plan ctx
unfolding evaluate try_evaluate
Judged-with plan ctx w e h f =
    let checks = action_checks plan ctx 0 plan.actions ++ w ∷ [] in
    let d = decide ctx checks (highest none (map risk plan.actions)) in
    let same : evaluate plan ctx ≡ d = ground (arith, action_risks-map plan.actions) in
    let (x, y) = decide-Within ctx checks plan.actions h in
    let pass = checks_pass plan ctx w e h in
    record {
      passes = rw same ((λ v. pass.0 (x.0 v)), λ p. x.1 (pass.1 p));
      automatic = rw same ((λ v. let (u, k) = y.0 v in (pass.0 u, k)), λ p. y.1 (pass.1 p.0, p.1));
    }

-- For every plan and context: the policy lets the plan through exactly if it has actions, each of
-- them on an allowed Deployment that is the top root cause with enough confidence, citing only known
-- evidence and, for a rollback, that Deployment's release history, and the change window can be
-- read and is open. It needs no approval exactly if moreover no action's risk is above the limit.
pub evaluate-Judged : (plan : RemediationPlan) (ctx : PolicyContext) → Judged plan ctx
unfolding evaluate try_evaluate
evaluate-Judged plan ctx = elim (Bool-cases (is_empty plan.actions)) [
  | inl t ↦ denied plan ctx (ground arith) (λ p. p.nonempty (is_empty-eq plan.actions t))
  | inr f ↦ elim (Option-cases (change_window ctx)) [
    | inl e ↦ denied plan ctx (ground arith) (λ p. cc (e, p.window.1))
    | inr (w, e) ↦ Judged-with plan ctx w e (λ z. is_empty-ne plan.actions f z) f
  ]
]
