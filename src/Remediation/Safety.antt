-- ===== src/Remediation/Safety.antt =====
-- app/remediation/policy.py: which plans the policy lets through, stated without its checks.
use sre_blackboard.Common.{
  ℕ, suc, ◌≤◌, ◌≡◌, ◌≢◌, ◌↔◌, refl, String, Bool, true, false, not, ◌&&◌, some, List, [], ◌∷◌, ◌++◌,
  arith, any, all, keep, All, eq_iff,
}
use sre_blackboard.Remediation.Plan.{
  Action, rollout_undo, restart_deployment, scale_deployment, target, kind, catalogue, lookup,
  RemediationPlan,
}
use sre_blackboard.Remediation.Policy.{
  PolicyContext, Check, scope, problem_host, evidence, alternative, mem, is_known, is_about,
  is_empty, blocks, checks_with, checks_of, action_checks, change_window,
}

-- The deployment is the diagnosis's most likely root cause, with enough confidence.
abbrev pub IsTop : PolicyContext → String → List (String × ℕ) → Type 0
IsTop ctx deployment [] = ⊥
IsTop ctx deployment ((top, confidence) ∷ rest) =
    (deployment ≡ top) × (ctx.min_confidence ≤ confidence)

-- For a rollback, some cited result shows the history or a diff of that Deployment.
abbrev pub ShowsRelease : PolicyContext → Action → Type 0
ShowsRelease ctx (rollout_undo t r) =
    any (is_about ctx ("rollout_history" ∷ "deploy_diff" ∷ []) t.deployment) t.evidence_ids ≡ true
ShowsRelease ctx (restart_deployment t) = Unit
ShowsRelease ctx (scale_deployment t n) = Unit

pub record Permitted (ctx : PolicyContext) (a : Action) : Type 0 where
  pub allowed : mem (target a).deployment ctx.allowed_targets ≡ true
  pub top : IsTop ctx (target a).deployment ctx.root_causes
  pub known : all (is_known ctx) (target a).evidence_ids ≡ true
  pub release : ShowsRelease ctx a

pub any-append {ℓ} :
    {A : Type ℓ} (p : A → Bool) (xs ys : List A)
    → any p xs ≡ false
    → any p ys ≡ false
    → any p (xs ++ ys) ≡ false
any-append p [] ys h k = k
any-append p (x ∷ xs) ys h k = ground (arith, any-append p xs ys)

pub any-append_inv {ℓ} :
    {A : Type ℓ} (p : A → Bool) (xs ys : List A)
    → any p (xs ++ ys) ≡ false
    → (any p xs ≡ false) × (any p ys ≡ false)
any-append_inv p [] ys h = (refl, h)
any-append_inv p (x ∷ xs) ys h = ground (arith, any-append_inv p xs ys)

blocks-scope :
    (d : String) (ctx : PolicyContext) (i : ℕ)
    → (blocks (scope d ctx i) ≡ false) ↔ (mem d ctx.allowed_targets ≡ true)
unfolding scope
blocks-scope d ctx i = ground arith

IsTop-blocks :
    (d : String) (ctx : PolicyContext) (i : ℕ) (rs : List (String × ℕ))
    → ctx.root_causes ≡ rs
    → (blocks (problem_host d ctx i) ≡ false) ↔ IsTop ctx d rs
unfolding problem_host
IsTop-blocks d ctx i [] e = ground arith
IsTop-blocks d ctx i ((top, confidence) ∷ rest) e = ground (arith, eq_iff d top)

all-keep-not {ℓ} :
    {A : Type ℓ} (p : A → Bool) (xs : List A)
    → (is_empty (keep (λ x. not (p x)) xs) ≡ true) ↔ (all p xs ≡ true)
all-keep-not p [] = ground arith
all-keep-not p (x ∷ xs) = ground (arith, all-keep-not p xs)

is_empty-keep {ℓ} :
    {A : Type ℓ} (p : A → Bool) (xs : List A) → is_empty (keep p xs) ≡ not (any p xs)
is_empty-keep p [] = refl
is_empty-keep p (x ∷ xs) = ground (arith, is_empty-keep p xs)

blocks-evidence :
    (k d : String) (ids tools : List String) (ctx : PolicyContext) (i : ℕ)
    → (blocks (evidence k d ids tools ctx i) ≡ false) ↔ (
        (all (is_known ctx) ids ≡ true)
        × ((not (is_empty tools) && not (any (is_about ctx tools d) ids)) ≡ false))
unfolding evidence
blocks-evidence k d ids tools ctx i =
    ground (arith, all-keep-not (is_known ctx) ids, is_empty-keep (is_about ctx tools d) ids)

-- The checks of one action block nothing exactly if the action is permitted.
action-Permitted :
    (plan : RemediationPlan) (ctx : PolicyContext) (i : ℕ) (a : Action)
    → (any blocks (checks_of plan ctx i a (lookup (kind a) catalogue)) ≡ false) ↔ Permitted ctx a
unfolding checks_with lookup alternative
action-Permitted plan ctx i (rollout_undo t r) = ground (
  arith,
  blocks-scope t.deployment ctx i,
  IsTop-blocks t.deployment ctx i ctx.root_causes refl,
  blocks-evidence "rollout_undo" t.deployment t.evidence_ids
      ("rollout_history" ∷ "deploy_diff" ∷ []) ctx i,
)
action-Permitted plan ctx i (restart_deployment t) = ground (
  arith,
  blocks-scope t.deployment ctx i,
  IsTop-blocks t.deployment ctx i ctx.root_causes refl,
  blocks-evidence "restart_deployment" t.deployment t.evidence_ids [] ctx i,
)
action-Permitted plan ctx i (scale_deployment t n) = ground (
  arith,
  blocks-scope t.deployment ctx i,
  IsTop-blocks t.deployment ctx i ctx.root_causes refl,
  blocks-evidence "scale_deployment" t.deployment t.evidence_ids [] ctx i,
)

pub actions-Permitted :
    (plan : RemediationPlan) (ctx : PolicyContext) (i : ℕ) (as' : List Action)
    → (any blocks (action_checks plan ctx i as') ≡ false) ↔ All (Permitted ctx) as'
unfolding action_checks
actions-Permitted plan ctx i [] = ((λ _. tt), λ _. refl)
actions-Permitted plan ctx i (a ∷ rest) =
    let one = action-Permitted plan ctx i a in
    let more = actions-Permitted plan ctx (suc i) rest in
    let mine = checks_of plan ctx i a (lookup (kind a) catalogue) in
    let theirs = action_checks plan ctx (suc i) rest in
    (
      (λ h. let (x, y) = any-append_inv blocks mine theirs h in (one.0 x, more.0 y)),
      λ p. any-append blocks mine theirs (one.1 p.0) (more.1 p.1),
    )

-- The window can be read, and it is open.
abbrev pub WindowOpen : PolicyContext → Type 0
WindowOpen ctx = (c : Check) × (change_window ctx ≡ some c) × (blocks c ≡ false)

pub record PlanPermitted (plan : RemediationPlan) (ctx : PolicyContext) : Type 0 where
  pub nonempty : plan.actions ≢ []
  pub each : All (Permitted ctx) plan.actions
  pub window : WindowOpen ctx
