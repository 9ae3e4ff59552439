-- ===== src/Queue/Exclusive.antt =====
-- A lease gives one worker the job: after it is lost, given back or used up, nothing that the
-- worker sends is accepted.
use sre_blackboard.Common.{
  ℕ, ◌+◌, ◌≤◌, ◌<◌, ◌≡◌, refl, inl, inr, String, Bool, true, false, Option, none, some, List, arith,
  any, find_by-Among, find_by-update_where, update_where, any-Among, Bool-cases, Option-cases, ◌==◌,
  ==_refl, ◌∙◌, subst, ap,
}
use sre_blackboard.Queue.{
  Queue, JobRow, Job, running, lease_lost, claim, next_job, lease, heartbeat, complete, fail,
  release, update_owned, owns, assert_fence,
}
use sre_blackboard.Queue.Line.{next_job-Among}
use sre_blackboard.Queue.Step.{Reach, claims}
use sre_blackboard.Queue.Invariant.{IsValid, Reach-IsValid, Step-IsValid}
use sre_blackboard.Queue.Fencing.{row, RowLater, LaterIn, Reach-Later}

-- Every statement of the job's owner is refused, and changes nothing.
pub record LockedOut (j : Job) (q : Queue) : Type 0 where
  pub asserting : assert_fence j q ≡ lease_lost
  pub beating : (now ttl : ℕ) → heartbeat now ttl j q ≡ (false, q)
  pub completing : (now : ℕ) → complete now j q ≡ lease_lost
  pub releasing : (now : ℕ) → release now j q ≡ lease_lost
  pub failing :
      (now : ℕ) (draw : ℕ → ℕ) (base max_delay : ℕ) (error : String) (retryable : Bool)
      → fail now draw base max_delay j error retryable q ≡ lease_lost

LockedOut-of_any : (j : Job) (q : Queue) → any (owns j) q.rows ≡ false → LockedOut j q
unfolding assert_fence heartbeat complete release fail update_owned
LockedOut-of_any j q e = record {
  asserting = rw e;
  beating = λ now ttl. rw (e, heartbeat, update_owned);
  completing = λ now. rw e;
  releasing = λ now. rw e;
  failing = λ now draw base max_delay error retryable. rw (e, fail, update_owned);
}

-- The job's row, `a`, has passed the fence `j.fence`, or holds it without running.
abbrev pub Passed : Job → Option JobRow → Type 0
Passed j none = ⊥
Passed j (some a) = (j.fence ≤ a.fence) × (j.fence ≡ a.fence → a.status ≡ running → ⊥)

Passed-later : (j : Job) (o p : Option JobRow) → Passed j o → LaterIn o p → Passed j p
Passed-later j none p h l = absurd h
Passed-later j (some a) none h l = absurd l
Passed-later j (some a) (some b) h l = (
  omega (arith, h.0, l.fence),
  λ e run. h.1 (omega (arith, h.0, l.fence)) (l.once (omega (arith, h.0, l.fence)) run),
)

pub owns-id : (j : Job) (a : JobRow) → owns j a ≡ true → a.id ≡ j.id
unfolding owns
owns-id j a o = ground arith

pub owns-fence : (j : Job) (a : JobRow) → owns j a ≡ true → a.fence ≡ j.fence
unfolding owns
owns-fence j a o = ground arith

Passed-not_owned :
    (j : Job) (a : JobRow) (o : Option JobRow) → o ≡ some a → owns j a ≡ true → Passed j o → ⊥
unfolding owns
Passed-not_owned j a none e o h = h
Passed-not_owned j a (some b) e o h = ground (arith, h.1)

Passed-LockedOut :
    {aging : ℕ} (j : Job) (q : Queue) → IsValid aging q → Passed j (row q j.id) → LockedOut j q
Passed-LockedOut j q v h = elim (Bool-cases (any (owns j) q.rows)) [
  | inr e ↦ LockedOut-of_any j q e
  | inl e ↦
      let (a, m, o) = any-Among (owns j) q.rows e in
      let found : row q a.id ≡ some a = find_by-Among _ q.next_id q.rows v.fresh m in
      absurd (Passed-not_owned j a (row q a.id) found o (rw (owns-id j a o) h))
]

pub Reach-LockedOut :
    {aging : ℕ} {q r : Queue} (j : Job)
    → IsValid aging q
    → Passed j (row q j.id)
    → Reach aging q r
    → LockedOut j r
Reach-LockedOut {aging} {q} {r} j v h rs =
    Passed-LockedOut j r (Reach-IsValid v rs)
      (Passed-later j (row q j.id) (row r j.id) h ((Reach-Later v rs).at j.id))

-- Some claim, by anyone, that returned the job `j`.
pub data Claimed (q : Queue) (j : Job) (q' : Queue) : Type 0 where
  claimed :
      (now : ℕ) (owner : String) (ttl max_priority : ℕ) (kinds : Option (List String))
      (held : ℕ → Bool)
      → claim now owner ttl max_priority kinds held q ≡ (some j, q')
      → Claimed q j q'

-- The job's row before a claim, `a`, and after it.
abbrev pub ClaimedRow : Queue → Job → Queue → JobRow → Type 0
ClaimedRow q j q' a =
    (row q j.id ≡ some a)
    × (j.fence ≡ a.fence + 1)
    × (b : JobRow) × (row q' j.id ≡ some b)
    × (b.fence ≡ j.fence)
    × (b.status ≡ running)

pub Claimed-row :
    {aging : ℕ} {q q' : Queue} {j : Job}
    → IsValid aging q
    → Claimed q j q'
    → (a : JobRow) × ClaimedRow q j q' a
unfolding claim
Claimed-row {aging} {q} {q'} {j} v (claimed now owner ttl max_priority kinds held h) =
    elim (Option-cases (next_job now max_priority kinds held q)) [
      | inl e ↦ absurd (ground arith)
      | inr (a, e) ↦
          let (m, _, _) = next_job-Among now max_priority kinds held q e in
          let found : row q a.id ≡ some a = find_by-Among _ q.next_id q.rows v.fresh m in
          let ids : j.id ≡ a.id = ground arith in
          let left : q'.rows ≡ update_where (λ x. x.id == a.id) (lease owner now ttl) q.rows =
            ground arith in
          let after : row q' a.id ≡ some (lease owner now ttl a) = rw left (
            find_by-update_where _ (λ x. x.id == a.id) (lease owner now ttl) a.id (λ x. refl) q.rows
            ∙ rw (found, ==_refl a.id)) in
          (a, (rw ids found, ground arith, lease owner now ttl a, rw ids after, ground arith, refl))
    ]

pub Claimed-IsValid :
    {aging : ℕ} {q q' : Queue} {j : Job} → IsValid aging q → Claimed q j q' → IsValid aging q'
Claimed-IsValid {aging} {q} v (claimed now owner ttl max_priority kinds held h) =
    subst (IsValid aging) (ap (λ (r : Option Job × Queue). r.1) h)
      (Step-IsValid (claims now owner ttl max_priority kinds held) v)

-- Two claims of one job: whoever holds the first is locked out from the second on, for ever, and
-- the second has the greater fence.
pub claim_twice-LockedOut :
    {aging : ℕ} {q₀ q₁ q₂ q₃ q₄ : Queue} (j j' : Job)
    → IsValid aging q₀
    → Claimed q₀ j q₁
    → Reach aging q₁ q₂
    → Claimed q₂ j' q₃
    → j'.id ≡ j.id
    → Reach aging q₃ q₄
    → (j.fence < j'.fence) × LockedOut j q₄
claim_twice-LockedOut {aging} {q₁ = q₁} {q₂ = q₂} {q₃ = q₃} j j' v c rs c' same rs' =
    let v₁ : IsValid aging q₁ = Claimed-IsValid v c in
    let v₂ : IsValid aging q₂ = Reach-IsValid v₁ rs in
    let (_, (_, _, b, after, fence, _)) = Claimed-row v c in
    let (a', (before', next', b', after', fence', _)) = Claimed-row v₂ c' in
    let later : LaterIn (row q₁ j.id) (row q₂ j.id) = (Reach-Later v₁ rs).at j.id in
    let grown : RowLater b a' = rw (after, ← same, before') at later in
    let passed : Passed j (row q₃ j.id) =
      rw (← same, after') (omega arith, λ e. absurd (omega arith)) in
    (omega arith, Reach-LockedOut j (Claimed-IsValid v₂ c') passed rs')
