-- ===== src/Queue/Fairness.antt =====
-- The order in which claims hand out jobs: priorities age, and nothing starves.
use sre_blackboard.Common.{
  ℕ, ◌+◌, ◌*◌, ◌≤◌, ◌≡◌, inl, inr, String, Bool, true, false, Option, none, some, List, arith, All,
  Among, Among-All, Option-cases,
}
use sre_blackboard.Queue.{Queue, JobRow, Job, claim, next_job, eligible, runnable, comes_before}
use sre_blackboard.Queue.Line.{next_job-Among, next_job-IsFirst, next_job-none}
use sre_blackboard.Queue.Invariant.{IsValid, RowIsValid}

-- `a` is the row of the claimed job: it may be taken, and no such row comes before it.
pub record Taken (now max_priority : ℕ) (kinds : Option (List String)) (held : ℕ → Bool) (q : Queue)
    (j : Job) (a : JobRow) : Type 0 where
  pub listed : Among a q.rows
  pub named : a.id ≡ j.id
  pub ready : runnable now max_priority kinds a ≡ true
  pub free : held a.id ≡ false
  pub foremost :
      All (λ x. eligible now max_priority kinds held x ≡ true → comes_before x a ≡ false) q.rows

-- A claim takes the first row in line, by sort key and then id, of those that may run and that no
-- other transaction has locked.
pub claim-Taken :
    (now : ℕ) (owner : String) (ttl max_priority : ℕ) (kinds : Option (List String))
    (held : ℕ → Bool) (q : Queue) (j : Job)
    → (claim now owner ttl max_priority kinds held q).0 ≡ some j
    → (a : JobRow) × Taken now max_priority kinds held q j a
unfolding claim
claim-Taken now owner ttl max_priority kinds held q j h =
    elim (Option-cases (next_job now max_priority kinds held q)) [
      | inl e ↦ absurd (ground arith)
      | inr (a, e) ↦
          let (m, fits, free) = next_job-Among now max_priority kinds held q e in
          (
            a,
            record {
              listed = m;
              named = ground arith;
              ready = fits;
              free = free;
              foremost = next_job-IsFirst now max_priority kinds held q e;
            },
          )
    ]

-- A claim comes back empty only if no row may be taken, and then it changes nothing.
pub claim_empty :
    (now : ℕ) (owner : String) (ttl max_priority : ℕ) (kinds : Option (List String))
    (held : ℕ → Bool) (q : Queue)
    → (claim now owner ttl max_priority kinds held q).0 ≡ none
    → ((claim now owner ttl max_priority kinds held q).1 ≡ q)
      × All (λ x. eligible now max_priority kinds held x ≡ true → ⊥) q.rows
unfolding claim
claim_empty now owner ttl max_priority kinds held q h =
    elim (Option-cases (next_job now max_priority kinds held q)) [
      | inl e ↦ (rw (e, claim), next_job-none now max_priority kinds held q e)
      | inr (a, e) ↦ absurd (ground arith)
    ]

comes_before_key : (x a : JobRow) → comes_before x a ≡ false → a.sort_key ≤ x.sort_key
unfolding comes_before
comes_before_key x a h = ground arith

-- Nothing starves: a job `x` that may be taken is passed over only for a job enqueued at most
-- `x.priority` aging steps after it.
pub claim_no_starvation :
    (aging now : ℕ) (owner : String) (ttl max_priority : ℕ) (kinds : Option (List String))
    (held : ℕ → Bool) (q : Queue) (j : Job) (x : JobRow)
    → IsValid aging q
    → Among x q.rows
    → eligible now max_priority kinds held x ≡ true
    → (claim now owner ttl max_priority kinds held q).0 ≡ some j
    → (a : JobRow) × Among a q.rows
      × (a.id ≡ j.id)
      × (a.enqueued_at + a.priority * aging ≤ x.enqueued_at + x.priority * aging)
claim_no_starvation aging now owner ttl max_priority kinds held q j x v m may h =
    let (a, t) = claim-Taken now owner ttl max_priority kinds held q j h in
    let line : comes_before x a ≡ false = Among-All _ m t.foremost may in
    let va : RowIsValid aging a = Among-All _ t.listed v.each in
    let vx : RowIsValid aging x = Among-All _ m v.each in
    (a, t.listed, t.named, omega (arith, comes_before_key x a line, va.in_line, vx.in_line))
