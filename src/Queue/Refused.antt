-- ===== src/Queue/Refused.antt =====
-- A statement of a lease's owner that is refused shows that the lease is gone, and one that is accepted
-- leaves the row as it says.
use sre_blackboard.Common.{
  ℕ, String, ◌≤◌, ◌≡◌, refl, ap, Bool, false, Option, none, some, any, arith, any-Among, any-no_row,
  Among-find_by, find_by-Among, find_by-update_where, update_where, ◌∙◌, find_by_key,
}
use sre_blackboard.Queue.{
  Queue, JobRow, Job, done, ok, lease_lost, complete, release, fail, update_owned, owns,
  assert_fence,
}
use sre_blackboard.Queue.Owner.{update_owned-eq}
use sre_blackboard.Queue.Step.{Reach}
use sre_blackboard.Queue.Invariant.{IsValid, Reach-IsValid}
use sre_blackboard.Queue.Fencing.{row, LaterIn, Reach-Later}
use sre_blackboard.Queue.Exclusive.{
  LockedOut, Claimed, Claimed-IsValid, Claimed-row, Passed, Reach-LockedOut, owns-id,
}

pub owned-row :
    {aging : ℕ} (j : Job) (f : JobRow → JobRow) {q q' : Queue}
    → ((r : JobRow) → (f r).id ≡ r.id)
    → IsValid aging q
    → update_owned j f q ≡ ok q'
    → (a : JobRow) × (row q' j.id ≡ some (f a))
unfolding update_owned
owned-row j f {q} {q'} ids v e =
    let (a, m, o) = any-Among (owns j) q.rows (ground arith) in
    let found : row q a.id ≡ some a = find_by-Among _ q.next_id q.rows v.fresh m in
    let left : q'.rows ≡ update_where (owns j) f q.rows =
      ap (λ (r : Queue). r.rows) (update_owned-eq j f q q' e) in
    let after : row q' a.id ≡ some (f a) =
      rw left (find_by-update_where _ (owns j) f a.id ids q.rows ∙ rw (found, o)) in
    (a, rw (← owns-id j a o) after)

-- A job that was claimed once: its row is there, with a fence that never falls below the claim's.
pub record Held (j : Job) (q : Queue) : Type 0 where
  pub row_of : JobRow
  pub found : row q j.id ≡ some row_of
  pub fence : j.fence ≤ row_of.fence

LaterIn-Held :
    (j : Job) (b : JobRow) (o : Option JobRow)
    → j.fence ≤ b.fence
    → LaterIn (some b) o
    → (a : JobRow) × (o ≡ some a) × (j.fence ≤ a.fence)
LaterIn-Held j b none h l = absurd l
LaterIn-Held j b (some a) h l = (a, refl, omega (arith, h, l.fence))

pub Claimed-Held :
    {aging : ℕ} {q q' r : Queue} (j : Job)
    → IsValid aging q
    → Claimed q j q'
    → Reach aging q' r
    → Held j r
Claimed-Held {aging} {q} {q'} {r} j v c rs =
    let (_, (_, _, b, after, fence, _)) = Claimed-row v c in
    let later : LaterIn (row q' j.id) (row r j.id) =
      (Reach-Later (Claimed-IsValid v c) rs).at j.id in
    let (a, found, grown) = LaterIn-Held j b (row r j.id) (omega arith) (rw after at later) in
    record { row_of = a; found = found; fence = grown }

-- A refused statement shuts a worker out for ever.
pub refused-LockedOut :
    {aging : ℕ} {q r : Queue} (j : Job)
    → IsValid aging q
    → Held j q
    → any (owns j) q.rows ≡ false
    → Reach aging q r
    → LockedOut j r
unfolding owns
refused-LockedOut {aging} {q} {r} j v h e rs =
    let a = h.row_of in
    let id : a.id ≡ j.id = find_by_key (λ (x : JobRow). x.id) j.id q.rows h.found in
    let not_owned : owns j a ≡ false =
      any-no_row (owns j) q.rows a e (Among-find_by _ j.id q.rows h.found) in
    let passed : Passed j (row q j.id) = rw h.found (h.fence, λ same run. ground arith) in
    Reach-LockedOut j v passed rs

-- What may happen to the table after `j` was claimed.
module _ {aging : ℕ} {q₀ q₁ q r : Queue} (j : Job) (v : IsValid aging q₀) (c : Claimed q₀ j q₁)
    (rs : Reach aging q₁ q) where
  gone-LockedOut : any (owns j) q.rows ≡ false → Reach aging q r → LockedOut j r
  gone-LockedOut e more =
      refused-LockedOut j (Reach-IsValid (Claimed-IsValid v c) rs) (Claimed-Held j v c rs) e more

  -- Once a statement with a fence is refused, every statement with it is refused for ever.
  pub unfenced-LockedOut : assert_fence j q ≡ lease_lost → Reach aging q r → LockedOut j r
  unfolding assert_fence
  unfenced-LockedOut e more = gone-LockedOut (ground arith) more

  pub not_completed-LockedOut :
      (now : ℕ) → complete now j q ≡ lease_lost → Reach aging q r → LockedOut j r
  unfolding complete update_owned
  not_completed-LockedOut now e more = gone-LockedOut (ground arith) more

  pub not_released-LockedOut :
      (now : ℕ) → release now j q ≡ lease_lost → Reach aging q r → LockedOut j r
  unfolding release update_owned
  not_released-LockedOut now e more = gone-LockedOut (ground arith) more

  pub not_failed-LockedOut :
      (now : ℕ) (draw : ℕ → ℕ) (base max_delay : ℕ) (text : String) (retryable : Bool)
      → fail now draw base max_delay j text retryable q ≡ lease_lost
      → Reach aging q r
      → LockedOut j r
  unfolding fail update_owned
  not_failed-LockedOut now draw base max_delay text retryable e more =
      gone-LockedOut (ground arith) more

pub complete_row :
    {aging : ℕ} (now : ℕ) (j : Job) {q q' : Queue}
    → IsValid aging q
    → complete now j q ≡ ok q'
    → (a : JobRow) × (row q' j.id ≡ some a) × (a.status ≡ done)
unfolding complete
complete_row now j v e = let (a, after) = owned-row j _ (λ r. refl) v e in (_, after, refl)
