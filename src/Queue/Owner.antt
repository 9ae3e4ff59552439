-- ===== src/Queue/Owner.antt =====
-- UPDATE … WHERE id = :id AND fence = :fence AND status = 'running': the statements of a lease's owner.
use sre_blackboard.Common.{◌≡◌, inl, inr, arith, true, any, update_where, Bool-cases}
use sre_blackboard.Queue.{Queue, JobRow, Job, running, ok, update_owned, owns}

-- What such a statement leaves when it succeeds.
pub update_owned-eq :
    (j : Job) (f : JobRow → JobRow) (q q' : Queue)
    → update_owned j f q ≡ ok q'
    → q' ≡ record q { rows = update_where (owns j) f q.rows }
unfolding update_owned
update_owned-eq j f q q' h = elim (Bool-cases (any (owns j) q.rows)) [
  | inl e ↦ ground arith
  | inr e ↦ ground arith
]

pub owns-running : (j : Job) (r : JobRow) → owns j r ≡ true → r.status ≡ running
unfolding owns
owns-running j r h = ground arith
