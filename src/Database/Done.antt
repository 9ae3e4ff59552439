-- ===== src/Database/Done.antt =====
-- The transaction monad: what is known of the parts of a transaction that commits.
use sre_blackboard.Common.{◌≡◌, refl, arith}
use sre_blackboard.Database.{Db, Outcome, done, raised, Tx, ◌>>=◌}

bind_step :
    {A B : Type 0} (o : Outcome A) (f : A → Tx B) (b : B) (db' : Db)
    → elim o [ done a d ↦ f a d | raised e ↦ raised e ] ≡ done b db'
    → (a : A) × (mid : Db) × (o ≡ done a mid) × (f a mid ≡ done b db')
bind_step (done a d) f b db' h = (a, d, refl, h)
bind_step (raised e) f b db' h = absurd (ground arith)

-- Both parts of a sequence that commits commit.
pub bind-done :
    {A B : Type 0} (m : Tx A) (f : A → Tx B) (db : Db) (b : B) (db' : Db)
    → (m >>= f) db ≡ done b db'
    → (a : A) × (mid : Db) × (m db ≡ done a mid) × (f a mid ≡ done b db')
bind-done m f db b db' h = bind_step (m db) f b db' h
