-- ===== src/Queue/Line.antt =====
-- Which job a claim takes: the first in line of those that may run and are not locked.
use sre_blackboard.Common.{
  ℕ, ◌≡◌, refl, subst, inl, inr, String, Bool, true, false, Option, none, some, List, [], ◌∷◌,
  arith, All, Among, first, later, Among-keep, keep-All, Bool-cases, Option-cases,
}
use sre_blackboard.Queue.{
  Queue, JobRow, queued, runnable, eligible, comes_before, earlier_of, first_in_line, next_job,
}

Among-first_in_line : (rs : List JobRow) {r : JobRow} → first_in_line rs ≡ some r → Among r rs
unfolding first_in_line
Among-first_in_line [] h = cc
Among-first_in_line (x ∷ xs) {r} h = elim (Option-cases (first_in_line xs)) [
  | inl e ↦ first (ground arith)
  | inr (b, e) ↦ elim (Bool-cases (comes_before b x)) [
    | inl t ↦ later (Among-first_in_line xs (ground arith))
    | inr t ↦ first (ground arith)
  ]
]

comes_before_trans :
    (a b c : JobRow)
    → comes_before a b ≡ false
    → comes_before b c ≡ false
    → comes_before a c ≡ false
unfolding comes_before
comes_before_trans a b c h k = ground arith

comes_before_asym : (a b : JobRow) → comes_before a b ≡ true → comes_before b a ≡ false
unfolding comes_before
comes_before_asym a b h = ground arith

comes_before_irrefl : (a : JobRow) → comes_before a a ≡ false
unfolding comes_before
comes_before_irrefl a = ground arith

-- No row of `rs` comes before `r`.
abbrev pub IsFirst : JobRow → List JobRow → Type 0
IsFirst r rs = All (λ x. comes_before x r ≡ false) rs

IsFirst-trans :
    (a b : JobRow) (rs : List JobRow) → comes_before b a ≡ false → IsFirst b rs → IsFirst a rs
IsFirst-trans a b [] h f = tt
IsFirst-trans a b (x ∷ xs) h f = (comes_before_trans x b a f.0 h, IsFirst-trans a b xs h f.1)

earlier_of-IsFirst :
    (x : JobRow) (xs : List JobRow) (o : Option JobRow)
    → first_in_line xs ≡ o
    → ((b : JobRow) → o ≡ some b → IsFirst b xs)
    → IsFirst (earlier_of x o) (x ∷ xs)
unfolding first_in_line
earlier_of-IsFirst x [] o e ih = rw (← e) (comes_before_irrefl x, tt)
earlier_of-IsFirst x (y ∷ ys) none e ih = absurd (cc)
earlier_of-IsFirst x (y ∷ ys) (some b) e ih = elim (Bool-cases (comes_before b x)) [
  | inl t ↦
      let same : b ≡ earlier_of x (some b) = rw t in
      subst (λ z. IsFirst z (x ∷ y ∷ ys)) same (comes_before_asym b x t, ih b refl)
  | inr t ↦
      let same : x ≡ earlier_of x (some b) = rw t in
      subst (λ z. IsFirst z (x ∷ y ∷ ys)) same
        (comes_before_irrefl x, IsFirst-trans x b (y ∷ ys) t (ih b refl))
]

first_in_line-IsFirst : (rs : List JobRow) {r : JobRow} → first_in_line rs ≡ some r → IsFirst r rs
unfolding first_in_line
first_in_line-IsFirst [] h = tt
first_in_line-IsFirst (x ∷ xs) {r} h =
    let e : earlier_of x (first_in_line xs) ≡ r = ground arith in
    subst (λ z. IsFirst z (x ∷ xs)) e
      (earlier_of-IsFirst x xs (first_in_line xs) refl (λ b. first_in_line-IsFirst xs))

-- The row that a claim takes.
pub next_job-Among :
    (now max_priority : ℕ) (kinds : Option (List String)) (held : ℕ → Bool) (q : Queue) {r : JobRow}
    → next_job now max_priority kinds held q ≡ some r
    → Among r q.rows × (runnable now max_priority kinds r ≡ true) × (held r.id ≡ false)
unfolding next_job
next_job-Among now max_priority kinds held q {r} h =
    let (m, c) =
      Among-keep (eligible now max_priority kinds held) r q.rows (Among-first_in_line _ h) in
    (m, ground arith, ground arith)

pub next_job-IsFirst :
    (now max_priority : ℕ) (kinds : Option (List String)) (held : ℕ → Bool) (q : Queue) {r : JobRow}
    → next_job now max_priority kinds held q ≡ some r
    → All (λ x. eligible now max_priority kinds held x ≡ true → comes_before x r ≡ false) q.rows
unfolding next_job
next_job-IsFirst now max_priority kinds held q {r} h =
    keep-All (λ x. comes_before x r ≡ false) _ q.rows (first_in_line-IsFirst _ h)

first_in_line-none : (rs : List JobRow) → first_in_line rs ≡ none → All (λ _. ⊥) rs
unfolding first_in_line
first_in_line-none [] h = tt
first_in_line-none (x ∷ xs) h = cc

pub next_job-none :
    (now max_priority : ℕ) (kinds : Option (List String)) (held : ℕ → Bool) (q : Queue)
    → next_job now max_priority kinds held q ≡ none
    → All (λ x. eligible now max_priority kinds held x ≡ true → ⊥) q.rows
unfolding next_job
next_job-none now max_priority kinds held q h = keep-All (λ _. ⊥) _ q.rows (first_in_line-none _ h)

pub runnable-queued :
    (now max_priority : ℕ) (kinds : Option (List String)) (r : JobRow)
    → runnable now max_priority kinds r ≡ true
    → r.status ≡ queued
unfolding runnable
runnable-queued now max_priority kinds r h = ground arith
