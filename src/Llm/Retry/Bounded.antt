-- ===== src/Llm/Retry/Bounded.antt =====
-- What the retries guarantee of a step.
use sre_blackboard.Common.{
  ℕ, zero, suc, ◌+◌, ◌≤◌, ◌<◌, ◌≡◌, refl, true, false, Option, none, some, length, arith, All, ltb,
  min, max, ◌⊎◌, inl, inr, Bool-cases, Option-cases, ap, sym, subst, ◌==◌,
}
use sre_blackboard.Llm.Types.{StepResult, ok, llm_error}
use sre_blackboard.Llm.Retry.{
  Retrying, Answered, numbered, wait_after, backoff, last_call, after_wait, attempt, step,
}

-- Why a step does not go on after the answer of attempt `n`, which was the last one allowed if `n`
-- is `limit`.
abbrev pub Final : ℕ → ℕ → Retrying → StepResult → Type 0
Final limit n r (ok result) = Unit
Final limit n r (llm_error e) =
    (n ≡ limit)
    ⊎ ((e.retryable ≡ false) ⊎ ((after : ℕ) × (e.retry_after_s ≡ some after) × r.max_wait < after))

abbrev pub Retryable : StepResult → Type 0
Retryable (ok result) = ⊥
Retryable (llm_error e) = e.retryable ≡ true

-- What a step that began with attempt `n` and could go up to `limit` has answered: the answer of the
-- last call, which ends the step, after retryable errors only; each wait is below the cap.
pub record Bounded (limit : ℕ) (r : Retrying) (inner : ℕ → StepResult) (n : ℕ) (a : Answered)
    : Type 0 where
  pub bounded : a.calls ≤ limit
  pub counted : n + length a.sleeps ≡ a.calls
  pub capped : All (λ s. s ≤ r.max_wait) a.sleeps
  pub last : a.answer ≡ numbered a.calls (inner a.calls)
  pub final : Final limit a.calls r (inner a.calls)
  pub earlier : (k : ℕ) → n ≤ k → k < a.calls → Retryable (inner k)

min-capped : (x m s : ℕ) → some (min x m) ≡ some s → s ≤ m
min-capped x m s e = ground arith

wait_after-capped :
    (r : Retrying) (jitter : ℕ → ℕ) (n : ℕ) (after : Option ℕ) (s : ℕ)
    → wait_after r jitter n after ≡ some s
    → s ≤ r.max_wait
wait_after-capped r jitter n none s e = min-capped (backoff r jitter n) r.max_wait s e
wait_after-capped r jitter n (some t) s e = elim (Bool-cases (ltb r.max_wait t)) [
  | inl h ↦ absurd (ground arith)
  | inr h ↦
      let e' : some (min (max (backoff r jitter n) t) r.max_wait) ≡ some s = rw h at e in
      min-capped (max (backoff r jitter n) t) r.max_wait s e'
]

wait_after-none :
    (r : Retrying) (jitter : ℕ → ℕ) (n : ℕ) (after : Option ℕ)
    → wait_after r jitter n after ≡ none
    → (t : ℕ) × (after ≡ some t) × r.max_wait < t
wait_after-none r jitter n none e = absurd (ground arith)
wait_after-none r jitter n (some t) e = (t, refl, ground arith)

module _ (r : Retrying) (inner : ℕ → StepResult) (jitter : ℕ → ℕ) where
  -- A step that ends with the call of attempt `n`.
  last_call-Bounded :
      (limit n : ℕ) (x : StepResult)
      → inner n ≡ x
      → n ≤ limit
      → Final limit n r x
      → Bounded limit r inner n (last_call n x)
  last_call-Bounded limit n x e h f = record {
    bounded = h;
    counted = omega arith;
    capped = tt;
    last = ap (numbered n) (sym e);
    final = subst (Final limit n r) (sym e) f;
    earlier = λ k p q. absurd (omega arith);
  }

  after_wait-Bounded :
      (limit n s : ℕ) (a : Answered)
      → s ≤ r.max_wait
      → Retryable (inner n)
      → Bounded limit r inner (suc n) a
      → Bounded limit r inner n (after_wait s a)
  after_wait-Bounded limit n s a h t b = record {
    bounded = b.bounded;
    counted = omega (arith, b.counted);
    capped = (h, b.capped);
    last = b.last;
    final = b.final;
    earlier = λ k p q. elim (Bool-cases (k == n)) [
      | inl e ↦ let same : n ≡ k = ground arith in subst (λ m. Retryable (inner m)) same t
      | inr e ↦ b.earlier k (ground arith) q
    ];
  }

  -- An attempt that a retry may follow.
  retried-Bounded :
      (k n limit : ℕ) (x : StepResult)
      → inner n ≡ x
      → n + suc k ≡ limit
      → Bounded limit r inner (suc n) (attempt k r inner jitter (suc n))
      → Bounded limit r inner n (attempt (suc k) r inner jitter n)
  unfolding attempt
  retried-Bounded k n limit (ok result) e h ih =
      rw (e, attempt) (last_call-Bounded limit n (ok result) e (omega arith) tt)
  retried-Bounded k n limit (llm_error x) e h ih = elim (Bool-cases x.retryable) [
    | inr fatal ↦
        rw (e, fatal, attempt)
          (last_call-Bounded limit n (llm_error x) e (omega arith) (inr (inl fatal)))
    | inl retryable ↦ elim (Option-cases (wait_after r jitter n x.retry_after_s)) [
      | inl long ↦
          rw (e, retryable, long, attempt)
            (last_call-Bounded limit n (llm_error x) e (omega arith)
              (inr (inr (wait_after-none r jitter n x.retry_after_s long))))
      | inr (s, wait) ↦
          rw (e, retryable, wait, attempt)
            (after_wait-Bounded limit n s (attempt k r inner jitter (suc n))
              (wait_after-capped r jitter n x.retry_after_s s wait)
              (subst Retryable (sym e) retryable) ih)
    ]
  ]

  attempt-Bounded :
      (left n limit : ℕ)
      → n + left ≡ limit
      → Bounded limit r inner n (attempt left r inner jitter n)
  unfolding attempt
  attempt-Bounded zero n limit e =
      last_call-Bounded limit n (inner n) refl (omega arith) (at_limit (inner n) (omega arith))
    where
      at_limit : (x : StepResult) → n ≡ limit → Final limit n r x
      at_limit (ok result) h = tt
      at_limit (llm_error x) h = inl h
  attempt-Bounded (suc k) n limit e =
      retried-Bounded k n limit (inner n) refl e (attempt-Bounded k (suc n) limit (omega arith))

-- A step calls its backend one time more than it may retry at most, and waits once between two calls,
-- never longer than the cap. Its answer is that of its last call, numbered by it; all calls before
-- failed with retryable errors, and if the last one failed too then no retry was left, the error is
-- not retryable, or the service asks for a longer wait than the cap.
pub step-Bounded :
    (r : Retrying) (inner : ℕ → StepResult) (jitter : ℕ → ℕ)
    → Bounded (suc r.retries) r inner 1 (step r inner jitter)
unfolding step
step-Bounded r inner jitter =
    attempt-Bounded r inner jitter r.retries 1 (suc r.retries) (omega arith)
