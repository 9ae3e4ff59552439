-- ===== src/Worker/Streak.antt =====
-- When `verify_job` calls a repair verified, and that it decides in time.
use sre_blackboard.Common.{
  ℕ, suc, ◌+◌, ◌≤◌, ◌≡◌, refl, ap, Bool, true, false, some, List, [], ◌∷◌, ◌++◌, leb, if◌then◌else◌,
  length, all, any, arith, Bool-cases, inl, inr,
}
use sre_blackboard.Worker.Verify.{SliCheck, Sample, is_healthy, watch}

-- The readings end with `n` healthy ones in a row; `streak` healthy ones came just before them.
pub data EndsHealthy (c : SliCheck) (streak n : ℕ) (seen : List Sample) : Type 0 where
  all_healthy :
      all (is_healthy c) seen ≡ true → n ≤ streak + length seen → EndsHealthy c streak n seen
  last_healthy :
      (before after : List Sample)
      → before ++ after ≡ seen
      → all (is_healthy c) after ≡ true
      → n ≤ length after
      → EndsHealthy c streak n seen

-- A verified repair: up to some reading, the last ones were healthy, enough of them in a row.
abbrev pub Verified : SliCheck → ℕ → ℕ → List Sample → Type 0
Verified c enough streak samples =
    (seen : List Sample) × (rest : List Sample) × (seen ++ rest ≡ samples)
    × EndsHealthy c streak enough seen

EndsHealthy-cons :
    (c : SliCheck) (streak n : ℕ) (s : Sample) (seen : List Sample)
    → EndsHealthy c (if is_healthy c s then suc streak else 0) n seen
    → EndsHealthy c streak n (s ∷ seen)
EndsHealthy-cons c streak n s seen (last_healthy before after e h l) =
    last_healthy (s ∷ before) after (ap (λ xs. s ∷ xs) e) h l
EndsHealthy-cons c streak n s seen (all_healthy h l) = elim (Bool-cases (is_healthy c s)) [
  | inl e ↦ all_healthy (rw (e, h) refl) (ground arith)
  | inr e ↦ last_healthy (s ∷ []) seen refl h (ground arith)
]

-- `verify_job` calls a repair verified only after enough healthy readings in a row, the last one
-- included; `streak` healthy readings came before the readings given.
pub watch-Verified :
    (c : SliCheck) (enough deadline streak : ℕ) (samples : List Sample)
    → watch c enough deadline streak samples ≡ some true
    → Verified c enough streak samples
unfolding watch
watch-Verified c enough deadline streak [] h = absurd (ground arith)
watch-Verified c enough deadline streak (s ∷ rest) h =
    let now = if is_healthy c s then suc streak else 0 in
    elim (Bool-cases (leb enough now)) [
      | inl e ↦ (s ∷ [], rest, refl, one c streak enough s e)
      | inr e ↦ elim (Bool-cases (leb deadline s.at)) [
        | inl f ↦ absurd (ground arith)
        | inr f ↦
            let (seen, left, same, ends) =
              watch-Verified c enough deadline now rest (rw (e, f, watch) at h) in
            (s ∷ seen, left, ap (λ xs. s ∷ xs) same, EndsHealthy-cons c streak enough s seen ends)
      ]
    ]
  where
    one :
        (c : SliCheck) (streak enough : ℕ) (s : Sample)
        → leb enough (if is_healthy c s then suc streak else 0) ≡ true
        → EndsHealthy c streak enough (s ∷ [])
    one c streak enough s e = elim (Bool-cases (is_healthy c s)) [
      | inl g ↦ all_healthy (rw g refl) (ground arith)
      | inr g ↦ last_healthy (s ∷ []) [] refl refl (ground arith)
    ]

-- The job decides at the first reading at or after its deadline, if not before.
pub watch_decides :
    (c : SliCheck) (enough deadline streak : ℕ) (samples : List Sample)
    → any (λ s. leb deadline s.at) samples ≡ true
    → (ok : Bool) × (watch c enough deadline streak samples ≡ some ok)
unfolding watch
watch_decides c enough deadline streak [] h = absurd (ground arith)
watch_decides c enough deadline streak (s ∷ rest) h =
    let now = if is_healthy c s then suc streak else 0 in
    elim (Bool-cases (leb enough now)) [
      | inl e ↦ (true, rw (e, watch) refl)
      | inr e ↦ elim (Bool-cases (leb deadline s.at)) [
        | inl f ↦ (false, rw (e, f, watch) refl)
        | inr f ↦
            let (ok, k) = watch_decides c enough deadline now rest (ground arith) in
            (ok, rw (e, f, watch) k)
      ]
    ]
