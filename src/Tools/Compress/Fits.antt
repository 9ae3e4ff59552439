-- ===== src/Tools/Compress/Fits.antt =====
-- The loop of `bound` ends, with a summary that fits or whose lists cannot be cut any more.
use sre_blackboard.Common.{
  ℕ, zero, suc, ◌/◌, ◌≤◌, ◌<◌, ◌≡◌, refl, ap, subst, Bool, true, false, Option, none, some, List,
  [], ◌∷◌, arith, All, ◌⊎◌, inl, inr, Bool-cases, Option-cases, ltb, ltb→lt, leb, max,
  if◌then◌else◌,
}
use sre_blackboard.Llm.Json.{Json, array, object, Fields}
use sre_blackboard.Tools.Compress.{
  Located, field_lists, count_items, cut_summary, weight_fields, largest, shrink, clip_fields,
  marked, bound,
}
use sre_blackboard.Tools.Compress.Cuts.{at_front, CutsField, field_lists-Cuts}

-- A summary that is not cut further: its JSON is short enough, or none of its lists has two items.
abbrev pub Fits : (Json → ℕ) → ℕ → Fields → Type 0
Fits chars limit out =
    (chars (object out) ≤ limit) ⊎ All (λ loc. count_items loc.1 ≤ 1) (field_lists 0 out)

same_located : (a b : Located) → ◌≡◌ {A = Option Located} (some a) (some b) → a ≡ b
same_located a b h =
    ap (λ (o : Option Located). elim o as (λ x. Located) [ none ↦ a | some x ↦ x ]) h

abbrev Candidate : (Located → Type 0) → Located → Type 0
Candidate P loc = P loc × (1 < count_items loc.1)

module _ (chars : Json → ℕ) where
  largest-none :
      (ls : List Located) → largest chars ls ≡ none → All (λ loc. count_items loc.1 ≤ 1) ls
  unfolding largest
  largest-none [] h = tt
  largest-none ((path, xs) ∷ ls) h = ground (arith, largest-none ls)

  largest-some :
      (P : Located → Type 0) (ls : List Located) (loc : Located)
      → All P ls
      → largest chars ls ≡ some loc
      → Candidate P loc
  unfolding largest
  largest-some P [] loc h e = absurd (ground arith)
  largest-some P ((path, xs) ∷ ls) loc h e = elim (Bool-cases (ltb 1 (count_items xs))) [
    | inr b ↦ largest-some P ls loc h.1 (rw b at e)
    | inl b ↦ elim (Option-cases (largest chars ls)) [
      | inl n ↦
          let one : ◌≡◌ {A = Option Located} (some (path, xs)) (some loc) = rw (b, n) at e in
          subst (Candidate P) (same_located (path, xs) loc one) (h.0, ltb→lt 1 (count_items xs) b)
      | inr ((p, ys), n) ↦
          let two : (if leb (chars (array ys)) (chars (array xs))
                then some (path, xs)
                else some (p, ys))
              ≡ some loc =
            rw (b, n) at e in
          elim (Bool-cases (leb (chars (array ys)) (chars (array xs)))) [
            | inl c ↦
                subst (Candidate P) (same_located (path, xs) loc (rw c at two))
                  (h.0, ltb→lt 1 (count_items xs) b)
            | inr c ↦
                subst (Candidate P) (same_located (p, ys) loc (rw c at two))
                  (largest-some P ls (p, ys) h.1 n)
          ]
    ]
  ]

  -- A cut of a list of several items makes the summary lighter.
  cut_lighter :
      (out : Fields) (loc : Located)
      → Candidate (CutsField 0 out) loc
      → weight_fields (cut_summary loc.0 (max 1 (count_items loc.1 / 2)) out) < weight_fields out
  unfolding cut_summary
  cut_lighter out (path, ys) ((j, rest, e, c), m) =
      subst
        (λ p. weight_fields (cut_summary p (max 1 (count_items ys / 2)) out) < weight_fields out)
        (at_front j path rest e) (c (max 1 (count_items ys / 2)) (omega arith))

  -- What the loop leaves: it fits, and it is what it was where nothing has been cut.
  abbrev Shrunk : ℕ → Fields → Bool → Fields × Bool → Type 0
  Shrunk limit out t (s, cut) =
      Fits chars limit s
      × (weight_fields s ≤ weight_fields out)
      × (cut ≡ false → (t ≡ false) × (s ≡ out))

  shrink-Shrunk :
      (fuel limit : ℕ) (out : Fields) (t : Bool)
      → weight_fields out < fuel
      → Shrunk limit out t (shrink chars fuel limit out t)
  unfolding shrink
  shrink-Shrunk zero limit out t h = absurd (omega arith)
  shrink-Shrunk (suc fuel) limit out t h = elim (Bool-cases (ltb limit (chars (object out)))) [
    | inr b ↦ rw (b, shrink) (inl (ground arith), omega arith, λ c. (c, refl))
    | inl b ↦ elim (Option-cases (largest chars (field_lists 0 out))) [
      | inl n ↦
          rw (b, n, shrink) (inr (largest-none (field_lists 0 out) n), omega arith, λ c. (c, refl))
      | inr (loc, n) ↦
          let lighter =
            cut_lighter out loc
              (largest-some (CutsField 0 out) (field_lists 0 out) loc (field_lists-Cuts 0 out) n) in
          let after = cut_summary loc.0 (max 1 (count_items loc.1 / 2)) out in
          let (f, w, c) = shrink-Shrunk fuel limit after true (omega arith) in
          rw (b, n, shrink) (f, omega arith, λ k. let never = (c k).0 in cc)
    ]
  ]

  -- A bounded summary is what its loop leaves of the clipped one, marked where a list has been cut: its
  -- JSON without the mark has at most `limit` characters, or none of its lists has two items; it has no
  -- more items than before, and where it is not marked it is the clipped summary itself.
  pub bound-Fits :
      (limit : ℕ) (summary : Fields)
      → (out : Fields) × (truncated : Bool) × (bound chars limit summary ≡ marked (out, truncated))
        × Fits chars limit out
        × (weight_fields out ≤ weight_fields (clip_fields summary))
        × (truncated ≡ false → out ≡ clip_fields summary)
  unfolding bound
  bound-Fits limit summary =
      let clipped = clip_fields summary in
      let r = shrink chars (suc (weight_fields clipped)) limit clipped false in
      let (f, w, c) =
        shrink-Shrunk (suc (weight_fields clipped)) limit clipped false (omega arith) in
      (r.0, r.1, refl, f, w, λ h. (c h).1)
