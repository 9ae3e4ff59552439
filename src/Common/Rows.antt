-- ===== src/Common/Rows.antt =====
-- Tables: a list of rows, newest first. `update_where` is UPDATE … WHERE, `find_by` a SELECT by key.
use Prim.Native.Nat.{ℕ, ◌<◌}
use mathlib.Core.Path.{◌≡◌, refl, subst}
use mathlib.Core.Bool.{Bool, true}
use mathlib.Core.List.{List, [], ◌∷◌}
use mathlib.Core.Option.{Option, none, some}
use native.Mathlib.Omega.{arith}
use sre_blackboard.Common.Tests.{if◌then◌else◌, ◌==◌, Bool-cases}
use sre_blackboard.Common.Lists.{All}
use mathlib.Core.Logic.{inl, inr}

module _ {ℓ} {A : Type ℓ} where
  unfoldable pub update_where : (A → Bool) → (A → A) → List A → List A
  update_where p f [] = []
  update_where p f (x ∷ xs) = (if p x then f x else x) ∷ update_where p f xs

  abbrev pub apply_if : (A → Bool) → (A → A) → Option A → Option A
  apply_if p f none = none
  apply_if p f (some x) = some (if p x then f x else x)

  unfoldable pub find_by : (A → ℕ) → ℕ → List A → Option A
  find_by key k [] = none
  find_by key k (x ∷ xs) = if key x == k then some x else find_by key k xs

  -- The row that a statement with a WHERE finds, where its condition fits one row at most.
  unfoldable pub find_where : (A → Bool) → List A → Option A
  find_where p [] = none
  find_where p (x ∷ xs) = if p x then some x else find_where p xs

  -- The ids of a table whose next id is `n`: each row's id is under that of the row before it.
  abbrev pub Fresh : (A → ℕ) → ℕ → List A → Type 0
  Fresh key n [] = Unit
  Fresh key n (x ∷ xs) = (key x < n) × Fresh key (key x) xs

  pub find_by-update_where :
      (key : A → ℕ) (p : A → Bool) (f : A → A) (k : ℕ)
      → ((x : A) → key (f x) ≡ key x)
      → (xs : List A) → find_by key k (update_where p f xs) ≡ apply_if p f (find_by key k xs)
  unfolding update_where find_by
  find_by-update_where key p f k same [] = refl
  find_by-update_where key p f k same (x ∷ xs) =
      ground (arith, same x, find_by-update_where key p f k same xs)

  pub update_where-Fresh :
      (key : A → ℕ) (p : A → Bool) (f : A → A)
      → ((x : A) → key (f x) ≡ key x)
      → (n : ℕ) (xs : List A) → Fresh key n xs
      → Fresh key n (update_where p f xs)
  unfolding update_where
  update_where-Fresh key p f same n [] h = tt
  update_where-Fresh key p f same n (x ∷ xs) h =
      ground (arith, same x, update_where-Fresh key p f same (key x) xs)

  pub update_where-All {κ} :
      (P : A → Type κ) (p : A → Bool) (f : A → A)
      → ((x : A) → p x ≡ true → P x → P (f x))
      → (xs : List A) → All P xs
      → All P (update_where p f xs)
  unfolding update_where
  update_where-All P p f step [] h = h
  update_where-All P p f step (x ∷ xs) h = elim (Bool-cases (p x)) [
    | inl e ↦ rw e (step x e h.0, update_where-All P p f step xs h.1)
    | inr e ↦ rw e (h.0, update_where-All P p f step xs h.1)
  ]

  pub find_by-All {κ} :
      (P : A → Type κ) (key : A → ℕ) (k : ℕ) (xs : List A) {x : A}
      → All P xs
      → find_by key k xs ≡ some x
      → P x × (key x ≡ k)
  unfolding find_by
  find_by-All P key k [] h e = absurd (ground arith)
  find_by-All P key k (y ∷ ys) {x} h e = elim (Bool-cases (key y == k)) [
    | inl hit ↦ let same : y ≡ x = ground arith in (subst P same h.0, ground arith)
    | inr miss ↦ find_by-All P key k ys h.1 (ground arith)
  ]

  pub find_by_key :
      (key : A → ℕ) (k : ℕ) (xs : List A) {x : A} → find_by key k xs ≡ some x → key x ≡ k
  unfolding find_by
  find_by_key key k [] e = absurd (ground arith)
  find_by_key key k (y ∷ ys) e = elim (Bool-cases (key y == k)) [
    | inl hit ↦ ground arith
    | inr miss ↦ find_by_key key k ys (ground arith)
  ]

  -- As above, where the step may use a second fact about the row.
  pub update_where-All_with {κ μ} :
      (P : A → Type κ) (Q : A → Type μ) (p : A → Bool) (f : A → A)
      → ((x : A) → p x ≡ true → Q x → P x → P (f x))
      → (xs : List A) → All Q xs
      → All P xs
      → All P (update_where p f xs)
  unfolding update_where
  update_where-All_with P Q p f step [] g h = h
  update_where-All_with P Q p f step (x ∷ xs) g h = elim (Bool-cases (p x)) [
    | inl e ↦ rw e (step x e g.0 h.0, update_where-All_with P Q p f step xs g.1 h.1)
    | inr e ↦ rw e (h.0, update_where-All_with P Q p f step xs g.1 h.1)
  ]
