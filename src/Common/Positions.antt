-- ===== src/Common/Positions.antt =====
-- A row of a table, by its position: what tests, updates and searches do to it.
use Prim.Native.Nat.{ℕ, ◌≤◌, ◌<◌}
use mathlib.Core.Path.{◌≡◌, refl, ap, subst}
use mathlib.Core.Bool.{Bool, true, false}
use mathlib.Core.List.{List, [], ◌∷◌}
use mathlib.Core.Option.{none, some}
use native.Mathlib.Omega.{arith}
use sre_blackboard.Common.Tests.{if◌then◌else◌, ◌==◌, ==_refl, Bool-cases}
use sre_blackboard.Common.Lists.{All, any, keep}
use mathlib.Core.Logic.{inl, inr}
use sre_blackboard.Common.Rows.{update_where, find_by, find_where, Fresh}

module _ {ℓ} {A : Type ℓ} where
  -- A row of a list, by position.
  pub data Among (r : A) : List A → Type ℓ where
    first : {x : A} {xs : List A} → x ≡ r → Among r (x ∷ xs)
    later : {x : A} {xs : List A} → Among r xs → Among r (x ∷ xs)

  pub Among-All {κ} : (P : A → Type κ) {r : A} {xs : List A} → Among r xs → All P xs → P r
  Among-All P (first e) h = subst P e h.0
  Among-All P (later m) h = Among-All P m h.1

  Among-keep_step :
      (c : A → Bool) (r x : A) (xs rest : List A) (b : Bool)
      → c x ≡ b
      → (Among r rest → Among r xs × (c r ≡ true))
      → Among r (if b then x ∷ rest else rest)
      → Among r (x ∷ xs) × (c r ≡ true)
  Among-keep_step c r x xs rest true e ih (first same) = (first same, rw (← same) e)
  Among-keep_step c r x xs rest true e ih (later m) = let (m', h) = ih m in (later m', h)
  Among-keep_step c r x xs rest false e ih m = let (m', h) = ih m in (later m', h)

  pub Among-keep :
      (c : A → Bool) (r : A) (xs : List A) → Among r (keep c xs) → Among r xs × (c r ≡ true)
  Among-keep c r [] m = elim m [ ]
  Among-keep c r (x ∷ xs) m = Among-keep_step c r x xs (keep c xs) (c x) refl (Among-keep c r xs) m

  pub keep-All {κ} :
      (P : A → Type κ) (c : A → Bool) (xs : List A)
      → All P (keep c xs)
      → All (λ x. c x ≡ true → P x) xs
  keep-All P c [] h = tt
  keep-All P c (x ∷ xs) h = elim (Bool-cases (c x)) [
    | inl e ↦ let h' : P x × All P (keep c xs) = rw e at h in ((λ _. h'.0), keep-All P c xs h'.1)
    | inr e ↦ let h' : All P (keep c xs) = rw e at h in ((λ t. cc), keep-All P c xs h')
  ]

  pub Among-key-lt :
      (key : A → ℕ) (n : ℕ) (xs : List A) {r : A} → Fresh key n xs → Among r xs → key r < n
  Among-key-lt key n [] {r} h m = elim m [ ]
  Among-key-lt key n (x ∷ xs) {r} h (first e) =
      let k : key x ≡ key r = ap key e in omega (arith, h.0)
  Among-key-lt key n (x ∷ xs) {r} h (later m) =
      omega (arith, h.0, Among-key-lt key (key x) xs h.1 m)

  pub find_by-Among :
      (key : A → ℕ) (n : ℕ) (xs : List A) {r : A}
      → Fresh key n xs
      → Among r xs
      → find_by key (key r) xs ≡ some r
  unfolding find_by
  find_by-Among key n [] {r} h m = elim m [ ]
  find_by-Among key n (x ∷ xs) {r} h (first e) = rw (e, ==_refl (key r))
  find_by-Among key n (x ∷ xs) {r} h (later m) =
      let below : key r < key x = Among-key-lt key (key x) xs h.1 m in
      ground (arith, find_by-Among key (key x) xs h.1 m)

  below-ne :
      (key : A → ℕ) (n k : ℕ) (r : A) (xs : List A)
      → Fresh key n xs
      → n ≤ k
      → k ≡ key r
      → All (λ x. key x ≡ key r → x ≡ r) xs
  below-ne key n k r [] h l e = tt
  below-ne key n k r (x ∷ xs) h l e =
      ((λ d. absurd (omega (arith, h.0))), below-ne key (key x) k r xs h.1 (omega (arith, h.0)) e)

  -- Ids are unique: a row with the id of `r` is `r`.
  pub Fresh-unique :
      (key : A → ℕ) (n : ℕ) (xs : List A) {r : A}
      → Fresh key n xs
      → Among r xs
      → All (λ x. key x ≡ key r → x ≡ r) xs
  Fresh-unique key n [] {r} h m = elim m [ ]
  Fresh-unique key n (x ∷ xs) {r} h (first e) =
      ((λ _. e), below-ne key (key x) (key x) r xs h.1 (omega arith) (ap key e))
  Fresh-unique key n (x ∷ xs) {r} h (later m) = (
    (λ d. absurd (omega (arith, Among-key-lt key (key x) xs h.1 m))),
    Fresh-unique key (key x) xs h.1 m,
  )

  pub Among-find_by :
      (key : A → ℕ) (k : ℕ) (xs : List A) {x : A} → find_by key k xs ≡ some x → Among x xs
  unfolding find_by
  Among-find_by key k [] e = absurd (ground arith)
  Among-find_by key k (y ∷ ys) {x} e = elim (Bool-cases (key y == k)) [
    | inl hit ↦ first (ground arith)
    | inr miss ↦ later (Among-find_by key k ys (ground arith))
  ]

  -- A row that passes the test of an `any`.
  pub any-Among :
      (p : A → Bool) (xs : List A) → any p xs ≡ true → (r : A) × Among r xs × (p r ≡ true)
  any-Among p [] h = absurd (ground arith)
  any-Among p (x ∷ xs) h = elim (Bool-cases (p x)) [
    | inl t ↦ (x, first refl, t)
    | inr f ↦ let (r, m, t) = any-Among p xs (ground arith) in (r, later m, t)
  ]

  -- The row that an update hits is there afterwards, as updated.
  pub Among-update_where :
      (p : A → Bool) (f : A → A) (xs : List A) (a : A)
      → Among a xs
      → p a ≡ true
      → Among (f a) (update_where p f xs)
  unfolding update_where
  Among-update_where p f [] a m h = elim m [ ]
  Among-update_where p f (x ∷ xs) a (first e) h = rw (e, h) (first refl)
  Among-update_where p f (x ∷ xs) a (later m) h = later (Among-update_where p f xs a m h)

  -- No row passes the test of an `any` that fails.
  pub any-no_row :
      (p : A → Bool) (xs : List A) (a : A) → any p xs ≡ false → Among a xs → p a ≡ false
  any-no_row p [] a h m = elim m [ ]
  any-no_row p (x ∷ xs) a h (first e) = rw (← e) (ground arith)
  any-no_row p (x ∷ xs) a h (later m) = any-no_row p xs a (ground arith) m

  pub find_where-Among :
      (p : A → Bool) (xs : List A) {x : A} → find_where p xs ≡ some x → Among x xs × (p x ≡ true)
  unfolding find_where
  find_where-Among p [] e = absurd (ground arith)
  find_where-Among p (y ∷ ys) {x} e = elim (Bool-cases (p y)) [
    | inl hit ↦ let same : y ≡ x = ground arith in (first same, subst (λ z. p z ≡ true) same hit)
    | inr miss ↦ let (m, h) = find_where-Among p ys (ground arith) in (later m, h)
  ]

  pub find_where-none :
      (p : A → Bool) (xs : List A) → All (λ x. p x ≡ false) xs → find_where p xs ≡ none
  unfolding find_where
  find_where-none p [] h = refl
  find_where-none p (x ∷ xs) (e, h) = rw e (find_where-none p xs h)

  pub update_where-where :
      (p q : A → Bool) (f : A → A)
      → ((x : A) → p x ≡ true → q (f x) ≡ false)
      → (xs : List A) → All (λ x. p x ≡ false → q x ≡ false) xs
      → All (λ x. q x ≡ false) (update_where p f xs)
  unfolding update_where
  update_where-where p q f hit [] h = tt
  update_where-where p q f hit (x ∷ xs) (miss, h) = elim (Bool-cases (p x)) [
    | inl e ↦ rw e (hit x e, update_where-where p q f hit xs h)
    | inr e ↦ rw e (miss e, update_where-where p q f hit xs h)
  ]
