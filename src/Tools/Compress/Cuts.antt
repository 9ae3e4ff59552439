-- ===== src/Tools/Compress/Cuts.antt =====
-- Each list that `lists` finds can be cut where it stands, which makes the value lighter.
use sre_blackboard.Common.{
  ℕ, zero, suc, ◌+◌, ◌<◌, ◌≡◌, ap, sym, subst, ◌∙◌, List, [], ◌∷◌, ◌++◌, arith, All,
}
use sre_blackboard.Llm.Json.{
  Json, null, boolean, number, text, array, object, Items, end, item, Fields, done, field,
}
use sre_blackboard.Tools.Compress.{
  Located, under, lists, item_lists, field_lists, count_items, first_items, cut, cut_item,
  cut_field, weight, weight_items, weight_fields,
}

All-append : (P : Located → Type 0) (xs ys : List Located) → All P xs → All P ys → All P (xs ++ ys)
All-append P [] ys h k = k
All-append P (x ∷ xs) ys (a, h) k = (a, All-append P xs ys h k)

All-imp :
    (P Q : Located → Type 0) (xs : List Located) → ((x : Located) → P x → Q x) → All P xs → All Q xs
All-imp P Q [] f h = tt
All-imp P Q (x ∷ xs) f (a, h) = (f x a, All-imp P Q xs f h)

All-under :
    (P Q : Located → Type 0) (i : ℕ) (xs : List Located)
    → ((path : List ℕ) (ys : Items) → P (path, ys) → Q (i ∷ path, ys))
    → All P xs
    → All Q (under i xs)
All-under P Q i [] f h = tt
All-under P Q i ((path, ys) ∷ xs) f (a, h) = (f path ys a, All-under P Q i xs f h)

-- Fewer items are left than the list has.
first_items-lt :
    (n : ℕ) (xs : Items) → n < count_items xs → weight_items (first_items n xs) < weight_items xs
unfolding first_items weight
first_items-lt n end h = absurd (omega arith)
first_items-lt zero (item x xs) h = omega arith
first_items-lt (suc n) (item x xs) h = omega (arith, first_items-lt n xs (omega arith))

abbrev pub Cuts : Json → Located → Type 0
Cuts v (path, ys) = (n : ℕ) → n < count_items ys → weight (cut path n v) < weight v

abbrev CutsItem : ℕ → Items → Located → Type 0
CutsItem k xs (path, ys) =
    (j : ℕ) × (rest : List ℕ) × (path ≡ (k + j) ∷ rest)
    × ((n : ℕ) → n < count_items ys → weight_items (cut_item j rest n xs) < weight_items xs)

abbrev pub CutsField : ℕ → Fields → Located → Type 0
CutsField k fs (path, ys) =
    (j : ℕ) × (rest : List ℕ) × (path ≡ (k + j) ∷ rest)
    × ((n : ℕ) → n < count_items ys → weight_fields (cut_field j rest n fs) < weight_fields fs)

at_zero : (k : ℕ) (path : List ℕ) → k ∷ path ≡ (k + 0) ∷ path
at_zero k path = ap (λ (n : ℕ). n ∷ path) (omega arith)

at_suc : (k j : ℕ) (path rest : List ℕ) → path ≡ (suc k + j) ∷ rest → path ≡ (k + suc j) ∷ rest
at_suc k j path rest h = h ∙ ap (λ (n : ℕ). n ∷ rest) (omega arith)

pub at_front : (j : ℕ) (path rest : List ℕ) → path ≡ (0 + j) ∷ rest → j ∷ rest ≡ path
at_front j path rest h = ap (λ (n : ℕ). n ∷ rest) (omega arith) ∙ sym h

mutual
  unfolding lists cut weight

  pub lists-Cuts : (v : Json) → All (Cuts v) (lists v)
  lists-Cuts null = tt
  lists-Cuts (boolean b) = tt
  lists-Cuts (number n) = tt
  lists-Cuts (text s) = tt
  lists-Cuts (array xs) = (
    (λ n l. first_items-lt n xs l),
    All-imp (CutsItem 0 xs) (Cuts (array xs)) (item_lists 0 xs)
        (λ loc h n l.
          let (j, rest, e, c) = h in
          subst (λ p. weight (cut p n (array xs)) < weight_items xs) (at_front j loc.0 rest e)
            (c n l))
        (item_lists-Cuts 0 xs),
  )
  lists-Cuts (object fs) =
      All-imp (CutsField 0 fs) (Cuts (object fs)) (field_lists 0 fs)
        (λ loc h n l.
          let (j, rest, e, c) = h in
          subst (λ p. weight (cut p n (object fs)) < weight_fields fs) (at_front j loc.0 rest e)
            (c n l))
        (field_lists-Cuts 0 fs)

  pub item_lists-Cuts : (k : ℕ) (xs : Items) → All (CutsItem k xs) (item_lists k xs)
  item_lists-Cuts k end = tt
  item_lists-Cuts k (item x xs) =
      All-append (CutsItem k (item x xs)) (under k (lists x)) (item_lists (suc k) xs)
        (All-under (Cuts x) (CutsItem k (item x xs)) k (lists x)
          (λ path ys h. (0, path, at_zero k path, λ n l. omega (arith, h n l))) (lists-Cuts x))
        (All-imp (CutsItem (suc k) xs) (CutsItem k (item x xs)) (item_lists (suc k) xs)
          (λ loc h.
            let (j, rest, e, c) = h in
            (suc j, rest, at_suc k j loc.0 rest e, λ n l. omega (arith, c n l)))
          (item_lists-Cuts (suc k) xs))

  pub field_lists-Cuts : (k : ℕ) (fs : Fields) → All (CutsField k fs) (field_lists k fs)
  field_lists-Cuts k done = tt
  field_lists-Cuts k (field key v fs) =
      All-append (CutsField k (field key v fs)) (under k (lists v)) (field_lists (suc k) fs)
        (All-under (Cuts v) (CutsField k (field key v fs)) k (lists v)
          (λ path ys h. (0, path, at_zero k path, λ n l. omega (arith, h n l))) (lists-Cuts v))
        (All-imp (CutsField (suc k) fs) (CutsField k (field key v fs)) (field_lists (suc k) fs)
          (λ loc h.
            let (j, rest, e, c) = h in
            (suc j, rest, at_suc k j loc.0 rest e, λ n l. omega (arith, c n l)))
          (field_lists-Cuts (suc k) fs))
