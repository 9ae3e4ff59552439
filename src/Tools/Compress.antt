-- ===== src/Tools/Compress.antt =====
-- app/tools/compress.py: `clip` and `bound`, which fit a summary into a prompt. `chars` is the length
-- of a value's canonical JSON.
pub mod Cuts
pub mod Fits
use Prim.Native.String.{◌++◌ as str_append, count}
use sre_blackboard.Common.{
  ℕ, zero, suc, ◌+◌, ◌/◌, String, Bool, true, false, Option, none, some, List, [], ◌∷◌, ◌++◌, ltb,
  leb, str_eq, if◌then◌else◌, max,
}
use sre_blackboard.Llm.Json.{
  Json, null, boolean, number, text, array, object, Items, end, item, Fields, done, field,
}

abbrev pub max_summary_chars : ℕ
max_summary_chars = 6000

unfoldable pub take_chars : ℕ → String → String
take_chars zero s = ""
take_chars (suc n) String.[] = ""
take_chars (suc n) (String.◌∷◌ c s) = String.◌∷◌ c (take_chars n s)

-- clip(text), at MAX_STRING characters
unfoldable pub clip : String → String
unfolding take_chars
clip s = if leb (count s) 300 then s else str_append (take_chars 299 s) "…"

unfoldable mutual
  unfolding clip

  pub clip_strings : Json → Json
  clip_strings null = null
  clip_strings (boolean b) = boolean b
  clip_strings (number n) = number n
  clip_strings (text s) = text (clip s)
  clip_strings (array xs) = array (clip_items xs)
  clip_strings (object fs) = object (clip_fields fs)

  pub clip_items : Items → Items
  clip_items end = end
  clip_items (item x xs) = item (clip_strings x) (clip_items xs)

  pub clip_fields : Fields → Fields
  clip_fields done = done
  clip_fields (field k v fs) = field k (clip_strings v) (clip_fields fs)

abbrev pub count_items : Items → ℕ
count_items end = 0
count_items (item x xs) = suc (count_items xs)

-- A list within a value: where it stands, by the positions on the way to it, and its items.
abbrev pub Located : Type 0
Located = List ℕ × Items

abbrev pub under : ℕ → List Located → List Located
under i [] = []
under i ((path, xs) ∷ rest) = (i ∷ path, xs) ∷ under i rest

-- _lists(value)
unfoldable mutual
  pub lists : Json → List Located
  lists (array xs) = ([], xs) ∷ item_lists 0 xs
  lists (object fs) = field_lists 0 fs
  lists _ = []

  pub item_lists : ℕ → Items → List Located
  item_lists i end = []
  item_lists i (item x xs) = under i (lists x) ++ item_lists (suc i) xs

  pub field_lists : ℕ → Fields → List Located
  field_lists i done = []
  field_lists i (field k v fs) = under i (lists v) ++ field_lists (suc i) fs

unfoldable pub first_items : ℕ → Items → Items
first_items zero xs = end
first_items (suc n) end = end
first_items (suc n) (item x xs) = item x (first_items n xs)

-- `del lst[n:]` on the list at a path
unfoldable mutual
  unfolding first_items

  pub cut : List ℕ → ℕ → Json → Json
  cut [] n (array xs) = array (first_items n xs)
  cut (i ∷ path) n (array xs) = array (cut_item i path n xs)
  cut (i ∷ path) n (object fs) = object (cut_field i path n fs)
  cut path n value = value

  pub cut_item : ℕ → List ℕ → ℕ → Items → Items
  cut_item i path n end = end
  cut_item zero path n (item x xs) = item (cut path n x) xs
  cut_item (suc i) path n (item x xs) = item x (cut_item i path n xs)

  pub cut_field : ℕ → List ℕ → ℕ → Fields → Fields
  cut_field i path n done = done
  cut_field zero path n (field k v fs) = field k (cut path n v) fs
  cut_field (suc i) path n (field k v fs) = field k v (cut_field i path n fs)

-- A path that `lists` gives within an object has a first position.
unfoldable pub cut_summary : List ℕ → ℕ → Fields → Fields
unfolding cut_field
cut_summary [] n fs = fs
cut_summary (i ∷ path) n fs = cut_field i path n fs

-- The number of items of all lists within a value.
unfoldable mutual
  pub weight : Json → ℕ
  weight (array xs) = weight_items xs
  weight (object fs) = weight_fields fs
  weight _ = 0

  pub weight_items : Items → ℕ
  weight_items end = 0
  weight_items (item x xs) = suc (weight x + weight_items xs)

  pub weight_fields : Fields → ℕ
  weight_fields done = 0
  weight_fields (field k v fs) = weight v + weight_fields fs

-- d[k] = v
unfoldable pub put_field : String → Json → Fields → Fields
put_field k v done = field k v done
put_field k v (field j w fs) = if str_eq j k then field j v fs else field j w (put_field k v fs)

-- out["truncated"] = True
unfoldable pub marked : Fields × Bool → Fields × Bool
unfolding put_field
marked (out, true) = (put_field "truncated" (boolean true) out, true)
marked (out, false) = (out, false)

module _ (chars : Json → ℕ) where
  -- The first of the longest candidates, which are the lists of more than one item.
  unfoldable pub largest : List Located → Option Located
  largest [] = none
  largest ((path, xs) ∷ rest) =
      if ltb 1 (count_items xs)
      then (elim (largest rest) [
        | none ↦ some (path, xs)
        | some (p, ys) ↦
            if leb (chars (array ys)) (chars (array xs)) then some (path, xs) else some (p, ys)
      ])
      else largest rest

  -- The loop of `bound` on a summary and whether a list of it is cut; the first argument is its fuel.
  unfoldable pub shrink : ℕ → ℕ → Fields → Bool → Fields × Bool
  unfolding lists largest cut_summary
  shrink zero limit out truncated = (out, truncated)
  shrink (suc fuel) limit out truncated = elim (ltb limit (chars (object out))) [
    | false ↦ (out, truncated)
    | true ↦ elim (largest (field_lists 0 out)) [
      | none ↦ (out, truncated)
      | some (path, xs) ↦ shrink fuel limit (cut_summary path (max 1 (count_items xs / 2)) out) true
    ]
  ]

  -- Each turn of the loop removes an item, so that their number is fuel enough.
  unfoldable pub bound : ℕ → Fields → Fields × Bool
  unfolding clip_fields shrink weight marked
  bound limit summary =
      let out = clip_fields summary in marked (shrink (suc (weight_fields out)) limit out false)
