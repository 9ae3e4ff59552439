-- ===== src/Tools/Replay/Order.antt =====
-- A replay gives each agent its own answers, in the order in which it got them live.
use sre_blackboard.Common.{
  ℕ, zero, suc, ◌+◌, ◌≡◌, refl, ap, sym, subst, ◌∙◌, String, Bool, true, false, Option, none, some,
  List, [], ◌∷◌, inl, inr, arith, Bool-cases, eq_iff, eq_refl, if◌then◌else◌,
}
use mathlib.Core.Option
use sre_blackboard.Tools.Replay.{
  Key, by_tool, by_agent, key_eq, Answer, Call, Entry, tool_key, agent_key, Replay, take, or_take,
  take_agent, fetch, fetch_all,
}

-- The calls that an agent makes with a key.
abbrev pub is_by : Key → Call → Bool
is_by k c = elim (agent_key c) [ none ↦ false | some j ↦ key_eq j k ]

-- Its entries in a cassette, and its answers in a live run, in order.
unfoldable pub own : Key → List Entry → List Entry
own k [] = []
own k (e ∷ es) = let rest = own k es in if is_by k e.call then e ∷ rest else rest

unfoldable pub live_answers : Key → List (Call × Answer) → List Answer
live_answers k [] = []
live_answers k ((c, a) ∷ rest) =
    let later = live_answers k rest in if is_by k c then a ∷ later else later

unfoldable pub count_by : Key → List Call → ℕ
count_by k [] = 0
count_by k (c ∷ cs) = let rest = count_by k cs in if is_by k c then suc rest else rest

-- Entry `n` of a list, or its last.
unfoldable pub nth_or_last : {A : Type 0} → Option A → ℕ → List A → Option A
nth_or_last last n [] = last
nth_or_last last zero (e ∷ es) = some e
nth_or_last last (suc n) (e ∷ es) = nth_or_last (some e) n es

pub key_eq_iff : (j k : Key) → key_eq j k ≡ true → j ≡ k
unfolding key_eq
key_eq_iff (by_tool t x) (by_tool u y) h = ground (arith, eq_iff t u, eq_iff x y)
key_eq_iff (by_agent a t x) (by_agent b u y) h = ground (arith, eq_iff a b, eq_iff t u, eq_iff x y)
key_eq_iff (by_tool t x) (by_agent b u y) h = absurd (ground arith)
key_eq_iff (by_agent a t x) (by_tool u y) h = absurd (ground arith)

key_eq_refl : (k : Key) → key_eq k k ≡ true
unfolding key_eq
key_eq_refl (by_tool t x) = rw (eq_refl t, eq_refl x) refl
key_eq_refl (by_agent a t x) = rw (eq_refl a, eq_refl t, eq_refl x) refl

-- What the calls of an agent with a key will be answered, the next call first.
abbrev pub view : Key → Replay → ℕ → Option Entry
view k r m = nth_or_last (r.last k) m (r.queues k)

take-view :
    (k : Key) (r : Replay) (m : ℕ)
    → ((take k r).0 ≡ view k r 0) × (view k (take k r).1 m ≡ view k r (suc m))
unfolding take nth_or_last
take-view k r m = go (r.queues k) refl
  where
    go :
        (q : List Entry)
        → r.queues k ≡ q
        → ((take k r).0 ≡ view k r 0) × (view k (take k r).1 m ≡ view k r (suc m))
    go [] e = (rw (e, take, nth_or_last) refl, rw (e, take) (rw e refl))
    go (x ∷ rest) e = (rw (e, take) refl, rw (e, take) (rw (key_eq_refl k) refl))

take_other :
    (j k : Key) (r : Replay) (m : ℕ) → key_eq j k ≡ false → view k (take j r).1 m ≡ view k r m
unfolding take
take_other j k r m h = go (r.queues j) refl
  where
    go : (q : List Entry) → r.queues j ≡ q → view k (take j r).1 m ≡ view k r m
    go [] e = rw (e, take) refl
    go (x ∷ rest) e = rw (e, take) (rw h refl)

abbrev one_more : Bool → ℕ → ℕ
one_more true m = suc m
one_more false m = m

-- An agent's key, which no key of a tool is.
module _ (a t x : String) where
  abbrev pub mine : Key
  mine = by_agent a t x

  or_take-view :
      (c : Call) (p : Option Entry × Replay) (m : ℕ)
      → view mine (or_take (tool_key c) p).1 m ≡ view mine p.1 m
  unfolding key_eq
  or_take-view c (some e, r) m = refl
  or_take-view c (none, r) m = take_other (tool_key c) mine r m refl

  take_agent-view :
      (j : Option Key) (r : Replay) (m : ℕ)
      → view mine (take_agent j r).1 m
        ≡ view mine r (one_more (elim j [ none ↦ false | some i ↦ key_eq i mine ]) m)
  take_agent-view none r m = refl
  take_agent-view (some i) r m = elim (Bool-cases (key_eq i mine)) [
    | inl h ↦
        let same = key_eq_iff i mine h in
        rw h (
          subst (λ i. view mine (take i r).1 m ≡ view mine r (suc m)) (sym same)
            (take-view mine r m).1)
    | inr h ↦ rw h (take_other i mine r m h)
  ]

  fetch-view :
      (c : Call) (r : Replay) (m : ℕ)
      → view mine (fetch c r).1 m ≡ view mine r (one_more (is_by mine c) m)
  unfolding fetch
  fetch-view c r m =
      or_take-view c (take_agent (agent_key c) r) m ∙ take_agent-view (agent_key c) r m

  pub fetch_all-view :
      (cs : List Call) (r : Replay) (m : ℕ)
      → view mine (fetch_all cs r) m ≡ view mine r (count_by mine cs + m)
  unfolding fetch_all count_by
  fetch_all-view [] r m = ap (view mine r) (omega arith)
  fetch_all-view (c ∷ cs) r m =
      fetch_all-view cs (fetch c r).1 m
      ∙ (fetch-view c r (count_by mine cs + m)
          ∙ ap (view mine r) (counted (is_by mine c) (count_by mine cs)))
    where
      counted : (b : Bool) (n : ℕ) → one_more b (n + m) ≡ (if b then suc n else n) + m
      counted true n = omega arith
      counted false n = refl

  -- The answer to a call of the agent with the key, where it has one.
  pub fetch-own :
      (c : Call) (r : Replay) (e : Entry)
      → agent_key c ≡ some mine
      → view mine r 0 ≡ some e
      → (fetch c r).0 ≡ some e.answer
  unfolding fetch
  fetch-own c r e k v =
      let first : (take_agent (agent_key c) r).0 ≡ some e =
        ap (λ (j : Option Key). (take_agent j r).0) k ∙ ((take-view mine r 0).0 ∙ v) in
      got (take_agent (agent_key c) r) first
    where
      got :
          (p : Option Entry × Replay)
          → p.0 ≡ some e
          → ◌≡◌ {A = Option Answer}
              (elim ((or_take (tool_key c) p).0) [ none ↦ none | some f ↦ some f.answer ])
              (some e.answer)
      got (some f, s) h = ap (Option.map (λ (g : Entry). g.answer)) h
      got (none, s) h = absurd (ground arith)
