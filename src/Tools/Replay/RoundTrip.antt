-- ===== src/Tools/Replay/RoundTrip.antt =====
-- A recorded run, replayed: each agent gets the answers that it got live.
use mathlib.Core.Option
use mathlib.Core.List.{append_assoc, append-nil}
use sre_blackboard.Common.{
  ℕ, zero, suc, ◌≡◌, refl, ap, sym, ◌∙◌, String, Bool, true, false, Option, none, some, List, [],
  ◌∷◌, ◌++◌, map, inl, inr, arith, Bool-cases, if◌then◌else◌,
}
use sre_blackboard.Tools.Replay.{
  Key, key_eq, Answer, Call, Entry, tool_key, agent_key, push, push_agent, fill, new_replay, fetch,
  fetch_all, record_call, record_all,
}
use sre_blackboard.Tools.Replay.Order.{
  is_by, own, live_answers, count_by, nth_or_last, key_eq_iff, view, mine, fetch_all-view,
  fetch-own,
}

abbrev entry_of : Call × Answer → Entry
entry_of (c, a) = record { call = c; answer = a }

record_all-append :
    (h : List (Call × Answer)) (es : List Entry) → record_all h es ≡ es ++ map entry_of h
unfolding record_all record_call
record_all-append [] es = sym (append-nil es)
record_all-append ((c, a) ∷ rest) es =
    record_all-append rest (record_call c a es)
    ∙ append_assoc es (entry_of (c, a) ∷ []) (map entry_of rest)

nth_or_last-map :
    (last : Option Entry) (n : ℕ) (es : List Entry)
    → nth_or_last (Option.map (λ (e : Entry). e.answer) last) n (map (λ (e : Entry). e.answer) es)
      ≡ Option.map (λ (e : Entry). e.answer) (nth_or_last last n es)
unfolding nth_or_last
nth_or_last-map last n [] = refl
nth_or_last-map last zero (e ∷ es) = refl
nth_or_last-map last (suc n) (e ∷ es) = nth_or_last-map (some e) n es

module _ (a t x : String) where
  own-live_answers :
      (h : List (Call × Answer))
      → map (λ (e : Entry). e.answer) (own (mine a t x) (map entry_of h))
        ≡ live_answers (mine a t x) h
  unfolding own live_answers
  own-live_answers [] = refl
  own-live_answers ((c, r) ∷ rest) = elim (Bool-cases (is_by (mine a t x) c)) [
    | inl e ↦ rw e (ap (λ (l : List Answer). r ∷ l) (own-live_answers rest))
    | inr e ↦ rw e (own-live_answers rest)
  ]

  push_agent-mine :
      (j : Option Key) (e : Entry) (q : Key → List Entry)
      → push_agent j e q (mine a t x) ≡ (
          if (elim j [ none ↦ false | some i ↦ key_eq i (mine a t x) ])
          then q (mine a t x) ++ (e ∷ [])
          else q (mine a t x))
  push_agent-mine none e q = refl
  push_agent-mine (some i) e q = elim (Bool-cases (key_eq i (mine a t x))) [
    | inl h ↦ rw h (ap (λ (k : Key). q k ++ (e ∷ [])) (key_eq_iff i (mine a t x) h))
    | inr h ↦ rw h refl
  ]

  fill-own :
      (es : List Entry) (q : Key → List Entry)
      → fill es q (mine a t x) ≡ q (mine a t x) ++ own (mine a t x) es
  unfolding fill own key_eq
  fill-own [] q = sym (append-nil (q (mine a t x)))
  fill-own (e ∷ es) q =
      let after = push (tool_key e.call) e q in
      fill-own es (push_agent (agent_key e.call) e after)
      ∙ (ap (λ (l : List Entry). l ++ own (mine a t x) es)
            (push_agent-mine (agent_key e.call) e after)
          ∙ joined (is_by (mine a t x) e.call) (q (mine a t x)))
    where
      joined :
          (b : Bool) (l : List Entry)
          → (if b then l ++ (e ∷ []) else l) ++ own (mine a t x) es
            ≡ l ++ (if b then e ∷ own (mine a t x) es else own (mine a t x) es)
      joined true l = append_assoc l (e ∷ []) (own (mine a t x) es)
      joined false l = refl

  answered :
      (o : Option Entry) (r : Answer)
      → Option.map (λ (e : Entry). e.answer) o ≡ some r
      → (e : Entry) × (o ≡ some e) × (e.answer ≡ r)
  answered none r h = absurd (ground arith)
  answered (some e) r h = (e, refl, ground arith)

  -- A live run of any calls is recorded, and the recording is replayed by any calls in any order. When
  -- an agent asks again what it asked live, it gets the answer that its call got live: that of its n-th
  -- such call, if it has asked for it n times before in the replay, or else of its last such call.
  pub fetch-record_all :
      (live : List (Call × Answer)) (before : List Call) (c : Call) (answer : Answer)
      → agent_key c ≡ some (mine a t x)
      → nth_or_last none (count_by (mine a t x) before) (live_answers (mine a t x) live)
        ≡ some answer
      → (fetch c (fetch_all before (new_replay (record_all live [])))).0 ≡ some answer
  unfolding new_replay
  fetch-record_all live before c answer k h =
      let key = mine a t x in
      let cassette = record_all live [] in
      let n = count_by key before in
      let same : own key cassette ≡ own key (map entry_of live) =
        ap (own key) (record_all-append live []) in
      let answers : nth_or_last none n (map (λ (e : Entry). e.answer) (own key (map entry_of live)))
          ≡ some answer =
        ap (nth_or_last none n) (own-live_answers live) ∙ h in
      let (e, found, is) =
        answered (nth_or_last none n (own key (map entry_of live))) answer
          (sym (nth_or_last-map none n (own key (map entry_of live))) ∙ answers) in
      let seen : view key (fetch_all before (new_replay cassette)) 0 ≡ some e =
        fetch_all-view a t x before (new_replay cassette) 0
        ∙ (ap (view key (new_replay cassette)) (omega arith)
            ∙ (ap (nth_or_last none n) (fill-own cassette (λ j. []) ∙ same) ∙ found)) in
      fetch-own a t x c (fetch_all before (new_replay cassette)) e k seen ∙ ap some is
