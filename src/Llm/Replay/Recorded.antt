-- ===== src/Llm/Replay/Recorded.antt =====
-- A replay answers what was recorded.
use sre_blackboard.Common.{
  ◌≡◌, refl, ◌∙◌, ap, String, Bool, true, false, not, some, List, [], ◌∷◌, ◌++◌, all, eq_refl,
  str_eq, arith,
}
use sre_blackboard.Llm.Types.{LlmRequest, LlmResult, StepResult, ok, llm_error}
use sre_blackboard.Llm.Replay.{
  RecordedStep, replay_key, entry_of, record_step, record_steps, key_of, load, get_entry,
  request_key, replayed, replay_step,
}

-- The step was not answered, or has another key.
abbrev pub is_other : String → LlmRequest × StepResult → Bool
is_other k (request, llm_error e) = true
is_other k (request, ok r) = not (str_eq (key_of (entry_of request r)) k)

load-append :
    (xs : List RecordedStep) (e : RecordedStep) (d : List RecordedStep)
    → load (xs ++ (e ∷ [])) d ≡ e ∷ load xs d
unfolding load
load-append [] e d = refl
load-append (x ∷ xs) e d = load-append xs e (x ∷ d)

record_steps-others :
    (k : String) (cs : List (LlmRequest × StepResult)) (es : List RecordedStep)
    → all (is_other k) cs ≡ true
    → get_entry k (load (record_steps cs es) []) ≡ get_entry k (load es [])
unfolding record_steps get_entry
record_steps-others k [] es h = refl
record_steps-others k ((request, llm_error e) ∷ cs) es h =
    record_steps-others k cs es (ground arith)
record_steps-others k ((request, ok r) ∷ cs) es h =
    let e = entry_of request r in
    let miss : str_eq (key_of e) k ≡ false = ground arith in
    record_steps-others k cs (es ++ (e ∷ [])) (ground arith)
    ∙ (ap (get_entry k) (load-append es e []) ∙ rw (miss, get_entry) refl)

record_steps-append :
    (cs ds : List (LlmRequest × StepResult)) (es : List RecordedStep)
    → record_steps (cs ++ ds) es ≡ record_steps ds (record_steps cs es)
unfolding record_steps
record_steps-append [] ds es = refl
record_steps-append ((request, a) ∷ cs) ds es = record_steps-append cs ds (record_step request a es)

-- A request is replayed with the step, the usage and the model that the live backend answered to it
-- last: whatever was recorded before, and after it no answer to a request with the same key of agent,
-- prompt version and hash. The live result names the request's hash.
pub replay_step-record_steps :
    (hash : LlmRequest → String) (before after : List (LlmRequest × StepResult))
    (request : LlmRequest) (r : LlmResult)
    → r.request_hash ≡ hash request
    → all (is_other (request_key hash request)) after ≡ true
    → replay_step hash (record_steps (before ++ ((request, ok r) ∷ after)) []) request
      ≡ ok (record r {
        latency_ms = 0;
        backend = "replay";
        request_hash = hash request;
        attempts = 1;
      })
unfolding replay_step record_steps get_entry
replay_step-record_steps hash before after request r named others =
    let k = request_key hash request in
    let es = record_steps before [] in
    let e = entry_of request r in
    let hit : str_eq (key_of e) k ≡ true =
      ap (λ h. str_eq (replay_key request.agent request.prompt_version h) k) named ∙ eq_refl k in
    let found : get_entry k (load (record_steps (before ++ ((request, ok r) ∷ after)) []) [])
        ≡ some e =
      ap (λ xs. get_entry k (load xs [])) (record_steps-append before ((request, ok r) ∷ after) [])
      ∙ (record_steps-others k after (es ++ (e ∷ [])) others
          ∙ (ap (get_entry k) (load-append es e []) ∙ rw (hit, get_entry) refl)) in
    ap (replayed (hash request)) found
