-- ===== src/Lib.antt =====
-- sre-blackboard: an incident responder whose agents diagnose an alert, propose a repair, and run
-- it under a policy and a human's approval. This library models its core, all of it state in
-- PostgreSQL, and proves what makes it correct.
--
-- The parts, and the files that model them:
--   * app/queue/jobs.py, the job queue on the table jobs: Queue/Table (enqueue), Queue/Claim
--     (claim), Queue/Lease (heartbeat, assert_fence, complete, release, fail, reap, backoff). Each
--     statement is a function on the list of rows, newest first; `held` is the set of rows that other
--     transactions have locked, which SKIP LOCKED passes over. Queue/Step makes them a step relation
--     for any number of processes; Invariant, Fencing, Exclusive, Ended, Fairness, Retry and
--     Refused prove things of its runs.
--   * app/db/incidents.py, the incidents: Incident/State (the state machine, check_transition),
--     Incident/Table (open_or_merge, where `between` is what other transactions commit between its
--     statements), Database (transition and get). Walk, Merge and Database/Lock have the theorems.
--   * app/db/audit.py, the audit log: Audit/Log (append, verify), Audit/Payload (what callers write).
--     SHA-256 of canonical JSON is the parameter `digest`; what a theorem needs of it is a hypothesis
--     of that theorem. Chain and Tamper have the theorems.
--   * app/remediation/actions.py and plans.py: Remediation/Plan. app/remediation/policy.py:
--     Remediation/Policy with Types, Checks and Window. Safety states which plans are safe without the
--     policy's checks; Verdict, Prose and Hours have the theorems.
--   * app/remediation/flow.py: Remediation/Flow with Review, Submit and Decide, as transactions on the
--     record Db of Database, in a monad whose failures are the exceptions that roll back. Placed,
--     Submitted, CarriedOut and Decided have the theorems.
--   * app/executor/job.py: Executor/Gate (_refusal), Executor/Job (the loop of execute_job, as the list
--     of what it commits and sends, of which a crash leaves a part); Cleared, Once and Complete have the
--     theorems.
--   * app/worker/remediate.py: Worker/Moves (approval_timeout, _verified, and the executor's _escalate
--     and last transaction), Worker/Verify (the loop of verify_job on its readings); Timely and Streak
--     have the theorems. app/worker/runner.py: Worker/Runner (_claim, _execute, _fail, _release and a
--     turn of each loop), with Slots, Crew and Settled; JobContext.transaction, which refuses an attempt
--     that lost its lease, is `transaction` of Database. app/worker/handlers.py and investigate.py, and
--     the plan job: Worker/Pipeline, with Resumed.
--   * app/ingest.py: Ingest/Alert (identify, priority_of), Ingest/Flow (ingest), Ingest/Opened.
--   * app/agents/citations.py: Agents/Citations, Agents/Cited. app/agents/store.py: Agents/Store
--     (PgAgentStore). app/agents/loop.py: Agents/Loop (_step, _call and the parts of a turn),
--     Agents/Loop/Run (_run and run_agent); Steps and Bounds, Ledger and Booked, Shown, Noted,
--     Calls and Judged, and Stable have the theorems. app/agents/investigation.py, the function
--     once: Agents/Once, with Checkpoint and Again.
--   * app/llm/types.py: Llm/Json, Llm/Types, Llm/Step (normalize_step). app/llm/retry.py: Llm/Retry.
--     app/llm/replay.py: Llm/Replay, with Recorded.
--   * app/tools/sources.py: Tools/Breaker and Tools/Resilience (the circuit breaker and the retries),
--     Tools/Replay (recording and replay). app/tools/registry.py with base.py and evidence.py:
--     Tools/Registry. app/tools/compress.py: Tools/Compress (bound), with Cuts and Fits.
--   * app/core/security.py: Security (Principal.has, mint_token, decode_token, and `access` for
--     authenticate with require), with PyJWT as a parameter; Trusted has the theorems.
--   * Common holds the shared names, Boolean tests, lists, table operations and Python's text
--     functions; Examples holds small runs on which the theorems are used.
--
-- How they interact: ingest opens an incident and enqueues its triage job; a submission reviews
-- the plan by the policy, writes the audit log, moves the incident, and enqueues a job, in one
-- transaction; a decision does the same for an approval; the executor reviews the plan again
-- before it acts. The agent loop asks a backend for steps, calls its tools by the registry, which
-- stores evidence, and hands the final answer to the citation check, which reads that evidence. The
-- worker's runner claims jobs and ends them by the queue's statements; triage, the investigate job and
-- the plan job each hand the incident to the next one.
--
-- Conventions: numbers are unbounded, where the columns are 32 or 64 bits; times are microseconds,
-- or any unit that a section fixes; confidences are numbers of one fixed unit in place of floats;
-- ids of incidents are drawn from a counter in place of random UUIDs. Messages are kept as the
-- data that the source formats. `open_or_merge` tries three times and a fetch as often as its
-- retries say, as the source does. The events that an executor may take before it crashes are a
-- number too; three for each action are enough for all of them. The agent loop runs on fuel, for
-- which max_steps + max_rewrites + 1 turns are enough; `once` gives it that many. The loop of `bound`
-- runs on the number of the summary's list items, of which each turn removes one. What a model, a tool's
-- source or a pydantic model answers is a function that the definitions take. SHA-256 and PyJWT are
-- parameters too, and what a theorem needs of them is a hypothesis of that theorem.
--
-- Not modelled: metrics, tracing and HTTP, which do not change the modelled state; how the jobs
-- wire up the agents, a cancellation that comes while the end of a job is being written, the order
-- in which investigate runs its agents, prompts and the wording of messages, the API and the
-- command line of the model backends, the tools themselves, the knowledge base and the evaluation;
-- the text limits that pydantic enforces on answers and plans.
pub mod Common
pub mod Queue
pub mod Incident
pub mod Audit
pub mod Remediation
pub mod Database
pub mod Ingest
pub mod Executor
pub mod Worker
pub mod Llm
pub mod Agents
pub mod Tools
pub mod Security
pub mod Examples
