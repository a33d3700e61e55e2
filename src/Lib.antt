-- ===== src/Lib.antt =====
-- Fiscal Mind Agent: a server that runs document collection for accountants. For each client an agent
-- plans one message at a time, sends it by email or WhatsApp when it is due, reads what comes back,
-- and moves the rows of the client's checklist until every document is in.
--
-- How the parts work together. The planner writes a draft and a scheduled_jobs row, the mirror of a
-- job in the queue. When the job fires, the send worker passes the draft through its gates, sends it,
-- and plans the next one. An inbound message opens a turn; its handlers store files and request one
-- deferred planner run, which waits until the turn is quiet. The planner and the verification of files
-- change the checklist through a fixed set of queries, each guarded by the status that it starts from.
-- A PDF that holds several documents is cut by page ranges that a model proposes and a gate checks.
--
-- Which file models what:
-- - Prelude: the shared names, Boolean tests, lists over the native numbers, and integers.
-- - Documents: src/db/queries/clientDocuments.ts. A table is the list of its rows in order of
--   insertion. Table has the row and the UPDATE and DELETE of one statement, Queries the single
--   statements, Transactions and CompanyRows the three transactions: a fault inside one is an instance
--   whose new row gets no id, and the table that comes back is then the one from before. Life names the
--   status changes and what it is for a table to evolve, Agent the queries that the planner and the
--   verification run after a client is kicked off (the kickoff inserts the catalog rows, unresolved, before
--   them), Runs, History and Approval the runs of them. NewRows, Atomic, SplitKept and SplitAtomic are
--   about the transactions.
-- - Decision: src/agents/declarationOfCapital/decisionSchema.ts. Result has the errors and their chain,
--   Quotes the texts, Answer the answer and its context, Evidence, Lists, Message and Gate the
--   validators and normalizeDecision. Backed, Sound, Entries and Accepted are about the accepted
--   changes and what they rest on, Ties, Steps, Messages and Shapes about the form of an accepted
--   answer, Replies about a plain reply.
-- - Verification: src/agents/declarationOfCapital/verifyDocument.ts with verifyBatchRules.ts and
--   verdictOf of verifyChecks.ts. Record has the record of a check, Check the check on the table of
--   Documents, with what others do meanwhile as a function on the table. Outcomes and Checked are
--   about one check, Rounds about the checks of a row one after another, Batch about a batch.
-- - Splitting: src/agents/declarationOfCapital/splitFileRules.ts with gateChecks.ts. Page numbers of
--   an answer are integers, as the model may answer any; the file's page count is a natural number.
-- - Ties: src/agents/shared/fileEvidence.ts (Evidence), the company and paper checks of one tie
--   (Company), filterPairsByCompany (Pairs) and assignFilesToNewRows (NewRows) of
--   src/agents/declarationOfCapital/fileTies.ts, with the comparison of institutions.ts. Allowed and
--   Assigned are about the ties that are let through.
-- - Ingest: src/webhook/ingestRetry.ts (Retry) and ingestInboundFileCore.ts (Store), with insertIfNew of
--   src/db/queries/documentFiles.ts; Attempts is about the retry, Kept, Accounted and Lost about what
--   a call leaves.
-- - Queue: the states of a BullMQ job.
-- - Turn: src/orchestration/inboundTurnRules.ts (Rules) and inboundTurnCore.ts. Store has the Redis
--   calls as an interface with the documented laws and the functions of createTurnStore; Counting and
--   Flag follow the counter and the dirty flag through sequences of events of any clients, key
--   expiry among them; Requests has createReplanRequester.
-- - Sending: the pending send of a client. Rules has the pure rules of src/orchestration and
--   src/agents/killSwitch.ts, Mirror and Recovery the operations on the scheduled_jobs row, the draft
--   and the queue, Worker the handler of src/queue/sendEmailWorker.ts. Gates, Outcomes and Ends are about
--   its firings, Resume and Resync about the operations by hand and at boot. Review has the
--   scheduling of a draft (src/orchestration/scheduleDraftEmail.ts) and its approval
--   (src/api/reviewAdmin.ts); Approved has the sequences of the operations, on what Unapproved says of
--   each, and Released the firing after an approval.
-- - Planning: src/orchestration/setFutureEmail.ts (Plan) and onReplan of src/queue/replanWorker.ts
--   (Replan) as the list of the calls they make; Conditions and Runs are about when they plan.
-- - Cycle: planFollowUp of src/agents/declarationOfCapital/plan.ts, with decide of decide.ts. Run has the
--   state, Apply the steps that change the checklist, Decide and Collect those on the files, Follow the
--   whole cycle over Decision, Documents, Ties and Verification. Kept and Same are
--   about the parts of the state that the steps leave alone, Attests about the attestation, Goal, Reply
--   and Completion about the end of a cycle, Earned about what is collected, Depth about the cycle that
--   follows a verification.
-- - Budget: src/gemini/budget.ts. Cache has the counters and their operations, with a load that nothing comes
--   between; Window and Refused are about the calls while one cache lasts, Races has the load that waits for
--   the database while other calls go on.
-- - SendTime: src/agents/shared/sendAtGuard.ts with chagLabel of jewishHolidays.ts. Guard has the rule,
--   Rolled is about the day that it rolls to; the loop tries fourteen days, as in the source.
-- - Decline: src/agents/declarationOfCapital/clientDeclineRules.ts (Rules), with what a decline does and
--   when it is acknowledged (Handling).
-- - Fetch: src/agents/declarationOfCapital/taxFetch/sessionTracker.ts (Tracker), used as the jobs of
--   runner.ts beside it use it when they run one at a time; Timers and Sessions are about its timers and
--   about any sequence of its operations.
--
-- Conventions. The clock, the answers of the queue and of the providers, and generated ids are
-- arguments. Times are natural numbers of milliseconds. An operation of the pending send takes the
-- mirror row, the one draft that its job id names, and the calls made so far, and returns the state
-- after it; the job id is the list of its parts between colons. The client lock is taken as held, so
-- each operation runs on its own. The loops run over lists and counts, the retry over the number of
-- attempts that are left, and planFollowUp, which calls itself after a verification, on fuel, of which
-- two units are enough.
--
-- In Cycle the rows of a client stand in the order of insertion, and nobody else changes them in the
-- course of a cycle. The transactions on the checklist may throw, and so may the calls around the goal and
-- the reply (the draft, the stamp of the attestation's request, the tax fetch step, the goal's update); the
-- single statements of a cycle are taken to come through.
--
-- Parameters: which company a text names (identifyInstitution), which types an institution issues (the
-- catalog), the map of the files, and the answers of Redis, BullMQ, the providers, the storage and the
-- database, each where a definition uses it.
--
-- Not modelled: the planner's prompts and model calls, the web application, the landing page, the
-- evaluation tools, and the clients of Google, Monday, Twilio, Resend and the storage, which are I/O;
-- the rule by which items are split by company, and the time zone of a send time, which are parameters of Cycle;
-- the rest of the fetching of tax documents, the validators of the stated costs and
-- vehicles of a decision, the closing message, and the checks of each document type.
pub mod Prelude
pub mod Documents
pub mod Decision
pub mod Verification
pub mod Splitting
pub mod Ties
pub mod Ingest
pub mod Queue
pub mod Turn
pub mod Sending
pub mod Planning
pub mod Cycle
pub mod Budget
pub mod SendTime
pub mod Decline
pub mod Fetch
