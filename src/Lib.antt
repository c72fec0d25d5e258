-- ===== src/Lib.antt =====
-- podcast-digest: a service that collects podcast episodes, judges them with a language model,
-- transcribes and summarises the promising ones, and writes a weekly digest. This library models
-- the parts that keep its state and proves what they promise to each other.
--
-- The parts, and where they stand in the repository:
--
-- - Status (podcast_agent/state.py): the twelve statuses of an episode, their stored text, and the
--   table of legal transitions. `Status.Machine` reasons about walks through the table.
-- - Store (podcast_agent/db/base.py, podcast_agent/db/memory.py): the document store with MVCC
--   revisions and attachments, and `update_doc`, the read-change-write loop on top of it.
--   `Store.Defs` has the operations, `Store.Mvcc` what each does to one document, `Store.Revisions`
--   the revisions over time, `Store.Update` the loop among concurrent writers.
-- - Query (podcast_agent/db/base.py, podcast_agent/db/memory.py): Mango selectors, the index that a
--   query gets, and `find`. `Query.Minima` is about Python's `min`, `Query.Pinned` about what an index
--   can answer, `Query.Indexes` about the choice of an index and the checks, `Query.Answer` about what
--   a query returns, and `Query.Selectors` compares selectors of the source with the tests that the
--   other parts use in their place.
-- - Episode (podcast_agent/episodes.py): the episode document and its guarded changes, `transition`
--   and `mark_error`; on the document (`Episode`, `Episode.Moves`), over a history
--   (`Episode.History`) and on the store (`Episode.Stored`). `Episode.Keys` is the filter of
--   interest keys.
-- - Triage (podcast_agent/triage/routing.py, podcast_agent/triage/tier0.py, and the dispatch of
--   podcast_agent/backfill/process.py): the route of a verdict, its record, and its dispatch.
-- - Transcript (podcast_agent/transcripts/stage.py and the stage's handlers in
--   podcast_agent/pipeline/runner.py): one episode through the transcript stage, with the retry
--   budget and the crash budget.
-- - Runner (podcast_agent/pipeline/runner.py, and `rescore` of podcast_agent/summarize/tier1.py): the
--   hourly run over all episodes. `Runner` has the queues, the loop of a stage and the four stages;
--   `Runner.Queues` and `Runner.Listing` are about what a queue holds, `Runner.Stages` compares a loop
--   with the handling of each episode by itself, `Runner.Steps` and `Runner.Rounds` say what a stage makes of one episode, `Runner.Carried` and
--   `Runner.Drained` are about a whole run, `Runner.Deferred` about a stage that is cut short,
--   `Runner.Blocked` about the guard of the archive walk, `Runner.OnDemand` about the request for one
--   episode (`Runner.OnDemand.Prepared` up to its summary), `Runner.Rescore` about the scores of another interest profile.
-- - Operator (podcast_agent/api/routes.py): the owner's `retry` and `escalate`.
-- - JobLease (podcast_agent/joblock.py): the lease by which one process runs a job; `JobLease.World`
--   is many runs that act on it in any order, `JobLease.Exclusion` and `JobLease.Turnover` are the
--   theorems.
-- - Digest (podcast_agent/digest/generate.py): the selection of episodes and their sections
--   (`Digest.Listing`, `Digest.Complete`, `Digest.Sections`), the claiming of episodes by a digest
--   (`Digest.Marking`, `Digest.Effect`, `Digest.Once`), and its completion after a crash
--   (`Digest.Recovery`).
-- - Logs (podcast_agent/logbuffer.py): the bounded buffer of recent log events and its filtered tail.
-- - Tier1 (podcast_agent/summarize/tier1.py): the summary stage on one episode; `Tier1.Classified` is
--   where the episode stands after it, or after a part of it, `Tier1.MapReduce` the calls of the
--   model over the chunks of a long transcript.
-- - Chunking (podcast_agent/summarize/chunking.py): the cutting of a transcript into chunks for the
--   model; texts are lists of code points.
-- - Archive (podcast_agent/backfill/ingest.py): the walk of a podcast's archive, month by month over
--   many runs. `Archive.Seen` is about the entries of the feed that it looks at.
-- - Net (podcast_agent/net.py): the guard of outbound requests, the walk over redirects, and the
--   download that resumes where it was cut. `Net.Guard` says which URLs pass, `Net.Redirects` where
--   requests go, `Net.Download` has the download's operations, `Net.Transfer`, `Net.Resume` and
--   `Net.Progress` what they leave on disk.
-- - Llm (podcast_agent/llm/client.py, and the endpoint settings of podcast_agent/config.py): the chain
--   of model endpoints of a tier, its walk with retries and failover, and the cooldown of endpoints
--   that are down. `Llm.Attempts` is one endpoint, `Llm.Fallback` the walk, `Llm.Chain` a whole call.
-- - Retention (podcast_agent/retention.py): the batch loops that delete old records
--   (`Retention.Expired`, `Retention.Batches`, `Retention.Loop`) and the expiry of transcripts
--   (`Retention.Starved`).
-- - Common and Errors are shared: Boolean tests, association lists for dictionaries, lists measured
--   by native numbers, stable sorting, and results that may be exceptions.
-- - Tests runs the definitions and applies the theorems at concrete values.
--
-- How the code is read. A method that changes a store takes the store and returns it beside its
-- result; an exception is a value of `Error`. Where a coroutine waits, others may act:
-- `update_doc` takes the calls that other clients make between its read and its write, attempt by
-- attempt, and a lease operation is split into its read and its write. Instants are natural
-- numbers. The random part of a revision is a parameter, `uuid4 n` at the n-th draw, and theorems
-- that need it assume that no two draws agree. The answer of the language model, and the way a
-- transcription ends, are arguments. A run of the pipeline is the only writer while it lasts. The
-- answers of web servers, of models and of name resolution are functions of the number of the request.
--
-- Loops. `update_doc` is recursion on the attempts that are left, as in the code. The transcript
-- queue, the loops of the runner, the digest's marking and the log's tail are recursion on lists.
-- The redirect and download loops are recursion on the hops and attempts that are left, and the
-- archive walk is recursion on the months of one run, as in the code. The endpoints of a tier are
-- walked by recursion on the walk and on the retries that are left. The retention loop is recursion on a
-- number of rounds; one round more than there are expired records is enough, unless the database
-- refuses to delete 500 of them, and then no number is. The hard split of a text (`slices`) is
-- recursion on fuel, and its callers give the length of the text, which is enough.
--
-- Left out: the HTTP client, CouchDB's own server, feeds, speech recognition, prompts, templates
-- and files, the web console, configuration files, and the reports over documents (search,
-- entities, insights, signals). The free text of errors and log lines is not kept.
pub mod Archive
pub mod Chunking
pub mod Common
pub mod Digest
pub mod Episode
pub mod Errors
pub mod JobLease
pub mod Llm
pub mod Logs
pub mod Net
pub mod Operator
pub mod Query
pub mod Retention
pub mod Runner
pub mod Status
pub mod Store
pub mod Tests
pub mod Tier1
pub mod Transcript
pub mod Triage
