-- ===== src/Lib.antt =====
-- Verification of the NOC Report Builder.
--
-- The program takes requests for AI jobs in a web API, stores them in PostgreSQL, hands them over by RabbitMQ to
-- workers, and keeps uploaded evidence in object storage. This library models the parts that decide
-- whether a job is lost, done twice or done wrong, and whether evidence disappears.
--
-- - `Job`: the rows of the table `jobs` and the statements of bridge/noc_bridge/db.py, one function
--   per statement. A table is a function from ids to rows; a statement returns the table and what the
--   source returns. `Job/Claim` and `Job/Ownership` are about `claim_job`, `Job/Lifecycle` about runs of the
--   statements that check the claim token.
-- - `Json`, `Message`: JSON documents as data, and the checks of packages/contracts/job_message.schema.json.
-- - `Topology`: `queue_names` and `declare_topology` (bridge/noc_bridge/queue_topology.py,
--   apps/api/app/core/queue.py) with the constants of packages/contracts/job_protocol.json;
--   `Topology/Routing` follows a message through the declared bindings.
-- - `Failures`, `Result`: `classify_failure` (bridge/noc_bridge/failures.py), the exception classes,
--   and calls that may raise. A method that changes a state and may raise returns its result and the
--   state, so that what was written before a raise stays written.
-- - `Worker`: `handle_delivery` and `_settle_failure` (bridge/noc_bridge/worker.py). The state is the
--   job table, what the broker has confirmed, and the metrics; every call that leaves the process may fail and may find what
--   other processes have committed (`Outside`). `process_message` and the reconciliation of a
--   stored artifact are arguments. `Worker/Process`, `Worker/Evidence` and `Worker/Attempts` model
--   `process_message` itself: the verified evidence, the bounded loops of output attempts and the order
--   of the stored artifacts (with the keys of bridge/noc_bridge/daily_report.py).
-- - `Requeue`: the controls of the dead-letter queue (apps/api/app/core/queue.py,
--   apps/api/app/api/v1/routers/admin.py), without the audit rows.
-- - `Enqueue`: `build_job_message` (apps/api/app/core/queue.py) and `enqueue_job`
--   (apps/api/app/jobs.py). What it adds is read by the dispatcher and by the worker.
-- - `Outbox`: the dispatcher's pass and the clean-up (apps/api/app/outbox.py). `Outbox/Selection`
--   and `Outbox/Rows` are about one round, `Outbox/Dispatch`, `Outbox/Progress` and `Outbox/Retention` about
--   whole calls.
-- - `Evidence`: the purge of evidence (apps/api/app/evidence_lifecycle.py,
--   apps/api/app/evidence_purge_worker.py), and `Evidence/Uploads` the clean-up of abandoned uploads
--   by the same worker. `Table` holds the lemmas on tables that it uses.
-- - `Document`: the report document (bridge/noc_bridge/report_document.py) and its JSON
--   (bridge/noc_bridge/report_document_json.py). `Document/Reading` models `build_report_document`, `Document/Preview` the
--   payload for the browser with the private list of screenshots, and the audit JSON.
-- - `Composition`: `compose_report` (bridge/noc_bridge/report_composition.py) with the presentation of an
--   analysis (bridge/noc_bridge/analysis_presentation.py) and the date of a shift
--   (bridge/noc_bridge/time_projection.py). `Composition/Plan` reads the snapshot and the plan,
--   `Composition/Select` makes the checks and selections, `Composition/Blocks` the blocks of one
--   incident, `Composition/Layout` the document. What Python's library does (`str`, `int`, hashing, time
--   zones) is a record of functions, `Library`.
-- - `DailyInput`: what the language model is given for a daily report (`build_daily_report_input`,
--   bridge/noc_bridge/daily_report.py).
-- - `LegacyReport`: the historical result shape, with its checks (bridge/noc_bridge/report_validation.py) and its
--   assembler (`build_daily_report_document`, bridge/noc_bridge/report_document.py).
-- - `Validation`: the checks of a log analysis (`validate_log_triage_result`,
--   bridge/noc_bridge/validation.py). `Validation/Finds` has the loop over the findings, `Validation/Language`
--   the checks of the texts. What the regular expressions and the floats decide is a record of functions, `Text`.
--
-- A UUID is its integer and a time a natural number of microseconds; PostgreSQL, RabbitMQ, the object storage
-- and jsonschema's UUID format are arguments. The loops `for _ in range(n)` recur on the number of
-- rounds left, which is the bound of the source. `_parse_blocks` calls itself on nested blocks; its model recurs on the
-- number of nested calls that the interpreter allows, and the depth of the input is enough. Statements of one
-- transaction run together, and what other processes commit comes between transactions; but the refused
-- update of `claim_job` locks nothing, so that they may also commit before its second statement.
--
-- Not modelled: a database error after a confirmed publication of the outbox, the checks of a daily plan and the reading of schema files, the telemetry and metadata
-- of the processors, the preprocessing of logs, the rendering to DOCX, the skill registry, the HTTP
-- endpoints but the dead-letter controls, the table declarations, the web client and the deployment.
pub mod Common
pub mod Document
pub mod Composition
pub mod DailyInput
pub mod LegacyReport
pub mod Validation
pub mod Job
pub mod Json
pub mod Failures
pub mod Result
pub mod Message
pub mod Topology
pub mod Worker
pub mod Table
pub mod Evidence
pub mod Outbox
pub mod Enqueue
pub mod Requeue
mod Tests
