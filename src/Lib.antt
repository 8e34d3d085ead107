-- ===== src/Lib.antt =====
-- gg-relay: a gateway that runs agent sessions for its users, under a limit of concurrent sessions, lets
-- them be paused and resumed, and asks humans for decisions on behalf of the running agents.
--
-- A session is submitted to the manager (src/gg_relay/session/manager.py), which writes its row
-- (src/gg_relay/store/repository.py), starts a task that waits for a slot of the semaphore, and
-- publishes events. The task's agent may ask for a decision, which waits in the coordinator
-- (src/gg_relay/session/hitl/coordinator.py) until an endpoint (src/gg_relay/api/routers/hitl.py) or a
-- cancel answers it. At startup src/gg_relay/session/recovery.py settles the rows of the process before.
-- In front of the endpoints stands the limiter (src/gg_relay/api/middleware/rate_limit.py).
--
-- Files:
--   Base          shared names, Boolean tests, Python's dict, set and text operations
--   Domain        core/domain.py: the states of a session and the table of edges; Lifecycle is
--                 about what the table allows
--   Core          core/exceptions.py (Errors), core/event_bus.py (Bus), store/durable_event.py (Durable)
--   Store         store/repository.py, table `sessions`: create_session, update_session_status and the
--                 other statements that the manager uses; Locking and Crash are about its writes,
--                 Listing holds list_sessions and search_sessions, AuditLog the table `audit_log`
--   Paging        the statement and the cursors that the listings of store/repository.py share: Base64
--                 and Cursor are the tokens, Walk is a client that follows them
--   Audit         api/audit_service.py as its callers use it
--   Hitl          session/hitl/coordinator.py; Table is the table `hitl_requests`, Route the endpoints,
--                 Policy session/hitl/policy.py
--   Manager       session/manager.py: State (fields, cancel, bookkeeping), Locked
--                 (_update_status_locked), Submit, Pause (pause, resume), Run (_run), Frames
--                 (_record_session_end), Retry, Machine (the handlers in any order), Shutdown, Slots (the
--                 books of the semaphore)
--   Recovery      session/recovery.py; Watchdogs is about paused rows after a restart
--   RateLimit     api/middleware/rate_limit.py; Budget is about one request, Quota about all requests
--                 on a key, Table about the dicts
--   Alerts        subscribers/alert_router.py
--   Roles         api/dependencies/require_role.py
--   Auth          auth/store.py (the table of API keys); Resolver is auth/db_resolver.py, Bootstrap
--                 auth/env_resolver.py, Endpoints api/routers/admin_keys.py, Machine all of them in any
--                 order; Guard and Race are about the last admin, Revoked about revoked keys
--   Favorites     the table `session_favorites` and the star endpoints of api/routers/sessions.py
--   Comments      the table `session_comments` and api/routers/comments.py
--   Templates     the table `prompt_templates` and api/routers/templates.py
--   Retention     maintenance/retention.py; Batches is the loop of deletes, Kept the whole run
--   Redaction     redaction/engine.py; Secrets is about what redacted values still tell
--   Credentials   store/user_credentials.py and api/routers/user_credentials.py; Held is the table, Given
--                 what is read from it, Served one request, Story all of them in any order
--   Tests         the theorems at concrete inputs
--
-- Paths are below src/gg_relay unless they are written out. The state of a component is a record, a
-- handler is a function on it, and what a handler meets while it waits is an argument: the runner's
-- acknowledgement, and the writes of others to the shared table (`Others`). `_run` is cut at its waits
-- into run_start, run_bridged and run_finish; Machine puts these and the handlers into any order. A
-- handler of the manager runs to its end, a pause or a resume with its waits, before the next one
-- begins, and only the table changes within it; Pause/Race is about two pauses, or two resumes, that
-- overlap. `persists` of the manager tells whether the store of events takes them: where it does not,
-- publishing raises, and submit, pause, resume and the start of a task fail as the source does. The
-- resolver of keys is the one of one worker, with the lookups that are on their way. Requests for stars
-- run one after the other.
--
-- Ids, which the program only compares, are natural numbers. Times are natural numbers of one unit. The
-- limiter counts in whole parts of a token, where the source uses floats. All numbers of the source are
-- unbounded integers, so nothing wraps. Recursion is on lists and texts, but for `walk`, a client's loop
-- over pages, which runs on fuel: one page more than the table has rows is enough, and it ends with none
-- when the fuel does, and for the loop of deletes, one round more than the table has rows. Base64 is
-- written out; JSON, ISO times and SHA-1 are parameters with their laws, and so are the cache
-- library's eviction, the encryption of credentials, the sanitizer, LIKE of the database, and the
-- regular expressions of the redaction. Which rows a LIMIT without an order gives is a parameter with
-- its law.
--
-- Not modelled: HTTP glue, HTML, the executors, transports and the Docker and Kubernetes clients, Redis,
-- telemetry, migrations, argument and environment parsing.
pub mod Base
pub mod Domain
pub mod Core
pub mod Store
pub mod Paging
pub mod Audit
pub mod Hitl
pub mod Manager
pub mod Recovery
pub mod RateLimit
pub mod Alerts
pub mod Roles
pub mod Auth
pub mod Favorites
pub mod Comments
pub mod Templates
pub mod Tests
pub mod Retention
pub mod Redaction
pub mod Credentials
