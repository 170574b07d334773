-- ===== src/Lib.antt =====
-- Verification of the core of the Phira-plus backend (PPB), the Rust server of this repository
-- (crates/ppb-server). The server stands between a game panel, its PostgreSQL database and the game
-- server PMP: routes authenticate a principal, ask the permission resolver, and call a component,
-- which changes an in-memory store or the database and may call PMP. Modelled are the components that
-- decide something by themselves, and of the routes those of sessions, actions, runbooks, redemption
-- codes and the sharing of replays.
--
-- A component is a module, with its state as a record, one function for each operation, and the
-- theorems in child modules named for what they prove. A fallible operation returns `Result`, with
-- the source's error code and message; an operation that changes state returns the state after it,
-- on the error paths too. A table is a list of rows; the constraints of the migrations that an
-- operation relies on (unique, partial unique index, foreign key, cascade) are written out where a
-- statement meets them. Fresh uuids, the clock and the answers of PMP are arguments.
--
-- - Prelude: lists as tables, association lists for hash maps, text as code points, Boolean tests.
-- - ErrorCode, ApiError, Json: crates/ppb-server/src/error/mod.rs. `api_error` is `ApiError::new`,
--   `denied` is `permission_denied`, `into_response` the `IntoResponse` instance. Every other
--   component raises its errors through them.
-- - JoinIntent: crates/ppb-server/src/join_intent/mod.rs and `spawn_join_intent_task` of app.rs
--   (`handle_online`). The two maps of `JoinIntentStore` are association lists; each function has the
--   name of its method and runs without another in between, but for what other calls do while
--   `handle_online` awaits a move. JoinIntent/Interleaving takes the methods apart into single calls
--   of the maps, between which other tasks run (`resume`, `Step`); by the lemmas of its Alone, the
--   calls of `create`, `cancel` or `mark_terminal` with none in between are those functions.
-- - Jobs: crates/ppb-server/src/jobs/mod.rs, registry.rs and runner.rs, with
--   migrations/0007 for the index of active jobs. A task's `run` is cut at its two suspension points
--   into `begin`, `execute` and `conclude`, so that Jobs/Reachable can interleave them with other
--   calls; `run` is their composition.
-- - Permissions: crates/ppb-server/src/permissions/manifest.rs, resolver.rs, groups.rs (parent
--   module) and repo.rs (Permissions/Groups, and the membership operations in the parent), over
--   `groups`, `group_members` and `group_permissions` of migrations/0001_init.sql, with the ids of
--   `users`. Permissions/Groups/Reachable starts with the bootstrap of the first start (app.rs) and
--   runs one call after another.
-- - RateLimit: crates/ppb-server/src/middleware/rate_limit.rs.
-- - Social: crates/ppb-server/src/social/mod.rs, over `friend_requests`, `friendships` and
--   `user_blocks`.
-- - ReplayAccess: crates/ppb-server/src/replay/visibility.rs and `resolve_share_token` of
--   replay/mod.rs; it asks Social for the friends of an owner, and its requester is the principal of
--   Permissions. The hash of a token is a parameter. ReplayAccess/Sharing: the other statements of
--   replay/mod.rs and the owner's handlers of replay/routes.rs.
-- - Coupons: crates/ppb-server/src/admin/coupons.rs, the redemption codes. A redemption, which locks
--   the code's row, is one step (Coupons/Redeem); its arm `account_role` inserts a member into the
--   tables of Permissions.
-- - Auth: crates/ppb-server/src/auth/types.rs, session.rs, jwt.rs and middleware/auth.rs, over
--   `sessions`. `authenticate` is the extractor of a principal. Auth/Handlers: reauth.rs and the
--   handlers refresh and logout of auth/routes.rs, with `phira_credentials`.
-- - Csrf: crates/ppb-server/src/middleware/csrf.rs. It reads the same request as Auth.
-- - Actions: crates/ppb-server/src/actions/types.rs and registry.rs. Actions/Execution: executor.rs,
--   pmp/cli/mod.rs and the errors of pmp/openuds/client.rs. Actions/Broker: commands/broker.rs, whose
--   workers are state machines that Reach interleaves with submissions. Actions/Routes:
--   `execute_action` and `execute_command` of actions/routes.rs, which ask Permissions, Auth and
--   RateLimit, submit to the broker and write `command_runs`.
-- - Runbooks: crates/ppb-server/src/automation/mod.rs and routes.rs. Runbooks/Steps is the body of the
--   loop of `run`, and Runbooks/Run the handler; they ask Permissions and Auth as the actions do, and
--   submit to the broker. What the server undergoes while a run awaits a command or sleeps is the
--   parameter `World`, an arbitrary change of the state, a cancellation included.
-- - Gateway: where the login page redirects and the consent gate of the logins,
--   crates/ppb-server/src/auth/gateway.rs and consent.rs, with `validate_return_to` of auth/routes.rs.
-- - OpenUds: crates/ppb-server/src/pmp/openuds/protocol.rs.
-- - Pagination: crates/ppb-server/src/error/pagination.rs.
--
-- Numbers are natural, or integers where the source's can be negative; times are nanoseconds
-- (JoinIntent) or seconds (RateLimit, Auth), and a difference of times is written as a sum on the other
-- side. No 64-bit overflow of a time is modelled: the clock's values are far from the bound. Every
-- loop of the source runs over a list that is there when it begins, and is structural recursion
-- here, so no loop needs fuel; the steps of a runbook are such a list.
--
-- Widths are written out where the source cuts a number to one (the offset of a page, the length of a
-- frame, a host's id). The decimal text of a number has twenty digits of fuel, enough for 64 bits.
--
-- Calls that write the database at the same time are modelled where a component says so (Jobs,
-- Actions/Broker, Runbooks); elsewhere its calls run one after another.
--
-- Not modelled: the HTTP routes but those named above, the building of cookies, the logins and their
-- password hashing, the database and its failures but for the constraints, the event bus, the sockets
-- to PMP, the Phira API, notifications and push, logs, metrics, configuration and
-- deployment. The JWT library, HMAC, SHA-256, JSON texts and the answers of PMP are parameters. What a
-- component leaves out of its source is said at the top of its file.
pub mod Prelude
pub mod ErrorCode
pub mod Json
pub mod ApiError
pub mod Gateway
pub mod JoinIntent
pub mod Jobs
pub mod Permissions
pub mod Auth
pub mod Coupons
pub mod Csrf
pub mod Actions
pub mod OpenUds
pub mod Pagination
pub mod RateLimit
pub mod Runbooks
pub mod Social
pub mod ReplayAccess
