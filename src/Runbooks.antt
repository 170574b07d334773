-- ===== src/Runbooks.antt =====
-- Runbooks: crates/ppb-server/src/automation/mod.rs, and the handlers of automation/routes.rs that
-- keep their tables, of migrations/0001_init.sql. The JSON of a definition stands for what serde
-- reads from it. A database is taken to be configured, and a statement to succeed but where a
-- constraint refuses it; fresh ids are arguments, and times are left out.
mod Editing
mod Tests
mod Steps
mod Run
use Prim.Native.String.{◌++◌ as string_append}
use phira_plus_backend.Prelude.{
  ℕ, ℤ, String, Bool, true, false, not, ◌&&◌, Option, none, some, List, [], ◌∷◌, ◌==◌, nat_eq,
  string_eq, any, find, select, update_where, contains, ltb, is_some, trim, if◌then◌else◌,
}
use phira_plus_backend.Json.{Value}
use phira_plus_backend.ErrorCode.{ErrorCode, resource_not_found}
use phira_plus_backend.ApiError.{
  ApiError, Result, ok, err, ◌>>=◌, ◌>>◌, api_error, validation, not_found, internal,
}
use phira_plus_backend.Permissions.{require}
use phira_plus_backend.Auth.{AuthPrincipal}
use phira_plus_backend.Actions.{find_action}
use phira_plus_backend.Actions.Execution.{ServerDb}
use phira_plus_backend.Actions.Broker.{Workers}
use phira_plus_backend.Actions.Routes.{principal_of}

-- `RunbookStep`; `with` is a word of the language here.
pub record RunbookStep : Type 0 where
  pub action : String
  pub with_args : Value
  pub wait_secs : Option ℕ

pub record RunbookDefinition : Type 0 where
  pub name : String
  pub description : String
  pub args : Value
  pub steps : List RunbookStep

-- A row of `runbooks`.
pub record Runbook : Type 0 where
  pub id : ℕ
  pub name : List ℕ
  pub description : String
  pub definition : RunbookDefinition
  pub created_by : Option ℕ
  pub updated_by : Option ℕ

-- A row of `runbook_runs`.
pub record RunbookRun : Type 0 where
  pub id : ℕ
  pub runbook_id : ℕ
  pub definition_snapshot : RunbookDefinition
  pub arguments_redacted : Value
  pub actor : String
  pub status : String

pub record CreateRunbookBody : Type 0 where
  pub name : List ℕ
  pub description : String
  pub definition : RunbookDefinition

-- The server that the handlers see: its clock, its tables and the workers of the command broker.
pub record State : Type 0 where
  pub now : ℕ
  pub db : ServerDb
  pub workers : Workers
  pub runbooks : List Runbook
  pub runs : List RunbookRun

abbrev pub wait_of : Option ℕ → ℕ
wait_of none = 0
wait_of (some secs) = secs

abbrev pub has_action : RunbookStep → Bool
has_action step = not (step.action == "")

-- The tests of one step.
pub validate_step : RunbookStep → Result (Unit {0})
validate_step step =
    if not (has_action step) && not (is_some step.wait_secs)
    then err (validation "step must have an action or a wait")
    else if has_action step && not (is_some (find_action step.action))
    then err (validation (string_append "unknown action in runbook step: " step.action))
    else if ltb 3600 (wait_of step.wait_secs)
    then err (validation "wait exceeds 3600s limit")
    else ok tt

pub validate_steps : List RunbookStep → Result (Unit {0})
unfolding validate_step
validate_steps [] = ok tt
validate_steps (step ∷ steps) = validate_step step >> validate_steps steps

abbrev pub is_runbook : ℕ → Runbook → Bool
is_runbook id r = r.id == id

abbrev pub is_run : ℕ → RunbookRun → Bool
is_run id r = r.id == id

pub permitted : AuthPrincipal → String → State → Result (Unit {0})
permitted auth permission st = require (some st.db.permissions) (principal_of auth) permission

pub fetch_runbook : ℕ → State → Result Runbook
fetch_runbook id st = elim (find (is_runbook id) st.runbooks) [
  | none ↦ err (not_found "runbook")
  | some r ↦ ok r
]

-- The foreign keys `created_by` and `updated_by`.
abbrev pub is_user : ℕ → State → Bool
is_user id st = any (λ u. u.0 == id) st.db.users

abbrev pub new_runbook : ℕ → AuthPrincipal → CreateRunbookBody → Runbook
new_runbook fresh auth body = record {
  id = fresh;
  name = trim body.name;
  description = body.description;
  definition = body.definition;
  created_by = some auth.sub;
  updated_by = some auth.sub;
}

-- What `create` and `update` ask before their statement.
pub editable : AuthPrincipal → CreateRunbookBody → State → Result (Unit {0})
unfolding permitted validate_steps
editable auth body st = permitted auth "automation:edit" st >> validate_steps body.definition.steps

pub create : ℕ → AuthPrincipal → CreateRunbookBody → State → Result Runbook × State
unfolding editable
create fresh auth body st = elim (editable auth body st) [
  | err e ↦ (err e, st)
  | ok done ↦ if not (is_user auth.sub st) then (err internal, st) else (
    ok (new_runbook fresh auth body),
    record st { runbooks = new_runbook fresh auth body ∷ st.runbooks },
  )
]

abbrev pub edited : AuthPrincipal → CreateRunbookBody → Runbook → Runbook
edited auth body r = record r {
  name = trim body.name;
  description = body.description;
  definition = body.definition;
  updated_by = some auth.sub;
}

-- The `UPDATE … RETURNING` of `update`; `db_err` names a missing row.
pub update_row : ℕ → AuthPrincipal → CreateRunbookBody → State → Result Runbook × State
update_row id auth body st = elim (find (is_runbook id) st.runbooks) [
  | none ↦ (err (api_error resource_not_found "not found"), st)
  | some r ↦ if not (is_user auth.sub st) then (err internal, st) else (
    ok (edited auth body r),
    record st { runbooks = update_where (is_runbook id) (edited auth body) st.runbooks },
  )
]

pub update : ℕ → AuthPrincipal → CreateRunbookBody → State → Result Runbook × State
unfolding editable update_row
update id auth body st = elim (editable auth body st) [
  | err e ↦ (err e, st)
  | ok done ↦ update_row id auth body st
]

pub get_one : ℕ → AuthPrincipal → State → Result Runbook
unfolding permitted fetch_runbook
get_one id auth st = permitted auth "automation:view" st >> fetch_runbook id st

-- `DELETE FROM runbooks`, which deletes the runs too.
pub delete_runbook : ℕ → AuthPrincipal → State → Result (Unit {0}) × State
unfolding permitted
delete_runbook id auth st = elim (permitted auth "automation:edit" st) [
  | err e ↦ (err e, st)
  | ok done ↦ (
    ok tt,
    record st {
      runbooks = select (λ r. not (is_runbook id r)) st.runbooks;
      runs = select (λ r. not (r.runbook_id == id)) st.runs;
    },
  )
]

pub get_run : ℕ → AuthPrincipal → State → Result RunbookRun
unfolding permitted
get_run id auth st =
    permitted auth "automation:view" st
    >> (elim (find (is_run id) st.runs) [ none ↦ err (not_found "runbook run") | some r ↦ ok r ])

abbrev pub unfinished : List String
unfinished = "queued" ∷ "running" ∷ []

abbrev pub with_status : String → RunbookRun → RunbookRun
with_status status r = record r { status = status }

pub cancel_run : ℕ → AuthPrincipal → State → Result ℕ × State
unfolding permitted
cancel_run id auth st = elim (permitted auth "automation:execute" st) [
  | err e ↦ (err e, st)
  | ok done ↦ (
    ok id,
    record st {
      runs =
          update_where (λ r. is_run id r && contains unfinished r.status) (with_status "cancelled")
            st.runs;
    },
  )
]
