-- ===== src/Jobs.antt =====
-- Long-running jobs: crates/ppb-server/src/jobs/mod.rs, registry.rs and runner.rs, over the table
-- `jobs` with the partial unique index of migrations/0007. The database is taken to be configured;
-- `progress`, which is always NULL, is left out.
mod Exclusion
mod Reachable
mod Outcomes
mod Starting
mod Tests
use Prim.Native.String.{◌++◌ as string_append}
use phira_plus_backend.Prelude.{
  ℕ, ◌+◌, String, Bool, true, false, not, ◌&&◌, ◌||◌, Option, none, some, List, [], ◌∷◌, ◌++◌, ◌==◌,
  nat_eq, string_eq, lookup, insert, remove, any, find, update_where, count_where, ltb,
  if◌then◌else◌, is_some,
}
use phira_plus_backend.ErrorCode.{
  job_type_unknown, capability_not_supported, job_already_running, job_not_cancellable,
  job_not_retryable, job_not_found, internal_error,
}
use phira_plus_backend.ApiError.{ApiError, Result, ok, err, api_error}

-- `ReauthRisk`.
pub data ReauthRisk : Type 0 where
  high critical : ReauthRisk

pub data JobExecutor : Type 0 where
  fixed_cli : String → JobExecutor
  deployment : JobExecutor

pub data CancelMode : Type 0 where
  before_dispatch : CancelMode

pub record JobDescriptor : Type 0 where
  pub id : String
  pub permission : String
  pub reauth : Option ReauthRisk
  pub resource_key : Option String
  pub retryable : Bool
  pub cancel_mode : CancelMode
  pub executor : JobExecutor
  pub stage : String
  pub terminal : String

abbrev pub seed_jobs : List JobDescriptor
seed_jobs =
    record {
      id = "pmp.update.check";
      permission = "server:update";
      reauth = none;
      resource_key = some "server";
      retryable = true;
      cancel_mode = before_dispatch;
      executor = fixed_cli "update check";
      stage = "checking";
      terminal = "checked";
    }
    ∷ record {
      id = "pmp.update.apply";
      permission = "server:update";
      reauth = some critical;
      resource_key = some "server";
      retryable = true;
      cancel_mode = before_dispatch;
      executor = fixed_cli "update apply";
      stage = "executing_pmp_update";
      terminal = "completed";
    }
    ∷ record {
      id = "pmp.update.cancel";
      permission = "server:update";
      reauth = none;
      resource_key = some "server";
      retryable = false;
      cancel_mode = before_dispatch;
      executor = fixed_cli "update cancel";
      stage = "cancelling_update";
      terminal = "completed";
    }
    ∷ record {
      id = "pmp.update.force";
      permission = "server:update";
      reauth = some critical;
      resource_key = some "server";
      retryable = false;
      cancel_mode = before_dispatch;
      executor = fixed_cli "update force";
      stage = "forcing_update";
      terminal = "completed";
    }
    ∷ record {
      id = "ppf.build";
      permission = "server:manage";
      reauth = some high;
      resource_key = some "ppf";
      retryable = false;
      cancel_mode = before_dispatch;
      executor = deployment;
      stage = "building";
      terminal = "completed";
    }
    ∷ record {
      id = "backup";
      permission = "server:manage";
      reauth = some high;
      resource_key = some "server";
      retryable = false;
      cancel_mode = before_dispatch;
      executor = deployment;
      stage = "backing-up";
      terminal = "completed";
    }
    ∷ []

-- `JobRegistry::new`: the descriptors by their ids, a later one in place of an earlier.
register : List JobDescriptor → List (String × JobDescriptor) → List (String × JobDescriptor)
unfolding insert
register [] m = m
register (d ∷ ds) m = register ds (insert d.id d m)

-- `JobRegistry::get`.
pub descriptor_of : String → Option JobDescriptor
unfolding register
descriptor_of id = lookup id (register seed_jobs [])

-- The column `state`.
pub data JobState : Type 0 where
  queued running succeeded failed cancelled not_implemented : JobState

pub record Job : Type 0 where
  pub id : ℕ
  pub type_ : String
  pub resource_key : String
  pub state : JobState
  pub stage : String
  pub started_at : Option ℕ
  pub finished_at : Option ℕ
  pub error : String

-- `state IN ('queued', 'running')`.
abbrev pub is_active : JobState → Bool
is_active queued = true
is_active running = true
is_active _ = false

abbrev pub is_running : JobState → Bool
is_running running = true
is_running _ = false

-- The row stands in the partial unique index under the key.
abbrev pub holds : String → Job → Bool
holds key j = j.resource_key == key && is_active j.state

abbrev pub has_id : ℕ → Job → Bool
has_id id j = j.id == id

-- `INSERT INTO jobs`, refused by the index if the key is held.
pub insert_job : ℕ → String → String → List Job → Option (Job × List Job)
insert_job fresh job_type key jobs =
    if not (key == "") && any (holds key) jobs then none else some (row, row ∷ jobs)
  where
    row : Job
    row = record {
      id = fresh;
      type_ = job_type;
      resource_key = key;
      state = queued;
      stage = "";
      started_at = none;
      finished_at = none;
      error = "";
    }

-- Whether the row, as changed, would take a key that another row holds.
pub clashes : ℕ → Job → List Job → Bool
clashes id new jobs =
    not (new.resource_key == "")
    && (is_active new.state && any (λ j. not (has_id id j) && holds new.resource_key j) jobs)

-- `UPDATE jobs SET … WHERE id = $1`, refused by the index as a whole; no row is changed if none has
-- the id.
pub update_job : ℕ → (Job → Job) → List Job → Option (List Job)
unfolding clashes
update_job id f jobs = elim (find (has_id id) jobs) [
  | none ↦ some jobs
  | some j ↦ if clashes id (f j) jobs then none else some (update_where (has_id id) f jobs)
]

-- `jobs::create`.
pub create : ℕ → String → String → List Job → Result (Job × List Job)
unfolding insert_job
create fresh job_type key jobs = elim (insert_job fresh job_type key jobs) [
  | none ↦ err (api_error job_already_running "job already running for this resource")
  | some row ↦ ok row
]

-- The columns that `jobs::update_state` writes.
pub with_state : ℕ → JobState → String → String → Job → Job
with_state now state stage error j = record j {
  state = state;
  stage = stage;
  error = error;
  started_at = if is_running state && not (is_some j.started_at) then some now else j.started_at;
  finished_at = if is_active state then j.finished_at else some now;
}

pub record Runner : Type 0 where
  pub jobs : List Job
  -- `cancels`, the flag of each job in progress: the address of a shared `AtomicBool`.
  pub cancels : List (ℕ × ℕ)
  -- The flags that are set.
  pub flags : List (ℕ × Bool)
  -- What `publish` sent to the event bus, latest last.
  pub published : List (ℕ × JobState × String)

-- `let _ = update_state(…)`: an error of the database leaves the table as it was.
pub update_state : ℕ → ℕ → JobState → String → String → Runner → Runner
unfolding update_job with_state
update_state now id state stage error r = record r {
  jobs = elim (update_job id (with_state now state stage error) r.jobs) [
    | none ↦ r.jobs
    | some js ↦ js
  ];
}

-- `update_state` and the `publish` that follows it.
pub advance : ℕ → ℕ → JobState → String → String → Runner → Runner
unfolding update_state
advance now id state stage error r = record (update_state now id state stage error r) {
  published = r.published ++ (id, state, stage) ∷ [];
}

pub or_empty : Option String → String
or_empty none = ""
or_empty (some s) = s

pub is_deployment : JobExecutor → Bool
is_deployment deployment = true
is_deployment (fixed_cli c) = false

-- A new flag, not set, for a job.
pub arm : ℕ → ℕ → Runner → Runner
unfolding insert
arm id flag r = record r { cancels = insert id flag r.cancels; flags = insert flag false r.flags }

-- `JobRunner::start`, up to the spawned `run`. `configured` is `DeploymentAdapter::job_configured`;
-- the row's id and the flag's address are fresh.
pub start : (String → Bool) → String → ℕ → ℕ → Runner → Result Job × Runner
unfolding descriptor_of is_deployment or_empty create arm
start configured job_type fresh flag r = elim (descriptor_of job_type) [
  | none ↦ (err (api_error job_type_unknown "unknown job type"), r)
  | some d ↦
      if is_deployment d.executor && not (configured job_type)
      then (err (api_error capability_not_supported "deployment capability is not configured"), r)
      else elim (create fresh job_type (or_empty d.resource_key) r.jobs) [
        | err e ↦ (err e, r)
        | ok (job, jobs) ↦ (ok job, arm job.id flag (record r { jobs = jobs }))
      ]
]

-- `JobRunner::lookup`.
pub find_job : ℕ → List Job → Result Job
find_job id jobs = elim (find (has_id id) jobs) [
  | none ↦ err (api_error job_not_found "job not found")
  | some j ↦ ok j
]

pub set_flag : Option ℕ → Runner → Runner
unfolding insert
set_flag none r = r
set_flag (some flag) r = record r { flags = insert flag true r.flags }

pub cancel_in_state : JobState → ℕ → Runner → Result (Unit {0}) × Runner
unfolding set_flag
cancel_in_state queued id r = (ok tt, set_flag (lookup id r.cancels) r)
cancel_in_state running id r =
    (err (api_error job_not_cancellable "job already dispatched; cannot cancel"), r)
cancel_in_state _ id r = (err (api_error job_not_cancellable "job already finished"), r)

-- `JobRunner::cancel`.
pub cancel : ℕ → Runner → Result (Unit {0}) × Runner
unfolding find_job descriptor_of cancel_in_state
cancel id r = elim (find_job id r.jobs) [
  | err e ↦ (err e, r)
  | ok j ↦ elim (descriptor_of j.type_) [
    | none ↦ (err (api_error job_type_unknown "unknown job type"), r)
    | some d ↦ elim d.cancel_mode [ before_dispatch ↦ cancel_in_state j.state id r ]
  ]
]

-- `JobRunner::ensure_resource_free`.
pub resource_free : Option String → List Job → Bool
resource_free none jobs = true
resource_free (some key) jobs = not (ltb 0 (count_where (holds key) jobs))

pub requeued : Job → Job
requeued j = record j {
  state = queued;
  stage = "";
  error = "";
  started_at = none;
  finished_at = none;
}

abbrev pub may_retry : JobState → Bool
may_retry failed = true
may_retry cancelled = true
may_retry _ = false

-- `JobRunner::retry`, up to the spawned `run`.
pub retry : ℕ → ℕ → Runner → Result (Unit {0}) × Runner
unfolding find_job descriptor_of resource_free requeued update_job arm
retry id flag r = elim (find_job id r.jobs) [
  | err e ↦ (err e, r)
  | ok j ↦
      if not (may_retry j.state)
      then (err (api_error job_not_retryable "only failed or cancelled jobs can be retried"), r)
      else elim (descriptor_of j.type_) [
        | none ↦ (err (api_error job_type_unknown "unknown job type"), r)
        | some d ↦
            if not (resource_free d.resource_key r.jobs)
            then (err (api_error job_already_running "job already running for this resource"), r)
            else elim (update_job id requeued r.jobs) [
              | none ↦
                  (err (api_error job_already_running "job already running for this resource"), r)
              | some jobs ↦ (ok tt, arm id flag (record r { jobs = jobs }))
            ]
      ]
]

-- The text of an error, or the terminal stage: `Result<(String, Option<f32>), String>`.
pub data Outcome : Type 0 where
  done : String → Outcome
  error : String → Outcome

pub flag_is_set : ℕ → List (ℕ × Bool) → Bool
flag_is_set flag m = elim (lookup flag m) [ none ↦ false | some b ↦ b ]

-- The dispatch of `JobRunner::execute`. The answer of PMP or of the deployment adapter is an
-- argument: `none` for success, else the error's text.
pub dispatch : JobDescriptor → Option String → Outcome
dispatch d none = done d.terminal
dispatch d (some e) = elim d.executor [
  | fixed_cli c ↦ error (string_append "failed: " e)
  | deployment ↦ error e
]

-- `JobRunner::execute`, with `tick_stage`: the flag is read once, before the dispatch.
pub execute : ℕ → ℕ → String → ℕ → Option String → Runner → Outcome × Runner
unfolding descriptor_of flag_is_set advance dispatch
execute now id job_type flag answer r = elim (descriptor_of job_type) [
  | none ↦ (error (string_append "unknown job type: " job_type), r)
  | some d ↦
      if flag_is_set flag r.flags
      then (error "cancelled", advance now id cancelled "cancelled" "cancelled" r)
      else (dispatch d answer, advance now id running d.stage "" r)
]

-- The last part of `JobRunner::run`: the outcome is stored and published.
pub conclude : ℕ → ℕ → Outcome × Runner → Runner
unfolding advance
conclude now id (done stage, r) = advance now id succeeded stage "" r
conclude now id (error e, r) =
    if e == "not_implemented"
    then advance now id not_implemented "not_implemented" e r
    else advance now id failed (if e == "timeout" then "timeout" else "failed") e r

-- The first part of `JobRunner::run`.
pub begin : ℕ → ℕ → Runner → Runner
unfolding advance
begin now id r = advance now id running "starting" "" r

-- `JobRunner::run`, with the times of its three parts.
pub run : ℕ → ℕ → ℕ → ℕ → String → ℕ → Option String → Runner → Runner
unfolding begin execute conclude remove
run t0 t1 t2 id job_type flag answer r =
    let ended = conclude t2 id (execute t1 id job_type flag answer (begin t0 id r)) in
    record ended { cancels = remove id ended.cancels }
