-- ===== src/Jobs/Tests.antt =====
-- Runs of the job runner, and the theorems about it at concrete inputs.
use phira_plus_backend.Prelude.{
  ◌≡◌, ◌≤◌, count_where, refl, String, Bool, true, false, none, some, [], ◌∷◌, insert, remove,
}
use phira_plus_backend.ApiError.{ok}
use phira_plus_backend.Jobs.{
  Job, JobDescriptor, Runner, descriptor_of, start, run, queued, succeeded, critical, high,
  deployment, before_dispatch, fixed_cli,
}
use phira_plus_backend.Jobs.Reachable.{
  empty, Reach, here, next, started, works_on, Reach-one_per_resource,
}
use phira_plus_backend.Jobs.Outcomes.{shown}
use phira_plus_backend.Jobs.Starting.{started_job_succeeds}

abbrev apply : JobDescriptor
apply = record {
  id = "pmp.update.apply";
  permission = "server:update";
  reauth = some critical;
  resource_key = some "server";
  retryable = true;
  cancel_mode = before_dispatch;
  executor = fixed_cli "update apply";
  stage = "executing_pmp_update";
  terminal = "completed";
}

apply_known : descriptor_of "pmp.update.apply" ≡ some apply
unfolding descriptor_of insert remove
apply_known = refl

abbrev backup : JobDescriptor
backup = record {
  id = "backup";
  permission = "server:manage";
  reauth = some high;
  resource_key = some "server";
  retryable = false;
  cancel_mode = before_dispatch;
  executor = deployment;
  stage = "backing-up";
  terminal = "completed";
}

backup_known : descriptor_of "backup" ≡ some backup
unfolding descriptor_of insert remove
backup_known = refl

abbrev row : Job
row = record {
  id = 7;
  type_ = "pmp.update.apply";
  resource_key = "server";
  state = queued;
  stage = "";
  started_at = none;
  finished_at = none;
  error = "";
}

abbrev armed : Runner
armed = record { jobs = row ∷ []; cancels = (7, 3) ∷ []; flags = (3, false) ∷ []; published = [] }

abbrev configured : String → Bool
configured t = true

start_apply : start configured "pmp.update.apply" 7 3 empty ≡ (ok row, armed)
unfolding start insert remove
start_apply = refl

started_job_succeeds_example :
    shown 7 (run 10 11 12 7 "pmp.update.apply" 3 none armed) ≡ some (succeeded, "completed", "")
started_job_succeeds_example =
    started_job_succeeds configured "pmp.update.apply" 7 3 10 11 12 empty armed row apply
      apply_known start_apply

Reach-armed : Reach (start configured "pmp.update.apply" 7 3 empty).1
Reach-armed = next here (started configured "pmp.update.apply" 7 3 refl)

Reach-one_per_resource_example :
    count_where (works_on "server") (start configured "pmp.update.apply" 7 3 empty).1.jobs ≤ 1
Reach-one_per_resource_example = Reach-one_per_resource Reach-armed "server" refl
