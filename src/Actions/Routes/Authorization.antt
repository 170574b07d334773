-- ===== src/Actions/Routes/Authorization.antt =====
-- Who gets an action executed: crates/ppb-server/src/actions/routes.rs, with the resolver, the
-- registry and the reauthentication that it asks.
use phira_plus_backend.Prelude.{
  ℕ, ℤ, ◌≡◌, ◌∙◌, refl, sym, ap, subst, ◌⊎◌, inl, inr, String, true, false, not, ◌&&◌, Option, none,
  some, ◌==◌, nat_eq, string_eq, find, arith, Bool-cases, Option-cases, if◌then◌else◌,
}
use phira_plus_backend.Json.{Value, object, string, end, field, get_string}
use phira_plus_backend.ApiError.{
  Result, ApiError, ok, err, ◌>>=◌, ◌>>◌, Result-cases, bind_ok, then_ok, not_found, denied,
}
use phira_plus_backend.Permissions.{has_permission}
use phira_plus_backend.Auth.{AuthPrincipal, TokenLibrary, Header}
use phira_plus_backend.Auth.Handlers.Reauth.{
  IsReauthenticated, check_reauth_header-IsReauthenticated,
}
use phira_plus_backend.Actions.{ActionDescriptor, find_action, is_job_only_action}
use phira_plus_backend.Actions.Execution.{
  Env, Reply, OpenUdsError, reply, refusal, CommandTask, ServerDb,
}
use phira_plus_backend.Actions.Broker.{submit}
use phira_plus_backend.Actions.Routes.{
  Server, principal_of, require_db, admit, host_of, room_info, or_error, is_host, verify_real_host,
  authorize, reauth_risk, check_action_reauth, admitted, task_of, execute_action,
}

-- The caller's phira id is the host's in the answer that PMP gives to the room's info.
pub record IsHost (env : Env) (auth : AuthPrincipal) (args : Value) (d : ServerDb) : Type 0 where
  pub room_id : String
  pub info : Value
  pub user : ℕ × ℤ
  pub asked : get_string "room_id" args ≡ some room_id
  pub found : find (λ u. u.0 == auth.sub) d.users ≡ some user
  pub told : env.pmp "room.info" (object (field "room_id" (string room_id) end)) none ≡ reply info
  pub same : is_host (host_of info) user.1 ≡ true

or_error-ok : {A : Type 0} (e : ApiError) (o : Option A) (a : A) → or_error e o ≡ ok a → o ≡ some a
or_error-ok e none a h = absurd (ground (arith, h))
or_error-ok e (some b) a h = ground (arith, h)

Reply-cases : (r : Reply) → ((v : Value) × (r ≡ reply v)) ⊎ ((e : OpenUdsError) × (r ≡ refusal e))
Reply-cases (reply v) = inl (v, refl)
Reply-cases (refusal e) = inr (e, refl)

room_info-ok :
    (env : Env) (room_id : String) (host : Option ℤ)
    → room_info env room_id ≡ ok host
    → (info : Value) × (env.pmp "room.info" (object (field "room_id" (string room_id) end)) none
        ≡ reply info)
      × (host_of info ≡ host)
room_info-ok env room_id host h =
    elim (Reply-cases (env.pmp "room.info" (object (field "room_id" (string room_id) end)) none)) [
      | inr (e, r) ↦ absurd (ground (arith, r, h))
      | inl (info, r) ↦ (info, r, ground (arith, r, h))
    ]

verify_real_host-IsHost :
    (env : Env) (auth : AuthPrincipal) (args : Value) (d : ServerDb)
    → verify_real_host env auth args (some d) ≡ ok true
    → IsHost env auth args d
unfolding verify_real_host require_db
verify_real_host-IsHost env auth args d h =
    let (room_id, asked, after_room) = bind_ok (or_error _ (get_string "room_id" args)) _ true h in
    let (user, found, after_user) =
      bind_ok (or_error (not_found "user") (find (λ u. u.0 == auth.sub) d.users)) _ true
        after_room in
    let (host, told, last) = bind_ok (room_info env room_id) _ true after_user in
    let (info, answered, read) = room_info-ok env room_id host told in
    record {
      room_id = room_id;
      info = info;
      user = user;
      asked = or_error-ok _ _ room_id asked;
      found = or_error-ok _ _ user found;
      told = answered;
      same = ap (λ o. is_host o user.1) read ∙ ground (arith, last);
    }

-- Why an action was executed.
pub record IsAuthorized (env : Env) (lib : TokenLibrary) (now : ℕ) (auth : AuthPrincipal)
    (header : Header) (action_id : String) (args : Value) (d : ServerDb) (task : CommandTask)
    : Type 0 where
  pub action : ActionDescriptor
  pub found : find_action action_id ≡ some action
  pub not_a_job : is_job_only_action action.id ≡ false
  pub not_raw : (action.id == "pmp.cli.execute") ≡ false
  pub granted :
      (has_permission (some d.permissions) (principal_of auth) action.permission ≡ ok true)
      ⊎ ((action.host_allowed ≡ true) × IsHost env auth args d)
  pub confirmed :
      (action.reauth ≡ false) ⊎ IsReauthenticated lib now auth.sid header (reauth_risk action.risk)
  pub named : task.action ≡ action.id

admit-ok :
    (action_id : String) (action : ActionDescriptor)
    → admit action_id ≡ ok action
    → (find_action action_id ≡ some action)
      × (is_job_only_action action.id ≡ false)
      × ((action.id == "pmp.cli.execute") ≡ false)
unfolding admit
admit-ok action_id action h = elim (Option-cases (find_action action_id)) [
  | inl e ↦ absurd (ground (arith, e, h))
  | inr (a, e) ↦ elim (Bool-cases (is_job_only_action a.id)) [
    | inl j ↦ absurd (ground (arith, e, j, h))
    | inr j ↦ elim (Bool-cases (a.id == "pmp.cli.execute")) [
      | inl c ↦ absurd (ground (arith, e, j, c, h))
      | inr c ↦
          let same : a ≡ action = ground (arith, e, j, c, h) in
          subst
            (λ (b : ActionDescriptor).
              (find_action action_id ≡ some b)
              × (is_job_only_action b.id ≡ false)
              × ((b.id == "pmp.cli.execute") ≡ false))
            same (e, j, c)
    ]
  ]
]

authorize-ok :
    (env : Env) (auth : AuthPrincipal) (action : ActionDescriptor) (args : Value) (d : ServerDb)
    → authorize env auth action args (some d) ≡ ok tt
    → (has_permission (some d.permissions) (principal_of auth) action.permission ≡ ok true)
      ⊎ ((action.host_allowed ≡ true) × IsHost env auth args d)
unfolding authorize
authorize-ok env auth action args d h =
    let (held, p, rest) =
      bind_ok (has_permission (some d.permissions) (principal_of auth) action.permission) _ tt h in
    elim (Bool-cases held) [
      | inl e ↦ inl (p ∙ ap ok e)
      | inr e ↦ elim (Bool-cases action.host_allowed) [
        | inr n ↦ absurd (ground (arith, e, n, rest))
        | inl a ↦
            let asked : (verify_real_host env auth args (some d) >>= λ host.
            if not held && not host then err denied else ok tt)
                ≡ ok tt =
              ground (arith, a, rest) in
            let (host, v, w) = bind_ok (verify_real_host env auth args (some d)) _ tt asked in
            let yes : host ≡ true = ground (arith, e, w) in
            inr (a, verify_real_host-IsHost env auth args d (v ∙ ap ok yes))
      ]
    ]

pub check_action_reauth-ok :
    (lib : TokenLibrary) (now : ℕ) (auth : AuthPrincipal) (header : Header)
    (action : ActionDescriptor)
    → check_action_reauth lib now auth header action ≡ ok tt
    → (action.reauth ≡ false) ⊎ IsReauthenticated lib now auth.sid header (reauth_risk action.risk)
unfolding check_action_reauth
check_action_reauth-ok lib now auth header action h = elim (Bool-cases action.reauth) [
  | inr n ↦ inl n
  | inl r ↦ inr (
      check_reauth_header-IsReauthenticated lib now auth header (reauth_risk action.risk)
        (ground (arith, r, h)))
]

submit-task :
    (sent : Result (Unit {0})) (task t : CommandTask) → (sent >> ok task) ≡ ok t → task ≡ t
submit-task (ok u) task t h = ground (arith, h)
submit-task (err e) task t h = absurd (ground (arith, h))

-- With a database, an action is queued only for a caller who holds its permission, or, where the
-- action is open to hosts, is the host that PMP names at that moment; only with an adequate
-- reauthentication where the action asks for one; and never an action of the jobs or raw console
-- text.
pub execute_action-IsAuthorized :
    (env : Env) (lib : TokenLibrary) (now command_id : ℕ) (auth : AuthPrincipal) (header : Header)
    (action_id : String) (args : Value) (server : Server) (d : ServerDb) (task : CommandTask)
    → server.db ≡ some d
    → (execute_action env lib now command_id auth header action_id args server).0 ≡ ok task
    → IsAuthorized env lib now auth header action_id args d task
unfolding execute_action admitted require_db task_of
execute_action-IsAuthorized env lib now command_id auth header action_id args server d task c h =
    elim (Result-cases (admitted env lib now auth header action_id args server.db)) [
      | inr (e, x) ↦ absurd (ground (arith, x, h))
      | inl ((action, used), x) ↦
          let chain : admitted env lib now auth header action_id args (some d) ≡ ok (action, used) =
            subst (λ o. admitted env lib now auth header action_id args o ≡ ok (action, used)) c
              x in
          let (a, f, after_admit) = bind_ok (admit action_id) _ (action, used) chain in
          let (g, after_grant) =
            then_ok (authorize env auth a args (some d)) _ (action, used) after_admit in
          let (r, last) =
            then_ok (check_action_reauth lib now auth header a) _ (action, used) after_grant in
          let (found, not_a_job, not_raw) = admit-ok action_id a f in
          let same : a ≡ action = ground (arith, last) in
          let queued : task_of env auth action args command_id ≡ task =
            submit-task (submit (task_of env auth action args command_id) server.workers).0
              (task_of env auth action args command_id) task (ground (arith, x, h)) in
          record {
            action = a;
            found = found;
            not_a_job = not_a_job;
            not_raw = not_raw;
            granted = authorize-ok env auth a args d g;
            confirmed = check_action_reauth-ok lib now auth header a r;
            named =
                sym (ap (λ (t : CommandTask). t.action) queued)
                ∙ sym (ap (λ (b : ActionDescriptor). b.id) same);
          }
    ]
