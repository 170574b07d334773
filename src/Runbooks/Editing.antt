-- ===== src/Runbooks/Editing.antt =====
-- Who can write runbooks: `create` and `update` of crates/ppb-server/src/automation/routes.rs.
use phira_plus_backend.Prelude.{ℕ, ◌≡◌, refl, false, some, find}
use phira_plus_backend.ApiError.{ok, err, internal}
use phira_plus_backend.Auth.{AuthPrincipal}
use phira_plus_backend.Runbooks.{
  CreateRunbookBody, Runbook, State, create, editable, is_runbook, is_user, update, update_row,
}

-- A caller whom no row of the users stands for, as Root, creates no runbook and changes none that is
-- there, though permitted and with valid steps: the answer is an internal error.
pub create-no_user :
    (fresh id : ℕ) (auth : AuthPrincipal) (body : CreateRunbookBody) (st : State) (r : Runbook)
    → editable auth body st ≡ ok tt
    → is_user auth.sub st ≡ false
    → find (is_runbook id) st.runbooks ≡ some r
    → (create fresh auth body st ≡ (err internal, st))
      × (update id auth body st ≡ (err internal, st))
unfolding create update update_row
create-no_user fresh id auth body st r allowed absent found =
    (rw (create, allowed, absent) refl, rw (update, allowed, update_row, found, absent) refl)
