-- ===== src/Runbooks/Tests.antt =====
-- Root, for whom there is no row of the users, tries to write a runbook.
use phira_plus_backend.Prelude.{◌≡◌, refl, some, [], ◌∷◌, pos, codes}
use phira_plus_backend.Json.{null}
use phira_plus_backend.ApiError.{err, internal, ok}
use phira_plus_backend.Permissions.{require}
use phira_plus_backend.Auth.{root, panel, AuthPrincipal}
use phira_plus_backend.Runbooks.{CreateRunbookBody, Runbook, State, create, update, edited}

abbrev auth : AuthPrincipal
auth = record { sub = 0; sid = 7; principal_type = root; client_type = panel }

abbrev body : CreateRunbookBody
body = record {
  name = codes "pause";
  description = "";
  definition = record {
    name = "pause";
    description = "";
    args = null;
    steps = record { action = ""; with_args = null; wait_secs = some 5 } ∷ [];
  };
}

abbrev runbook : Runbook
runbook = record {
  id = 3;
  name = codes "pause";
  description = "";
  definition = body.definition;
  created_by = some 5;
  updated_by = some 5;
}

abbrev server : State
server = record {
  now = 120;
  db = record {
    permissions = record { groups = []; members = []; grants = []; users = [] };
    users = (5, pos 42) ∷ [];
    sessions = [];
    runs = [];
    audits = [];
  };
  workers = [];
  runbooks = runbook ∷ [];
  runs = [];
}

abbrev editor : AuthPrincipal
editor = record { sub = 5; sid = 8; principal_type = root; client_type = panel }

not_created : create 4 auth body server ≡ (err internal, server)
unfolding create require
not_created = refl

not_updated : update 3 auth body server ≡ (err internal, server)
unfolding update require
not_updated = refl

-- With a row of the users it succeeds.
updated : (update 3 editor body server).0 ≡ ok (edited editor body runbook)
unfolding update require
updated = refl
