-- ===== src/ReplayAccess/Tests.antt =====
-- Runs of the access checks on one override and one link.
use phira_plus_backend.Prelude.{ℕ, ◌≡◌, refl, String, true, none, some, [], ◌∷◌}
use phira_plus_backend.ApiError.{ok}
use phira_plus_backend.Permissions.{root, user}
use phira_plus_backend.ReplayAccess
use phira_plus_backend.ReplayAccess.{
  Db, friends, ReplayOverride, ShareLink, UserRow, is_public, effective_visibility,
  check_pair_access, resolve_replay_access,
}
use phira_plus_backend.ReplayAccess.Access.{Pins, token-Pins, MaySee, check_pair_access-MaySee}

abbrev stored : Db
stored = record {
  overrides =
      record {
        id = 1;
        pmp_replay_id = "r";
        player_phira_id = 9;
        owner_user_id = some 5;
        visibility = friends;
      }
      ∷ [];
  acl = [];
  links =
      record {
        id = 11;
        token_hash = "t";
        replay_round = "r";
        player_phira_id = 9;
        expires_at = some 100;
        revoked_at = none;
      }
      ∷ [];
  users = record { id = 6; phira_id = 60 } ∷ [];
  social = record { requests = []; friendships = (5, 6) ∷ []; blocks = [] };
}

abbrev same_text : String → String
same_text s = s

resolved : resolve_replay_access same_text 50 "r" 60 none (some "t") stored ≡ ok (some 9)
unfolding resolve_replay_access ReplayAccess.resolve_share_token ReplayAccess.use_link
    ReplayAccess.pin
resolved = refl

token-Pins_example : Pins same_text 50 "t" "r" 9 stored
token-Pins_example = token-Pins same_text 50 "r" "t" 60 9 none stored resolved

check_pair_access-MaySee_example :
    (check_pair_access "r" 9 none stored ≡ is_public (effective_visibility "r" 9 stored))
    × (check_pair_access "r" 9 (some root) stored ≡ true)
    × ((uid : ℕ)
        → (check_pair_access "r" 9 (some (user uid)) stored ≡ true → MaySee "r" 9 uid stored)
          × (MaySee "r" 9 uid stored → check_pair_access "r" 9 (some (user uid)) stored ≡ true))
check_pair_access-MaySee_example = check_pair_access-MaySee "r" 9 stored
