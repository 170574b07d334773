-- ===== src/ReplayAccess/Sharing/Tests.antt =====
-- User 5 is player 9 and shares a replay; user 6 is player 60 and revokes that link.
use phira_plus_backend.Prelude.{◌≡◌, refl, String, none, some, [], ◌∷◌, string_eq}
use phira_plus_backend.ErrorCode.{replay_share_revoked}
use phira_plus_backend.ApiError.{ok, err, api_error}
use phira_plus_backend.ReplayAccess.{Db, ShareLink, resolve_replay_access, resolve_share_token}
use phira_plus_backend.ReplayAccess.Sharing.{
  create_share, ensure_owner, new_link, revoke_share, set_replay_visibility,
}
use phira_plus_backend.ReplayAccess.Sharing.Links.{create_share-resolve, revoke_share-refuses}
use phira_plus_backend.ReplayAccess.Sharing.Ownership.{IsOwned, set_replay_visibility-IsOwned}

abbrev same_text : String → String
same_text s = s

abbrev empty : Db
empty = record {
  overrides = [];
  acl = [];
  links = [];
  users = record { id = 5; phira_id = 9 } ∷ record { id = 6; phira_id = 60 } ∷ [];
  social = record { requests = []; friendships = []; blocks = [] };
}

abbrev link : ShareLink
link = new_link 11 "t" "r" 9 (some 100)

created : (create_share same_text 11 "t" 5 "r" 9 (some 100) empty).0 ≡ ok (link, "t")
unfolding create_share
created = refl

create_share-resolve_example :
    resolve_replay_access same_text 50 "r" 60 none
      (some "t")
      (create_share same_text 11 "t" 5 "r" 9 (some 100) empty).1
    ≡ ok (some 9)
create_share-resolve_example =
    create_share-resolve same_text 11 "t" 5 "r" 9 (some 100) empty 50 60 none link "t" created refl

abbrev shared : Db
shared = record empty { links = link ∷ [] }

own_pair : ensure_owner "x" 60 6 shared ≡ ok tt
unfolding ensure_owner
own_pair = refl

revoke_share-refuses_example :
    ((revoke_share 60 6 "x" 60 11 shared).0 ≡ ok tt)
    × (resolve_share_token same_text 70 "t" (revoke_share 60 6 "x" 60 11 shared).1
        ≡ err (api_error replay_share_revoked "share link revoked"))
revoke_share-refuses_example =
    revoke_share-refuses same_text 60 70 6 "x" 60 link shared "t" own_pair refl

set_done : (set_replay_visibility 3 5 "r" 9 "private" empty).0 ≡ ok tt
unfolding set_replay_visibility
set_done = refl

set_replay_visibility-IsOwned_example :
    IsOwned "r" 9 5 "private" (set_replay_visibility 3 5 "r" 9 "private" empty).1
set_replay_visibility-IsOwned_example =
    set_replay_visibility-IsOwned 3 5 "r" 9 "private" empty set_done
