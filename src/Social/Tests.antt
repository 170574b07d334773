-- ===== src/Social/Tests.antt =====
-- Runs of requests, answers and blocks between users 1 and 2.
use phira_plus_backend.Prelude.{◌≡◌, refl, true, false, ◌&&◌, ◌||◌, [], ◌∷◌, nat_eq}
use phira_plus_backend.ApiError.{ok}
use phira_plus_backend.Social
use phira_plus_backend.Social.{
  Db, FriendRequest, pending, joins, new_request, send_request, respond_request, remove_friend,
  are_friends, list_friends, is_blocked, block,
}
use phira_plus_backend.Social.Friendship.{respond_request-friends}

abbrev asked : Db
asked = record { requests = new_request 7 1 2 ∷ []; friendships = (1, 3) ∷ []; blocks = [] }

respond_request-friends_example :
    ((respond_request 7 2 true asked).0 ≡ ok tt)
    × (are_friends 2 1 (respond_request 7 2 true asked).1
        ≡ ((true && joins 2 1 (1, 2)) || are_friends 2 1 asked))
respond_request-friends_example =
    respond_request-friends 7 2 2 1 true asked (new_request 7 1 2) refl refl refl

apart : are_friends 1 2 (remove_friend 1 2 (respond_request 7 2 true asked).1) ≡ false
unfolding are_friends remove_friend respond_request Social.settle Social.insert_pair
    Social.normalize_pair
apart = refl
