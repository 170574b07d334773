-- ===== src/ErrorCode/Names.antt =====
-- The two spellings of an error code on the wire, `as_str` and the one that serde derives from the
-- variant's name (crates/ppb-server/src/error/mod.rs).
use mathlib.Core.List.{List, [], ◌∷◌}
use phira_plus_backend.Prelude.{
  ℕ, ◌-◌, ◌≡◌, refl, ap, String, Bool, ◌&&◌, Option, some, leb, codes, if◌then◌else◌, ◌==◌,
  string_eq, find,
}
use phira_plus_backend.ErrorCode.{
  ErrorCode, as_str, invalid_json, invalid_query, invalid_path_param, method_not_allowed,
  request_body_too_large, invalid_content_type, validation_failed, rate_limited, auth_required,
  session_expired, permission_denied, csrf_invalid, resource_not_found, resource_conflict,
  capability_not_supported, internal_error, long_job_accepted, long_running_action_requires_job,
  phira_auth_failed, phira_reauth_required, phira_api_unavailable, github_oauth_not_configured,
  github_identity_not_bound, github_oauth_failed, github_api_unavailable,
  github_oauth_state_invalid, auth_legal_consent_required, auth_legal_documents_unavailable,
  root_password_invalid, root_password_change_required, current_session_revoke_forbidden,
  pmp_unavailable, pmp_command_failed, pmp_command_timeout, pmp_capability_missing,
  pmp_config_not_available, pmp_invalid_response, room_not_found, room_id_required,
  room_host_required, room_user_not_present, room_batch_target_required,
  room_batch_action_unsupported, room_move_target_required, room_chat_empty, room_chat_too_long,
  user_not_found, already_friends, friend_request_already_sent, friend_request_not_found,
  friend_relation_required, user_blocked, replay_not_found, replay_access_denied,
  replay_visibility_invalid, replay_player_required, replay_share_invalid, replay_share_expired,
  replay_share_revoked, notification_not_found, notification_action_not_available,
  notification_action_target_invalid, notification_input_not_allowed, notification_input_empty,
  notification_input_too_long, config_validation_failed, config_snapshot_not_found,
  config_scope_invalid, job_not_found, job_type_unknown, job_already_running, job_not_retryable,
  job_not_cancellable, redemption_code_not_found, redemption_code_already_used,
  redemption_code_revoked, redemption_code_expired, redemption_code_limit_reached,
  redemption_action_unsupported, group_not_found, group_name_required, user_action_target_invalid,
}

-- The name of a variant, as the enum declares it.
variant_name : ErrorCode → String
variant_name invalid_json = "InvalidJson"
variant_name invalid_query = "InvalidQuery"
variant_name invalid_path_param = "InvalidPathParam"
variant_name method_not_allowed = "MethodNotAllowed"
variant_name request_body_too_large = "RequestBodyTooLarge"
variant_name invalid_content_type = "InvalidContentType"
variant_name validation_failed = "ValidationFailed"
variant_name rate_limited = "RateLimited"
variant_name auth_required = "AuthRequired"
variant_name session_expired = "SessionExpired"
variant_name permission_denied = "PermissionDenied"
variant_name csrf_invalid = "CsrfInvalid"
variant_name resource_not_found = "ResourceNotFound"
variant_name resource_conflict = "ResourceConflict"
variant_name capability_not_supported = "CapabilityNotSupported"
variant_name internal_error = "InternalError"
variant_name long_job_accepted = "LongJobAccepted"
variant_name long_running_action_requires_job = "LongRunningActionRequiresJob"
variant_name phira_auth_failed = "PhiraAuthFailed"
variant_name phira_reauth_required = "PhiraReauthRequired"
variant_name phira_api_unavailable = "PhiraApiUnavailable"
variant_name github_oauth_not_configured = "GithubOauthNotConfigured"
variant_name github_identity_not_bound = "GithubIdentityNotBound"
variant_name github_oauth_failed = "GithubOauthFailed"
variant_name github_api_unavailable = "GithubApiUnavailable"
variant_name github_oauth_state_invalid = "GithubOauthStateInvalid"
variant_name auth_legal_consent_required = "AuthLegalConsentRequired"
variant_name auth_legal_documents_unavailable = "AuthLegalDocumentsUnavailable"
variant_name root_password_invalid = "RootPasswordInvalid"
variant_name root_password_change_required = "RootPasswordChangeRequired"
variant_name current_session_revoke_forbidden = "CurrentSessionRevokeForbidden"
variant_name pmp_unavailable = "PmpUnavailable"
variant_name pmp_command_failed = "PmpCommandFailed"
variant_name pmp_command_timeout = "PmpCommandTimeout"
variant_name pmp_capability_missing = "PmpCapabilityMissing"
variant_name pmp_config_not_available = "PmpConfigNotAvailable"
variant_name pmp_invalid_response = "PmpInvalidResponse"
variant_name room_not_found = "RoomNotFound"
variant_name room_id_required = "RoomIdRequired"
variant_name room_host_required = "RoomHostRequired"
variant_name room_user_not_present = "RoomUserNotPresent"
variant_name room_batch_target_required = "RoomBatchTargetRequired"
variant_name room_batch_action_unsupported = "RoomBatchActionUnsupported"
variant_name room_move_target_required = "RoomMoveTargetRequired"
variant_name room_chat_empty = "RoomChatEmpty"
variant_name room_chat_too_long = "RoomChatTooLong"
variant_name user_not_found = "UserNotFound"
variant_name already_friends = "AlreadyFriends"
variant_name friend_request_already_sent = "FriendRequestAlreadySent"
variant_name friend_request_not_found = "FriendRequestNotFound"
variant_name friend_relation_required = "FriendRelationRequired"
variant_name user_blocked = "UserBlocked"
variant_name replay_not_found = "ReplayNotFound"
variant_name replay_access_denied = "ReplayAccessDenied"
variant_name replay_visibility_invalid = "ReplayVisibilityInvalid"
variant_name replay_player_required = "ReplayPlayerRequired"
variant_name replay_share_invalid = "ReplayShareInvalid"
variant_name replay_share_expired = "ReplayShareExpired"
variant_name replay_share_revoked = "ReplayShareRevoked"
variant_name notification_not_found = "NotificationNotFound"
variant_name notification_action_not_available = "NotificationActionNotAvailable"
variant_name notification_action_target_invalid = "NotificationActionTargetInvalid"
variant_name notification_input_not_allowed = "NotificationInputNotAllowed"
variant_name notification_input_empty = "NotificationInputEmpty"
variant_name notification_input_too_long = "NotificationInputTooLong"
variant_name config_validation_failed = "ConfigValidationFailed"
variant_name config_snapshot_not_found = "ConfigSnapshotNotFound"
variant_name config_scope_invalid = "ConfigScopeInvalid"
variant_name job_not_found = "JobNotFound"
variant_name job_type_unknown = "JobTypeUnknown"
variant_name job_already_running = "JobAlreadyRunning"
variant_name job_not_retryable = "JobNotRetryable"
variant_name job_not_cancellable = "JobNotCancellable"
variant_name redemption_code_not_found = "RedemptionCodeNotFound"
variant_name redemption_code_already_used = "RedemptionCodeAlreadyUsed"
variant_name redemption_code_revoked = "RedemptionCodeRevoked"
variant_name redemption_code_expired = "RedemptionCodeExpired"
variant_name redemption_code_limit_reached = "RedemptionCodeLimitReached"
variant_name redemption_action_unsupported = "RedemptionActionUnsupported"
variant_name group_not_found = "GroupNotFound"
variant_name group_name_required = "GroupNameRequired"
variant_name user_action_target_invalid = "UserActionTargetInvalid"

is_upper : ℕ → Bool
is_upper c = leb b'A' c && leb c b'Z'

to_ascii_uppercase : ℕ → ℕ
to_ascii_uppercase c = if leb b'a' c && leb c b'z' then c - 32 else c

-- serde's SCREAMING_SNAKE_CASE behind the first letter: an underscore before each capital.
screaming_tail : List ℕ → List ℕ
unfolding is_upper to_ascii_uppercase
screaming_tail [] = []
screaming_tail (c ∷ s) =
    let rest = to_ascii_uppercase c ∷ screaming_tail s in if is_upper c then b'_' ∷ rest else rest

screaming_snake_case : List ℕ → List ℕ
unfolding screaming_tail
screaming_snake_case [] = []
screaming_snake_case (c ∷ s) = to_ascii_uppercase c ∷ screaming_tail s

-- The spelling that `#[serde(rename_all = "SCREAMING_SNAKE_CASE")]` gives a code.
pub serde_name : ErrorCode → List ℕ
unfolding screaming_snake_case variant_name
serde_name c = screaming_snake_case (codes (variant_name c))

-- Every variant, in the order of the enum.
abbrev variants : List ErrorCode
variants =
    invalid_json ∷ invalid_query ∷ invalid_path_param ∷ method_not_allowed ∷ request_body_too_large
    ∷ invalid_content_type ∷ validation_failed ∷ rate_limited ∷ auth_required ∷ session_expired
    ∷ permission_denied ∷ csrf_invalid ∷ resource_not_found ∷ resource_conflict
    ∷ capability_not_supported ∷ internal_error ∷ long_job_accepted
    ∷ long_running_action_requires_job ∷ phira_auth_failed ∷ phira_reauth_required
    ∷ phira_api_unavailable ∷ github_oauth_not_configured ∷ github_identity_not_bound
    ∷ github_oauth_failed ∷ github_api_unavailable ∷ github_oauth_state_invalid
    ∷ auth_legal_consent_required ∷ auth_legal_documents_unavailable ∷ root_password_invalid
    ∷ root_password_change_required ∷ current_session_revoke_forbidden ∷ pmp_unavailable
    ∷ pmp_command_failed ∷ pmp_command_timeout ∷ pmp_capability_missing ∷ pmp_config_not_available
    ∷ pmp_invalid_response ∷ room_not_found ∷ room_id_required ∷ room_host_required
    ∷ room_user_not_present ∷ room_batch_target_required ∷ room_batch_action_unsupported
    ∷ room_move_target_required ∷ room_chat_empty ∷ room_chat_too_long ∷ user_not_found
    ∷ already_friends ∷ friend_request_already_sent ∷ friend_request_not_found
    ∷ friend_relation_required ∷ user_blocked ∷ replay_not_found ∷ replay_access_denied
    ∷ replay_visibility_invalid ∷ replay_player_required ∷ replay_share_invalid
    ∷ replay_share_expired ∷ replay_share_revoked ∷ notification_not_found
    ∷ notification_action_not_available ∷ notification_action_target_invalid
    ∷ notification_input_not_allowed ∷ notification_input_empty ∷ notification_input_too_long
    ∷ config_validation_failed ∷ config_snapshot_not_found ∷ config_scope_invalid ∷ job_not_found
    ∷ job_type_unknown ∷ job_already_running ∷ job_not_retryable ∷ job_not_cancellable
    ∷ redemption_code_not_found ∷ redemption_code_already_used ∷ redemption_code_revoked
    ∷ redemption_code_expired ∷ redemption_code_limit_reached ∷ redemption_action_unsupported
    ∷ group_not_found ∷ group_name_required ∷ user_action_target_invalid ∷ []

-- The code of a wire name.
from_str : String → Option ErrorCode
unfolding as_str
from_str s = find (λ c. as_str c == s) variants

-- `as_str` spells every code as serde does, so a body's `code` is the same text whichever of the
-- two writes it.
pub as_str-serde_name : (c : ErrorCode) → codes (as_str c) ≡ serde_name c
unfolding as_str serde_name
as_str-serde_name invalid_json = refl
as_str-serde_name invalid_query = refl
as_str-serde_name invalid_path_param = refl
as_str-serde_name method_not_allowed = refl
as_str-serde_name request_body_too_large = refl
as_str-serde_name invalid_content_type = refl
as_str-serde_name validation_failed = refl
as_str-serde_name rate_limited = refl
as_str-serde_name auth_required = refl
as_str-serde_name session_expired = refl
as_str-serde_name permission_denied = refl
as_str-serde_name csrf_invalid = refl
as_str-serde_name resource_not_found = refl
as_str-serde_name resource_conflict = refl
as_str-serde_name capability_not_supported = refl
as_str-serde_name internal_error = refl
as_str-serde_name long_job_accepted = refl
as_str-serde_name long_running_action_requires_job = refl
as_str-serde_name phira_auth_failed = refl
as_str-serde_name phira_reauth_required = refl
as_str-serde_name phira_api_unavailable = refl
as_str-serde_name github_oauth_not_configured = refl
as_str-serde_name github_identity_not_bound = refl
as_str-serde_name github_oauth_failed = refl
as_str-serde_name github_api_unavailable = refl
as_str-serde_name github_oauth_state_invalid = refl
as_str-serde_name auth_legal_consent_required = refl
as_str-serde_name auth_legal_documents_unavailable = refl
as_str-serde_name root_password_invalid = refl
as_str-serde_name root_password_change_required = refl
as_str-serde_name current_session_revoke_forbidden = refl
as_str-serde_name pmp_unavailable = refl
as_str-serde_name pmp_command_failed = refl
as_str-serde_name pmp_command_timeout = refl
as_str-serde_name pmp_capability_missing = refl
as_str-serde_name pmp_config_not_available = refl
as_str-serde_name pmp_invalid_response = refl
as_str-serde_name room_not_found = refl
as_str-serde_name room_id_required = refl
as_str-serde_name room_host_required = refl
as_str-serde_name room_user_not_present = refl
as_str-serde_name room_batch_target_required = refl
as_str-serde_name room_batch_action_unsupported = refl
as_str-serde_name room_move_target_required = refl
as_str-serde_name room_chat_empty = refl
as_str-serde_name room_chat_too_long = refl
as_str-serde_name user_not_found = refl
as_str-serde_name already_friends = refl
as_str-serde_name friend_request_already_sent = refl
as_str-serde_name friend_request_not_found = refl
as_str-serde_name friend_relation_required = refl
as_str-serde_name user_blocked = refl
as_str-serde_name replay_not_found = refl
as_str-serde_name replay_access_denied = refl
as_str-serde_name replay_visibility_invalid = refl
as_str-serde_name replay_player_required = refl
as_str-serde_name replay_share_invalid = refl
as_str-serde_name replay_share_expired = refl
as_str-serde_name replay_share_revoked = refl
as_str-serde_name notification_not_found = refl
as_str-serde_name notification_action_not_available = refl
as_str-serde_name notification_action_target_invalid = refl
as_str-serde_name notification_input_not_allowed = refl
as_str-serde_name notification_input_empty = refl
as_str-serde_name notification_input_too_long = refl
as_str-serde_name config_validation_failed = refl
as_str-serde_name config_snapshot_not_found = refl
as_str-serde_name config_scope_invalid = refl
as_str-serde_name job_not_found = refl
as_str-serde_name job_type_unknown = refl
as_str-serde_name job_already_running = refl
as_str-serde_name job_not_retryable = refl
as_str-serde_name job_not_cancellable = refl
as_str-serde_name redemption_code_not_found = refl
as_str-serde_name redemption_code_already_used = refl
as_str-serde_name redemption_code_revoked = refl
as_str-serde_name redemption_code_expired = refl
as_str-serde_name redemption_code_limit_reached = refl
as_str-serde_name redemption_action_unsupported = refl
as_str-serde_name group_not_found = refl
as_str-serde_name group_name_required = refl
as_str-serde_name user_action_target_invalid = refl

from_str-as_str : (c : ErrorCode) → from_str (as_str c) ≡ some c
unfolding from_str
from_str-as_str invalid_json = refl
from_str-as_str invalid_query = refl
from_str-as_str invalid_path_param = refl
from_str-as_str method_not_allowed = refl
from_str-as_str request_body_too_large = refl
from_str-as_str invalid_content_type = refl
from_str-as_str validation_failed = refl
from_str-as_str rate_limited = refl
from_str-as_str auth_required = refl
from_str-as_str session_expired = refl
from_str-as_str permission_denied = refl
from_str-as_str csrf_invalid = refl
from_str-as_str resource_not_found = refl
from_str-as_str resource_conflict = refl
from_str-as_str capability_not_supported = refl
from_str-as_str internal_error = refl
from_str-as_str long_job_accepted = refl
from_str-as_str long_running_action_requires_job = refl
from_str-as_str phira_auth_failed = refl
from_str-as_str phira_reauth_required = refl
from_str-as_str phira_api_unavailable = refl
from_str-as_str github_oauth_not_configured = refl
from_str-as_str github_identity_not_bound = refl
from_str-as_str github_oauth_failed = refl
from_str-as_str github_api_unavailable = refl
from_str-as_str github_oauth_state_invalid = refl
from_str-as_str auth_legal_consent_required = refl
from_str-as_str auth_legal_documents_unavailable = refl
from_str-as_str root_password_invalid = refl
from_str-as_str root_password_change_required = refl
from_str-as_str current_session_revoke_forbidden = refl
from_str-as_str pmp_unavailable = refl
from_str-as_str pmp_command_failed = refl
from_str-as_str pmp_command_timeout = refl
from_str-as_str pmp_capability_missing = refl
from_str-as_str pmp_config_not_available = refl
from_str-as_str pmp_invalid_response = refl
from_str-as_str room_not_found = refl
from_str-as_str room_id_required = refl
from_str-as_str room_host_required = refl
from_str-as_str room_user_not_present = refl
from_str-as_str room_batch_target_required = refl
from_str-as_str room_batch_action_unsupported = refl
from_str-as_str room_move_target_required = refl
from_str-as_str room_chat_empty = refl
from_str-as_str room_chat_too_long = refl
from_str-as_str user_not_found = refl
from_str-as_str already_friends = refl
from_str-as_str friend_request_already_sent = refl
from_str-as_str friend_request_not_found = refl
from_str-as_str friend_relation_required = refl
from_str-as_str user_blocked = refl
from_str-as_str replay_not_found = refl
from_str-as_str replay_access_denied = refl
from_str-as_str replay_visibility_invalid = refl
from_str-as_str replay_player_required = refl
from_str-as_str replay_share_invalid = refl
from_str-as_str replay_share_expired = refl
from_str-as_str replay_share_revoked = refl
from_str-as_str notification_not_found = refl
from_str-as_str notification_action_not_available = refl
from_str-as_str notification_action_target_invalid = refl
from_str-as_str notification_input_not_allowed = refl
from_str-as_str notification_input_empty = refl
from_str-as_str notification_input_too_long = refl
from_str-as_str config_validation_failed = refl
from_str-as_str config_snapshot_not_found = refl
from_str-as_str config_scope_invalid = refl
from_str-as_str job_not_found = refl
from_str-as_str job_type_unknown = refl
from_str-as_str job_already_running = refl
from_str-as_str job_not_retryable = refl
from_str-as_str job_not_cancellable = refl
from_str-as_str redemption_code_not_found = refl
from_str-as_str redemption_code_already_used = refl
from_str-as_str redemption_code_revoked = refl
from_str-as_str redemption_code_expired = refl
from_str-as_str redemption_code_limit_reached = refl
from_str-as_str redemption_action_unsupported = refl
from_str-as_str group_not_found = refl
from_str-as_str group_name_required = refl
from_str-as_str user_action_target_invalid = refl

-- A wire name names one code: `as_str` is injective.
pub as_str_injective : (c d : ErrorCode) → as_str c ≡ as_str d → c ≡ d
as_str_injective c d e = cc (from_str-as_str c, from_str-as_str d, ap from_str e)
