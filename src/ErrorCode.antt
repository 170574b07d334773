-- ===== src/ErrorCode.antt =====
-- The registry of machine-readable error codes, `ErrorCode` of crates/ppb-server/src/error/mod.rs:
-- its variants, their wire names and their HTTP statuses.
mod Names
mod Statuses
use phira_plus_backend.Prelude.{ℕ, String, Bool, true, false}

pub data ErrorCode : Type 0 where
  invalid_json invalid_query invalid_path_param method_not_allowed : ErrorCode
  request_body_too_large invalid_content_type validation_failed rate_limited : ErrorCode
  auth_required session_expired permission_denied csrf_invalid resource_not_found : ErrorCode
  resource_conflict capability_not_supported internal_error long_job_accepted : ErrorCode
  long_running_action_requires_job phira_auth_failed phira_reauth_required : ErrorCode
  phira_api_unavailable github_oauth_not_configured github_identity_not_bound : ErrorCode
  github_oauth_failed github_api_unavailable github_oauth_state_invalid : ErrorCode
  auth_legal_consent_required auth_legal_documents_unavailable root_password_invalid : ErrorCode
  root_password_change_required current_session_revoke_forbidden pmp_unavailable : ErrorCode
  pmp_command_failed pmp_command_timeout pmp_capability_missing : ErrorCode
  pmp_config_not_available pmp_invalid_response room_not_found room_id_required : ErrorCode
  room_host_required room_user_not_present room_batch_target_required : ErrorCode
  room_batch_action_unsupported room_move_target_required room_chat_empty : ErrorCode
  room_chat_too_long user_not_found already_friends friend_request_already_sent : ErrorCode
  friend_request_not_found friend_relation_required user_blocked replay_not_found : ErrorCode
  replay_access_denied replay_visibility_invalid replay_player_required : ErrorCode
  replay_share_invalid replay_share_expired replay_share_revoked : ErrorCode
  notification_not_found notification_action_not_available : ErrorCode
  notification_action_target_invalid notification_input_not_allowed : ErrorCode
  notification_input_empty notification_input_too_long config_validation_failed : ErrorCode
  config_snapshot_not_found config_scope_invalid job_not_found job_type_unknown : ErrorCode
  job_already_running job_not_retryable job_not_cancellable redemption_code_not_found : ErrorCode
  redemption_code_already_used redemption_code_revoked redemption_code_expired : ErrorCode
  redemption_code_limit_reached redemption_action_unsupported group_not_found : ErrorCode
  group_name_required user_action_target_invalid : ErrorCode

-- `ErrorCode::as_str`.
pub as_str : ErrorCode → String
as_str invalid_json = "INVALID_JSON"
as_str invalid_query = "INVALID_QUERY"
as_str invalid_path_param = "INVALID_PATH_PARAM"
as_str method_not_allowed = "METHOD_NOT_ALLOWED"
as_str request_body_too_large = "REQUEST_BODY_TOO_LARGE"
as_str invalid_content_type = "INVALID_CONTENT_TYPE"
as_str validation_failed = "VALIDATION_FAILED"
as_str rate_limited = "RATE_LIMITED"
as_str auth_required = "AUTH_REQUIRED"
as_str session_expired = "SESSION_EXPIRED"
as_str permission_denied = "PERMISSION_DENIED"
as_str csrf_invalid = "CSRF_INVALID"
as_str resource_not_found = "RESOURCE_NOT_FOUND"
as_str resource_conflict = "RESOURCE_CONFLICT"
as_str capability_not_supported = "CAPABILITY_NOT_SUPPORTED"
as_str internal_error = "INTERNAL_ERROR"
as_str long_job_accepted = "LONG_JOB_ACCEPTED"
as_str long_running_action_requires_job = "LONG_RUNNING_ACTION_REQUIRES_JOB"
as_str phira_auth_failed = "PHIRA_AUTH_FAILED"
as_str phira_reauth_required = "PHIRA_REAUTH_REQUIRED"
as_str phira_api_unavailable = "PHIRA_API_UNAVAILABLE"
as_str github_oauth_not_configured = "GITHUB_OAUTH_NOT_CONFIGURED"
as_str github_identity_not_bound = "GITHUB_IDENTITY_NOT_BOUND"
as_str github_oauth_failed = "GITHUB_OAUTH_FAILED"
as_str github_api_unavailable = "GITHUB_API_UNAVAILABLE"
as_str github_oauth_state_invalid = "GITHUB_OAUTH_STATE_INVALID"
as_str auth_legal_consent_required = "AUTH_LEGAL_CONSENT_REQUIRED"
as_str auth_legal_documents_unavailable = "AUTH_LEGAL_DOCUMENTS_UNAVAILABLE"
as_str root_password_invalid = "ROOT_PASSWORD_INVALID"
as_str root_password_change_required = "ROOT_PASSWORD_CHANGE_REQUIRED"
as_str current_session_revoke_forbidden = "CURRENT_SESSION_REVOKE_FORBIDDEN"
as_str pmp_unavailable = "PMP_UNAVAILABLE"
as_str pmp_command_failed = "PMP_COMMAND_FAILED"
as_str pmp_command_timeout = "PMP_COMMAND_TIMEOUT"
as_str pmp_capability_missing = "PMP_CAPABILITY_MISSING"
as_str pmp_config_not_available = "PMP_CONFIG_NOT_AVAILABLE"
as_str pmp_invalid_response = "PMP_INVALID_RESPONSE"
as_str room_not_found = "ROOM_NOT_FOUND"
as_str room_id_required = "ROOM_ID_REQUIRED"
as_str room_host_required = "ROOM_HOST_REQUIRED"
as_str room_user_not_present = "ROOM_USER_NOT_PRESENT"
as_str room_batch_target_required = "ROOM_BATCH_TARGET_REQUIRED"
as_str room_batch_action_unsupported = "ROOM_BATCH_ACTION_UNSUPPORTED"
as_str room_move_target_required = "ROOM_MOVE_TARGET_REQUIRED"
as_str room_chat_empty = "ROOM_CHAT_EMPTY"
as_str room_chat_too_long = "ROOM_CHAT_TOO_LONG"
as_str user_not_found = "USER_NOT_FOUND"
as_str already_friends = "ALREADY_FRIENDS"
as_str friend_request_already_sent = "FRIEND_REQUEST_ALREADY_SENT"
as_str friend_request_not_found = "FRIEND_REQUEST_NOT_FOUND"
as_str friend_relation_required = "FRIEND_RELATION_REQUIRED"
as_str user_blocked = "USER_BLOCKED"
as_str replay_not_found = "REPLAY_NOT_FOUND"
as_str replay_access_denied = "REPLAY_ACCESS_DENIED"
as_str replay_visibility_invalid = "REPLAY_VISIBILITY_INVALID"
as_str replay_player_required = "REPLAY_PLAYER_REQUIRED"
as_str replay_share_invalid = "REPLAY_SHARE_INVALID"
as_str replay_share_expired = "REPLAY_SHARE_EXPIRED"
as_str replay_share_revoked = "REPLAY_SHARE_REVOKED"
as_str notification_not_found = "NOTIFICATION_NOT_FOUND"
as_str notification_action_not_available = "NOTIFICATION_ACTION_NOT_AVAILABLE"
as_str notification_action_target_invalid = "NOTIFICATION_ACTION_TARGET_INVALID"
as_str notification_input_not_allowed = "NOTIFICATION_INPUT_NOT_ALLOWED"
as_str notification_input_empty = "NOTIFICATION_INPUT_EMPTY"
as_str notification_input_too_long = "NOTIFICATION_INPUT_TOO_LONG"
as_str config_validation_failed = "CONFIG_VALIDATION_FAILED"
as_str config_snapshot_not_found = "CONFIG_SNAPSHOT_NOT_FOUND"
as_str config_scope_invalid = "CONFIG_SCOPE_INVALID"
as_str job_not_found = "JOB_NOT_FOUND"
as_str job_type_unknown = "JOB_TYPE_UNKNOWN"
as_str job_already_running = "JOB_ALREADY_RUNNING"
as_str job_not_retryable = "JOB_NOT_RETRYABLE"
as_str job_not_cancellable = "JOB_NOT_CANCELLABLE"
as_str redemption_code_not_found = "REDEMPTION_CODE_NOT_FOUND"
as_str redemption_code_already_used = "REDEMPTION_CODE_ALREADY_USED"
as_str redemption_code_revoked = "REDEMPTION_CODE_REVOKED"
as_str redemption_code_expired = "REDEMPTION_CODE_EXPIRED"
as_str redemption_code_limit_reached = "REDEMPTION_CODE_LIMIT_REACHED"
as_str redemption_action_unsupported = "REDEMPTION_ACTION_UNSUPPORTED"
as_str group_not_found = "GROUP_NOT_FOUND"
as_str group_name_required = "GROUP_NAME_REQUIRED"
as_str user_action_target_invalid = "USER_ACTION_TARGET_INVALID"

-- `ErrorCode::status`, as the number of the status code.
unfoldable pub status : ErrorCode → ℕ
status invalid_json = 400
status invalid_query = 400
status invalid_path_param = 400
status method_not_allowed = 405
status request_body_too_large = 413
status invalid_content_type = 400
status validation_failed = 422
status rate_limited = 429
status auth_required = 401
status session_expired = 401
status permission_denied = 403
status csrf_invalid = 403
status resource_not_found = 404
status resource_conflict = 409
status capability_not_supported = 501
status internal_error = 500
status long_job_accepted = 202
status long_running_action_requires_job = 409
status phira_auth_failed = 401
status phira_reauth_required = 401
status phira_api_unavailable = 502
status github_oauth_not_configured = 503
status github_identity_not_bound = 401
status github_oauth_failed = 502
status github_api_unavailable = 502
status github_oauth_state_invalid = 401
status auth_legal_consent_required = 422
status auth_legal_documents_unavailable = 503
status root_password_invalid = 401
status root_password_change_required = 403
status current_session_revoke_forbidden = 403
status pmp_unavailable = 502
status pmp_command_failed = 502
status pmp_command_timeout = 502
status pmp_capability_missing = 501
status pmp_config_not_available = 501
status pmp_invalid_response = 502
status room_not_found = 404
status room_id_required = 422
status room_host_required = 409
status room_user_not_present = 409
status room_batch_target_required = 422
status room_batch_action_unsupported = 422
status room_move_target_required = 422
status room_chat_empty = 422
status room_chat_too_long = 422
status user_not_found = 404
status already_friends = 409
status friend_request_already_sent = 409
status friend_request_not_found = 404
status friend_relation_required = 403
status user_blocked = 403
status replay_not_found = 404
status replay_access_denied = 403
status replay_visibility_invalid = 422
status replay_player_required = 422
status replay_share_invalid = 401
status replay_share_expired = 409
status replay_share_revoked = 409
status notification_not_found = 404
status notification_action_not_available = 422
status notification_action_target_invalid = 422
status notification_input_not_allowed = 422
status notification_input_empty = 422
status notification_input_too_long = 422
status config_validation_failed = 422
status config_snapshot_not_found = 404
status config_scope_invalid = 422
status job_not_found = 404
status job_type_unknown = 404
status job_already_running = 409
status job_not_retryable = 409
status job_not_cancellable = 409
status redemption_code_not_found = 404
status redemption_code_already_used = 409
status redemption_code_revoked = 409
status redemption_code_expired = 409
status redemption_code_limit_reached = 409
status redemption_action_unsupported = 501
status group_not_found = 404
status group_name_required = 422
status user_action_target_invalid = 422

-- `code == ErrorCode::InternalError`.
abbrev pub is_internal : ErrorCode → Bool
is_internal internal_error = true
is_internal _ = false
