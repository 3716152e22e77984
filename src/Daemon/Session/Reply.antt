-- ===== src/Daemon/Session/Reply.antt =====
-- The fixed replies of crates/kesharon-daemon/src/session.rs.
use kesharon.Prelude.{String, if◌then◌else◌, str_eq}
use kesharon.Application.Error.{
  ApplicationError, repository, invalid_project, storage, vault, cancelled,
}
use kesharon.Domain.Project.{Project}
use kesharon.Protocol.Response.{
  ServerResponse, ProjectSnapshot, ErrorCode, invalid_request, not_git_repository,
  project_path_unavailable, operation_cancelled, request_in_progress, internal_error as internal,
  failure,
}

unfoldable pub classify_application_error : ApplicationError → ErrorCode × String
classify_application_error (repository message) =
    if str_eq message "notGitRepository"
    then (not_git_repository, "Selected directory is not a Git worktree")
    else (project_path_unavailable, "Selected directory could not be opened")
classify_application_error (invalid_project message) =
    (invalid_request, "Project identity is invalid")
classify_application_error (storage message) = (internal, "Storage error encountered")
classify_application_error (vault message) = (internal, "Credential vault error encountered")
classify_application_error cancelled = (operation_cancelled, "Project opening was cancelled")

unfoldable pub idempotency_conflict : String → ServerResponse
idempotency_conflict request_id =
    failure request_id invalid_request "Idempotency key was already used for a different mutation"

unfoldable pub internal_error : String → ServerResponse
internal_error request_id = failure request_id internal "Daemon session state is unavailable"

-- The two refusals while an operation runs.
unfoldable pub key_in_progress : String → ServerResponse
key_in_progress request_id =
    failure request_id request_in_progress "A request with this idempotency key is still running"

unfoldable pub request_id_in_progress : String → ServerResponse
request_id_in_progress request_id =
    failure request_id request_in_progress "A request with this request ID is still running"

unfoldable pub snapshot_of : Project → ProjectSnapshot
snapshot_of p = record {
  id = p.id.as_str;
  display_name = p.display_name;
  canonical_root = p.canonical_root;
  trusted = p.trusted;
}
