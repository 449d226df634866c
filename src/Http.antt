-- ===== src/Http.antt =====
-- The exceptions that the services and guards throw (NestJS's HttpException with the `code` of
-- its body), and the result of code that may throw. Message texts and `details` are left out.
use foosball_api.Prelude.{ℕ}

pub data ErrorCode : Type 0 where
  match_not_found match_not_awaiting_confirmation not_a_player match_already_confirmed : ErrorCode
  forbidden_not_creator match_locked forbidden_admin_required capacity_exceeded : ErrorCode
  slot_conflict insufficient_players match_not_confirmed audit_log_write_failed : ErrorCode
  invalid_refresh_token unauthorized user_not_found validation_error : ErrorCode
  queue_required job_not_found invalid_callback mobile_exchange_failed : ErrorCode

-- `error` is any thrown value that is not an HttpException: a failed query or queue call.
pub data Exception : Type 0 where
  http_exception : ℕ → ErrorCode → Exception
  error : Exception

abbrev pub bad_request : ErrorCode → Exception
bad_request = http_exception 400

abbrev pub unauthorized_exception : ErrorCode → Exception
unauthorized_exception = http_exception 401

abbrev pub forbidden : ErrorCode → Exception
forbidden = http_exception 403

abbrev pub not_found : ErrorCode → Exception
not_found = http_exception 404

abbrev pub conflict : ErrorCode → Exception
conflict = http_exception 409

abbrev pub unprocessable : ErrorCode → Exception
unprocessable = http_exception 422

abbrev pub internal : ErrorCode → Exception
internal = http_exception 500

pub data Result {ℓ} (A : Type ℓ) : Type ℓ where
  ok : A → Result A
  err : Exception → Result A
