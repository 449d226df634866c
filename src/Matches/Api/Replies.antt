-- ===== src/Matches/Api/Replies.antt =====
-- The replies of apps/api on matches, and filters/http-exception.filter.ts, which makes one of what
-- is thrown. The messages and `details` of an error are left out.
use foosball_api.Prelude.{ℕ, List}
use foosball_api.Http.{ErrorCode, Exception, Result, ok, err, http_exception, error}
use foosball_api.Matches.Entity.{Match, AuditLog}
use foosball_api.Matches.Pagination.{PaginatedMatches}
use foosball_api.Matches.Confirmation.{ConfirmationStatusResult}
use foosball_api.Matches.AdminOverride.{AdminOverrideResult}

-- the `code` of an error's body
pub data ReplyCode : Type 0 where
  code : ErrorCode → ReplyCode
  http_error internal_error : ReplyCode

pub data Body : Type 0 where
  page : PaginatedMatches → Body
  detail : Match → Body
  confirmations : ConfirmationStatusResult → Body
  audit_logs : List AuditLog → Body
  override : AdminOverrideResult → Body
  no_content : Body
  failure : ReplyCode → Body

pub record Reply : Type 0 where
  pub status : ℕ
  pub content : Body

-- what reaches the filter: an exception of the program, or the ValidationPipe's
-- BadRequestException, whose body has no `code`
pub data Thrown : Type 0 where
  thrown : Exception → Thrown
  invalid_input : Thrown

unfoldable pub catch : Thrown → Reply
catch (thrown (http_exception status c)) = record { status = status; content = failure (code c) }
catch (thrown error) = record { status = 500; content = failure internal_error }
catch invalid_input = record { status = 400; content = failure http_error }

-- a handler's result under the status of its `@HttpCode`
abbrev pub answer_with : {A : Type 0} → ℕ → (A → Body) → Result A → Reply
answer_with status body (ok x) = record { status = status; content = body x }
answer_with status body (err e) = catch (thrown e)

abbrev pub answer : {A : Type 0} → (A → Body) → Result A → Reply
answer = answer_with 200
