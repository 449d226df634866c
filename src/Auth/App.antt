-- ===== src/Auth/App.antt =====
-- apps/auth/src: the routes of auth.controller.ts, connect.controller.ts and users.controller.ts,
-- behind the JWT guard and before the exception filter. A parameter of the query or a field of the
-- body that is not given is `none`. The limits of `@Throttle` are left out.
pub mod Guarded
pub mod Effects
mod Tests
use text.Mathlib.Text.{◌==◌ as str_eq}
use foosball_api.Prelude.{
  ℕ, Bool, true, false, ◌||◌, Option, none, some, String, ltb, get_or, if◌then◌else◌,
}
use foosball_api.Http.{
  ErrorCode, Exception, Result, ok, err, error, http_exception, validation_error, invalid_callback,
  bad_request,
}
use foosball_api.Action.{Action, pure, ◌>>=◌, ◌>>◌, throw_if}
use foosball_api.Auth.RefreshToken.{TokenStore, User, JwtPayload, TokenPair}
use foosball_api.Auth.Guards.{Request, jwt_can_activate}
use foosball_api.Auth.SignIn.{
  Azure, Accounts, web, mobile, Client, get_login_url, handle_callback, handle_mobile_exchange,
  refresh_session, logout_session, on_users, from_result,
}
use foosball_api.Users.{UserStore, utf16_length, find_user, update_display_name}

-- the routes, with what they read of the request
pub data Route : Type 0 where
  login : Option String → Route
  refresh_token : Option String → Route
  log_out : Option String → Route
  me : Route
  callback : Option String → Option String → Route
  mobile_exchange : Option String → Option String → Route
  get_profile : Route
  update_profile : Option String → Route

-- the user object of a reply, but for `createdAt`
pub record Profile : Type 0 where
  pub id : ℕ
  pub email : String
  pub display_name : String
  pub is_admin : Bool

pub data Body : Type 0 where
  redirect_to : String → Body
  login_url : String → Body
  token_pair : TokenPair → Body
  profile : Profile → Body
  no_content : Body
  failure : ErrorCode → Body
  -- the framework's own body for an error without a status
  internal_server_error : Body

pub record Reply : Type 0 where
  pub status : ℕ
  pub content : Body

-- `@Public()`
abbrev pub is_public : Route → Bool
is_public (login _) = true
is_public (refresh_token _) = true
is_public (callback _ _) = true
is_public (mobile_exchange _ _) = true
is_public _ = false

-- what a handler draws: the time, and two random tokens
pub record Draws : Type 0 where
  pub now : ℕ
  pub raw : String
  pub raw' : String

abbrev pub profile_of : User → Profile
profile_of u = record {
  id = u.id;
  email = u.email;
  display_name = u.display_name;
  is_admin = u.is_admin;
}

abbrev pub reply : ℕ → Body → Reply
reply status content = record { status = status; content = content }

-- `client === 'mobile' ? 'mobile' : 'web'`
abbrev pub client_type : Option String → Client
client_type none = web
client_type (some client) = if str_eq client "mobile" then mobile else web

abbrev pub login_reply : Client → String → Reply
login_reply web url = reply 302 (redirect_to url)
login_reply mobile url = reply 200 (login_url url)

-- `!x`
abbrev pub is_missing : Option String → Bool
is_missing none = true
is_missing (some x) = str_eq x ""

-- the message of an `HttpExceptionFilter` reply is left out
abbrev pub filtered : Result Reply → Reply
filtered (ok r) = r
filtered (err (http_exception status code)) = reply status (failure code)
filtered (err error) = reply 500 internal_server_error

-- the handlers that need a user have one, since the guard let them through
abbrev pub with_user :
    Option JwtPayload → (JwtPayload → Action Accounts Reply) → Action Accounts Reply
with_user none f a = (err error, a)
with_user (some p) f a = f p a

-- `if (!code || !state) { reply.status(400).send(...); return; }`
abbrev pub unless_missing :
    Option String → Option String → Action Accounts Reply → Action Accounts Reply
unless_missing code state m a =
    if is_missing code || is_missing state
    then (ok (reply 400 (failure invalid_callback)), a)
    else m a

module _ (azure : Azure) (users : UserStore) (tokens : TokenStore)
    (sign : JwtPayload → String) where
  abbrev pub login_handler : Option String → Action Accounts Reply
  login_handler client = do
    url ← from_result (get_login_url azure (client_type client))
    pure (login_reply (client_type client) url)

  abbrev pub refresh_handler : Draws → Option String → Action Accounts Reply
  refresh_handler d given = do
    throw_if (is_missing given || ltb (utf16_length (get_or given "")) 32)
        (bad_request validation_error)
    pair ← refresh_session tokens sign d.now d.raw d.raw' (get_or given "")
    pure (reply 200 (token_pair pair))

  abbrev pub logout_handler : Draws → Option String → Action Accounts Reply
  logout_handler d given = do
    throw_if (is_missing given) (bad_request validation_error)
    logout_session tokens d.now (get_or given "")
    pure (reply 204 no_content)

  -- `me` of the two controllers, which differ in nothing
  abbrev pub profile_handler : Option JwtPayload → Action Accounts Reply
  profile_handler user =
      with_user user
        (λ p. do u ← on_users (find_user p.sub); pure (reply 200 (profile (profile_of u))))

  abbrev pub callback_handler : Draws → Option String → Option String → Action Accounts Reply
  callback_handler d code state = unless_missing code state (do
    pair ← handle_callback azure users tokens sign d.now d.raw (get_or code "") (get_or state "")
    pure (reply 200 (token_pair pair)))

  abbrev pub mobile_exchange_handler : Draws → Option String → Option String → Action Accounts Reply
  mobile_exchange_handler d code state = unless_missing code state (do
    pair ←
        handle_mobile_exchange azure users tokens sign d.now d.raw (get_or code "")
          (get_or state "")
    pure (reply 200 (token_pair pair)))

  abbrev pub update_profile_handler : Option JwtPayload → Option String → Action Accounts Reply
  update_profile_handler user given = do
    throw_if (is_missing given) (bad_request validation_error)
    with_user user (λ p. do
      u ← on_users (update_display_name users p.sub (get_or given ""))
      pure (reply 200 (profile (profile_of u))))

  unfoldable pub run : Draws → Option JwtPayload → Route → Action Accounts Reply
  run d user (login client) = login_handler client
  run d user (refresh_token given) = refresh_handler d given
  run d user (log_out given) = logout_handler d given
  run d user me = profile_handler user
  run d user (callback code state) = callback_handler d code state
  run d user (mobile_exchange code state) = mobile_exchange_handler d code state
  run d user get_profile = profile_handler user
  run d user (update_profile given) = update_profile_handler user given

  -- the handler, once the guard has answered, and the filter
  abbrev pub guarded : Draws → Route → Accounts → Result Request → Reply × Accounts
  guarded d route a (err e) = (filtered (err e), a)
  guarded d route a (ok r) = let (result, a') = run d r.user route a in (filtered result, a')

  unfoldable pub serve :
      (String → Option JwtPayload) → Draws → Option String → Route → Accounts → Reply × Accounts
  serve verify d authorization route a = guarded d route a (
      jwt_can_activate verify (is_public route)
        (record { authorization = authorization; user = none }))
