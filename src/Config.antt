-- ===== src/Config.antt =====
-- What the four applications read of their environment when they start: the factories of
-- apps/*/src/app.module.ts, of libs/auth, libs/leaderboard and libs/database, queue-config.ts, and
-- the ports and origins of main.ts. The configuration is a function from a variable's name to its
-- text, ConfigService's or `process.env`. What the frameworks do with the options is left out.
pub mod Numbers
pub mod Factories
pub mod Starts
pub mod Servers
mod Tests
use text.Mathlib.Text.{◌==◌ as str_eq}
use Prim.Native.String.{◌++◌}
use foosball_api.Prelude.{
  ℕ, Bool, true, false, Option, none, some, String, List, [], ◌∷◌, get_or, if◌then◌else◌,
}
use foosball_api.Config.Numbers.{Parsed, parse_int, split, filled}

abbrev pub Env : Type 0
Env = String → Option String

-- a factory returns, or throws since a variable is missing
pub data Setup (A : Type 0) : Type 0 where
  ready : A → Setup A
  missing : String → Setup A

infixl 5 ◌>>=◌
abbrev pub ◌>>=◌ : {A B : Type 0} → Setup A → (A → Setup B) → Setup B
ready a >>= f = f a
missing k >>= f = missing k

abbrev pub or_missing : Option String → String → Setup String
or_missing none key = missing key
or_missing (some x) key = ready x

-- `config.getOrThrow(key)`
abbrev pub get_or_throw : Env → String → Setup String
get_or_throw env key = or_missing (env key) key

-- a port is the text of the variable, or the default, which is a number
pub data Port : Type 0 where
  given : String → Port
  by_default : ℕ → Port

abbrev pub port_or : Option String → ℕ → Port
port_or none n = by_default n
port_or (some x) n = given x

-- `x || undefined`
abbrev pub unless_empty : Option String → Option String
unless_empty none = none
unless_empty (some x) = if str_eq x "" then none else some x

pub record Server : Type 0 where
  pub host : String
  pub port : Port
  pub username : String
  pub password : String
  pub database : String

pub data Entity : Type 0 where
  user_entity refresh_token_entity match_entity match_player_entity : Entity
  match_confirmation_entity audit_log_entity : Entity

-- TypeORM's options; `none` where the key is not given
pub record TypeOrmOptions : Type 0 where
  pub server : Server
  pub entities : List Entity
  pub synchronize : Bool
  pub migrations_run : Bool
  pub migrations : Option (List String)
  pub logging : Option Bool

pub record RedisOptions : Type 0 where
  pub host : String
  pub port : Port
  pub password : Option String

pub record AzureOptions : Type 0 where
  pub client_id : String
  pub client_secret : String
  pub authority : String
  pub web_redirect_uri : String
  pub mobile_redirect_uri : String

pub record TokenOptions : Type 0 where
  pub secret : String
  pub expires_in : String

pub record ApiApp : Type 0 where
  pub database : TypeOrmOptions
  pub queues : RedisOptions
  pub cache : RedisOptions
  pub tokens : TokenOptions
  pub azure : AzureOptions

pub record AuthApp : Type 0 where
  pub database : TypeOrmOptions
  pub tokens : TokenOptions
  pub azure : AzureOptions

-- `prefix` is the field of LeaderboardInvalidateProcessor
pub record WorkerApp : Type 0 where
  pub database : TypeOrmOptions
  pub queues : RedisOptions
  pub cache : RedisOptions
  pub prefix : String

-- `config.get('NODE_ENV') === 'development'`
abbrev pub is_development : Option String → Bool
is_development none = false
is_development (some x) = str_eq x "development"
