-- ===== src/Config/Factories.antt =====
-- The factories of the four applications, by the environment that they read.
use Prim.Native.String.{◌++◌}
use foosball_api.Prelude.{true, false, Option, none, some, String, List, [], ◌∷◌, get_or}
use foosball_api.Config.Numbers.{Parsed, parse_int, split, filled}
use foosball_api.Config.{
  Env, Setup, ready, ◌>>=◌, get_or_throw, port_or, unless_empty, user_entity, refresh_token_entity,
  match_entity, match_player_entity, match_confirmation_entity, audit_log_entity, TypeOrmOptions,
  RedisOptions, AzureOptions, TokenOptions, ApiApp, AuthApp, WorkerApp, is_development,
}

module _ (env : Env) where
  -- the constructor of AzureAdService
  unfoldable pub azure_options : Setup AzureOptions
  azure_options = do
    tenant_id ← get_or_throw env "AZURE_TENANT_ID"
    client_id ← get_or_throw env "AZURE_CLIENT_ID"
    client_secret ← get_or_throw env "AZURE_CLIENT_SECRET"
    web_redirect_uri ← get_or_throw env "AZURE_REDIRECT_URI"
    mobile_redirect_uri ← get_or_throw env "AZURE_MOBILE_REDIRECT_URI"
    ready (record {
      client_id = client_id;
      client_secret = client_secret;
      authority = "https://login.microsoftonline.com/" ++ tenant_id;
      web_redirect_uri = web_redirect_uri;
      mobile_redirect_uri = mobile_redirect_uri;
    })

  unfoldable pub token_options : Setup TokenOptions
  token_options = do
    secret ← get_or_throw env "JWT_SECRET"
    ready (record { secret = secret; expires_in = "15m" })

  unfoldable pub api_database : Setup TypeOrmOptions
  api_database = do
    host ← get_or_throw env "DB_HOST"
    username ← get_or_throw env "DB_USER"
    password ← get_or_throw env "DB_PASSWORD"
    database ← get_or_throw env "DB_NAME"
    ready (record {
      server = record {
        host = host;
        port = port_or (env "DB_PORT") 3306;
        username = username;
        password = password;
        database = database;
      };
      entities =
          user_entity ∷ refresh_token_entity ∷ match_entity ∷ match_player_entity
          ∷ match_confirmation_entity ∷ audit_log_entity ∷ [];
      synchronize = false;
      migrations_run = true;
      migrations = some ("dist/migrations/*.js" ∷ []);
      logging = some (is_development (env "NODE_ENV"));
    })

  unfoldable pub auth_database : Setup TypeOrmOptions
  auth_database = do
    host ← get_or_throw env "DB_HOST"
    username ← get_or_throw env "DB_USER"
    password ← get_or_throw env "DB_PASSWORD"
    database ← get_or_throw env "DB_NAME"
    ready (record {
      server = record {
        host = host;
        port = port_or (env "DB_PORT") 3306;
        username = username;
        password = password;
        database = database;
      };
      entities = user_entity ∷ refresh_token_entity ∷ [];
      synchronize = false;
      migrations_run = true;
      migrations = some [];
      logging = none;
    })

  unfoldable pub worker_database : Setup TypeOrmOptions
  worker_database = do
    host ← get_or_throw env "DB_HOST"
    username ← get_or_throw env "DB_USER"
    password ← get_or_throw env "DB_PASSWORD"
    database ← get_or_throw env "DB_NAME"
    ready (record {
      server = record {
        host = host;
        port = port_or (env "DB_PORT") 3306;
        username = username;
        password = password;
        database = database;
      };
      entities = audit_log_entity ∷ [];
      synchronize = false;
      migrations_run = false;
      migrations = none;
      logging = some (is_development (env "NODE_ENV"));
    })

  -- BullMQ's connection and the Redis client of each application that has one
  unfoldable pub api_queues : RedisOptions
  api_queues = record {
    host = get_or (env "REDIS_HOST") "localhost";
    port = port_or (env "REDIS_PORT") 6379;
    password = unless_empty (env "REDIS_PASSWORD");
  }

  unfoldable pub api_cache : RedisOptions
  api_cache = record {
    host = get_or (env "REDIS_HOST") "localhost";
    port = port_or (env "REDIS_PORT") 6379;
    password = unless_empty (env "REDIS_PASSWORD");
  }

  unfoldable pub worker_queues : RedisOptions
  worker_queues = record {
    host = get_or (env "REDIS_HOST") "localhost";
    port = port_or (env "REDIS_PORT") 6379;
    password = unless_empty (env "REDIS_PASSWORD");
  }

  unfoldable pub worker_cache : RedisOptions
  worker_cache = record {
    host = get_or (env "REDIS_HOST") "localhost";
    port = port_or (env "REDIS_PORT") 6379;
    password = unless_empty (env "REDIS_PASSWORD");
  }

  -- The modules that the application imports: AuthModule has AzureAdService and the JWT library,
  -- LeaderboardModule its own Redis client.
  unfoldable pub api_app : Setup ApiApp
  unfolding api_database api_queues api_cache token_options azure_options
  api_app = do
    database ← api_database
    tokens ← token_options
    azure ← azure_options
    ready (record {
      database = database;
      queues = api_queues;
      cache = api_cache;
      tokens = tokens;
      azure = azure;
    })

  unfoldable pub auth_app : Setup AuthApp
  unfolding auth_database token_options azure_options
  auth_app = do
    database ← auth_database
    tokens ← token_options
    azure ← azure_options
    ready (record { database = database; tokens = tokens; azure = azure })

  -- `process.env['QUEUE_PREFIX'] ?? 'leaderboard'`
  unfoldable pub worker_prefix : String
  worker_prefix = get_or (env "QUEUE_PREFIX") "leaderboard"

  unfoldable pub worker_app : Setup WorkerApp
  unfolding worker_database worker_queues worker_cache worker_prefix
  worker_app = do
    database ← worker_database
    ready (record {
      database = database;
      queues = worker_queues;
      cache = worker_cache;
      prefix = worker_prefix;
    })

  -- the producer needs no variable
  unfoldable pub producer_queues : RedisOptions
  producer_queues = record {
    host = get_or (env "REDIS_HOST") "localhost";
    port = port_or (env "REDIS_PORT") 6379;
    password = unless_empty (env "REDIS_PASSWORD");
  }

  -- AppDataSource, for the migrations
  unfoldable pub data_source : String × Parsed × String × String × String
  unfolding parse_int
  data_source = (
    get_or (env "DB_HOST") "localhost",
    parse_int (get_or (env "DB_PORT") "3306"),
    get_or (env "DB_USER") "foosball",
    get_or (env "DB_PASSWORD") "foosball",
    get_or (env "DB_NAME") "foosball",
  )

  unfoldable pub max_retries : Parsed
  unfolding parse_int
  max_retries = parse_int (get_or (env "BULLMQ_MAX_RETRIES") "3")

  unfoldable pub api_port : Parsed
  unfolding parse_int
  api_port = parse_int (get_or (env "API_PORT") "3000")

  unfoldable pub auth_port : Parsed
  unfolding parse_int
  auth_port = parse_int (get_or (env "AUTH_PORT") "3001")

  -- `origin` of the CORS plugin, `none` for `false`: the auth application drops empty entries
  unfoldable pub api_origins : Option (List String)
  unfolding split
  api_origins = elim (env "CORS_ORIGINS") [ none ↦ none | some x ↦ some (split x) ]

  unfoldable pub auth_origins : Option (List String)
  unfolding split
  auth_origins = elim (env "CORS_ORIGINS") [ none ↦ none | some x ↦ some (filled (split x)) ]
