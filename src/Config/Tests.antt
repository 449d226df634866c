-- ===== src/Config/Tests.antt =====
-- The start of the applications in a complete environment.
use text.Mathlib.Text.{◌==◌ as str_eq}
use foosball_api.Prelude.{
  ◌≡◌, ◌↔◌, get_or, refl, true, false, [], ◌∷◌, ◌&&◌, some, none, if◌then◌else◌,
}
use foosball_api.Config.{
  Env, given, Server, RedisOptions, TokenOptions, AzureOptions, user_entity, refresh_token_entity,
  match_entity, match_player_entity, match_confirmation_entity, audit_log_entity, ApiApp, AuthApp,
  WorkerApp, ready,
}
use foosball_api.Config.Factories.{api_app, auth_app, worker_app, producer_queues}
use foosball_api.Config.Starts.{is_ready, all_set, database_keys, sign_in_keys, starts_exactly}
use foosball_api.Events.{week}
use foosball_api.Leaderboard.{users, scope_text, cache_key}
use foosball_api.Worker.{worker_key}
use foosball_api.Config.Servers.{same_servers}

-- every variable is set but the password of Redis
abbrev env : Env
env key = if str_eq key "REDIS_PASSWORD" then none else some key

starts_exactly_example :
    (is_ready (worker_app env) ≡ all_set env database_keys)
    × (is_ready (api_app env) ≡ all_set env database_keys && all_set env sign_in_keys)
    × (is_ready (auth_app env) ≡ all_set env database_keys && all_set env sign_in_keys)
starts_exactly_example = starts_exactly env

abbrev here : Server
here = record {
  host = "DB_HOST";
  port = given "DB_PORT";
  username = "DB_USER";
  password = "DB_PASSWORD";
  database = "DB_NAME";
}

abbrev redis : RedisOptions
redis = record { host = "REDIS_HOST"; port = given "REDIS_PORT"; password = none }

abbrev tokens : TokenOptions
tokens = record { secret = "JWT_SECRET"; expires_in = "15m" }

abbrev azure : AzureOptions
azure = record {
  client_id = "AZURE_CLIENT_ID";
  client_secret = "AZURE_CLIENT_SECRET";
  authority = "https://login.microsoftonline.com/AZURE_TENANT_ID";
  web_redirect_uri = "AZURE_REDIRECT_URI";
  mobile_redirect_uri = "AZURE_MOBILE_REDIRECT_URI";
}

abbrev api : ApiApp
api = record {
  database = record {
    server = here;
    entities =
        user_entity ∷ refresh_token_entity ∷ match_entity ∷ match_player_entity
        ∷ match_confirmation_entity ∷ audit_log_entity ∷ [];
    synchronize = false;
    migrations_run = true;
    migrations = some ("dist/migrations/*.js" ∷ []);
    logging = some false;
  };
  queues = redis;
  cache = redis;
  tokens = tokens;
  azure = azure;
}

abbrev auth : AuthApp
auth = record {
  database = record {
    server = here;
    entities = user_entity ∷ refresh_token_entity ∷ [];
    synchronize = false;
    migrations_run = true;
    migrations = some [];
    logging = none;
  };
  tokens = tokens;
  azure = azure;
}

abbrev worker : WorkerApp
worker = record {
  database = record {
    server = here;
    entities = audit_log_entity ∷ [];
    synchronize = false;
    migrations_run = false;
    migrations = none;
    logging = some false;
  };
  queues = redis;
  cache = redis;
  prefix = "QUEUE_PREFIX";
}

api_starts : api_app env ≡ ready api
unfolding api_app
api_starts = refl

auth_starts : auth_app env ≡ ready auth
unfolding auth_app
auth_starts = refl

worker_starts : worker_app env ≡ ready worker
unfolding worker_app
worker_starts = refl

same_servers_example :
    (api.database.server ≡ auth.database.server)
    × (api.database.server ≡ worker.database.server)
    × (api.tokens ≡ auth.tokens)
    × (api.queues ≡ worker.queues)
    × (producer_queues env ≡ worker.queues)
    × (api.cache ≡ worker.cache)
    × ((worker_key worker.prefix (scope_text users) week ≡ cache_key users week)
        ↔ (get_or (env "QUEUE_PREFIX") "leaderboard" ≡ "leaderboard"))
same_servers_example = same_servers env users week api_starts auth_starts worker_starts
