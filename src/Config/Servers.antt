-- ===== src/Config/Servers.antt =====
-- The applications that start from one environment work on the same servers, and with the same
-- cache keys where QUEUE_PREFIX is left alone.
use foosball_api.Prelude.{◌≡◌, ◌∙◌, ◌↔◌, sym, ap, arith, get_or}
use foosball_api.Config.{
  Env, Setup, ready, Server, RedisOptions, ApiApp, AuthApp, WorkerApp, get_or_throw, port_or,
  unless_empty, ◌>>=◌,
}
use foosball_api.Config.Factories.{token_options, api_app, auth_app, worker_app, producer_queues}
use foosball_api.Events.{TimeFilter}
use foosball_api.Leaderboard.{Scope, scope_text, cache_key}
use foosball_api.Worker.{worker_key}
use foosball_api.Worker.Invalidation.{key-default, key-prefix}

ready_eq : {A : Type 0} {x y : A} → ready x ≡ ready y → x ≡ y
ready_eq e = cc

module _ (env : Env) where
  -- the database's server and Redis, as the deployment guide names their variables
  server_of_env : Setup Server
  server_of_env = do
    host ← get_or_throw env "DB_HOST"
    username ← get_or_throw env "DB_USER"
    password ← get_or_throw env "DB_PASSWORD"
    database ← get_or_throw env "DB_NAME"
    ready (record {
      host = host;
      port = port_or (env "DB_PORT") 3306;
      username = username;
      password = password;
      database = database;
    })

  redis_of_env : RedisOptions
  redis_of_env = record {
    host = get_or (env "REDIS_HOST") "localhost";
    port = port_or (env "REDIS_PORT") 6379;
    password = unless_empty (env "REDIS_PASSWORD");
  }

  api-server :
      {a : ApiApp}
      → api_app env ≡ ready a
      → (server_of_env ≡ ready a.database.server)
        × (token_options env ≡ ready a.tokens)
        × (a.queues ≡ redis_of_env)
        × (a.cache ≡ redis_of_env)
  unfolding api_app server_of_env redis_of_env
  api-server e = ground arith

  auth-server :
      {a : AuthApp}
      → auth_app env ≡ ready a
      → (server_of_env ≡ ready a.database.server) × (token_options env ≡ ready a.tokens)
  unfolding auth_app server_of_env
  auth-server e = ground arith

  worker-server :
      {a : WorkerApp}
      → worker_app env ≡ ready a
      → (server_of_env ≡ ready a.database.server)
        × (a.queues ≡ redis_of_env)
        × (a.cache ≡ redis_of_env)
        × (a.prefix ≡ get_or (env "QUEUE_PREFIX") "leaderboard")
  unfolding worker_app server_of_env redis_of_env
  worker-server e = ground arith

  -- If the API, the auth application and the worker start from one environment, then they have
  -- the same database; the API checks tokens with the secret that the auth application signs them
  -- with; the API, the worker and the producer have their queues on one Redis; the worker connects
  -- to the Redis in which the API caches; and the key that the worker deletes for a kind of
  -- leaderboard and a filter is the key under which the API caches that board if and only if
  -- QUEUE_PREFIX is not set or is `leaderboard`.
  pub same_servers :
      (scope : Scope) (f : TimeFilter) {api : ApiApp} {auth : AuthApp} {worker : WorkerApp}
      → api_app env ≡ ready api
      → auth_app env ≡ ready auth
      → worker_app env ≡ ready worker
      → (api.database.server ≡ auth.database.server)
        × (api.database.server ≡ worker.database.server)
        × (api.tokens ≡ auth.tokens)
        × (api.queues ≡ worker.queues)
        × (producer_queues env ≡ worker.queues)
        × (api.cache ≡ worker.cache)
        × ((worker_key worker.prefix (scope_text scope) f ≡ cache_key scope f)
            ↔ (get_or (env "QUEUE_PREFIX") "leaderboard" ≡ "leaderboard"))
  unfolding producer_queues redis_of_env
  same_servers scope f {worker = worker} a b c =
      let x = api-server a in
      let y = auth-server b in
      let z = worker-server c in
      (
        ready_eq (sym x.0 ∙ y.0),
        ready_eq (sym x.0 ∙ z.0),
        ready_eq (sym x.1 ∙ y.1),
        x.2 ∙ sym z.1,
        sym z.1,
        x.3 ∙ sym z.2,
        (
          (λ same. sym z.3 ∙ key-prefix worker.prefix scope f same),
          λ plain. ap (λ p. worker_key p (scope_text scope) f) (z.3 ∙ plain) ∙ key-default scope f,
        ),
      )
