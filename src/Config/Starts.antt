-- ===== src/Config/Starts.antt =====
-- Which variables an application needs to start.
use foosball_api.Prelude.{◌≡◌, Bool, true, false, ◌&&◌, String, List, [], ◌∷◌, arith, is_some}
use foosball_api.Config.{Env, Setup, ready, missing}
use foosball_api.Config.Factories.{api_app, auth_app, worker_app}

abbrev pub is_ready : {A : Type 0} → Setup A → Bool
is_ready (ready a) = true
is_ready (missing key) = false

abbrev pub all_set : Env → List String → Bool
all_set env [] = true
all_set env (key ∷ keys) = is_some (env key) && all_set env keys

abbrev pub database_keys : List String
database_keys = "DB_HOST" ∷ "DB_USER" ∷ "DB_PASSWORD" ∷ "DB_NAME" ∷ []

abbrev pub sign_in_keys : List String
sign_in_keys =
    "JWT_SECRET" ∷ "AZURE_TENANT_ID" ∷ "AZURE_CLIENT_ID" ∷ "AZURE_CLIENT_SECRET"
    ∷ "AZURE_REDIRECT_URI" ∷ "AZURE_MOBILE_REDIRECT_URI" ∷ []

-- Each application's factories return exactly if these variables are set: for the worker the
-- host, user, password and name of the database; for the API and the auth application also the
-- secret of the tokens and all five of Azure AD, the mobile redirect included, though the API
-- signs nobody in.
pub starts_exactly :
    (env : Env)
    → (is_ready (worker_app env) ≡ all_set env database_keys)
      × (is_ready (api_app env) ≡ all_set env database_keys && all_set env sign_in_keys)
      × (is_ready (auth_app env) ≡ all_set env database_keys && all_set env sign_in_keys)
unfolding api_app auth_app worker_app
starts_exactly env = (ground arith, ground arith, ground arith)
