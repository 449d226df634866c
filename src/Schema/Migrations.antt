-- ===== src/Schema/Migrations.antt =====
-- The six migrations, 001 to 006.
use foosball_api.Prelude.{List, [], ◌∷◌}
use foosball_api.Schema.{
  bigint_unsigned, tinyint_unsigned, tinyint, text, json, datetime, varchar, enum, cascade,
  set_null, restrict, Table, create_table_if_not_exists, drop_table_if_exists, Migration, not_null,
  not_null_default, null_default, references,
}

abbrev pub users_table : Table
users_table = record {
  name = "users";
  columns =
      not_null_default "id" bigint_unsigned
      ∷ not_null "azure_oid" (varchar 36)
      ∷ not_null "email" (varchar 255)
      ∷ not_null "display_name" (varchar 255)
      ∷ not_null_default "is_admin" tinyint
      ∷ not_null_default "created_at" datetime
      ∷ not_null_default "updated_at" datetime
      ∷ [];
  primary_key = "id" ∷ [];
  unique_keys = ("azure_oid" ∷ []) ∷ ("email" ∷ []) ∷ [];
  foreign_keys = [];
  checks = [];
}

abbrev pub refresh_tokens_table : Table
refresh_tokens_table = record {
  name = "refresh_tokens";
  columns =
      not_null_default "id" bigint_unsigned
      ∷ not_null "user_id" bigint_unsigned
      ∷ not_null "token_hash" (varchar 64)
      ∷ not_null "expires_at" datetime
      ∷ null_default "used_at" datetime
      ∷ null_default "replaced_by" bigint_unsigned
      ∷ not_null_default "created_at" datetime
      ∷ [];
  primary_key = "id" ∷ [];
  unique_keys = ("token_hash" ∷ []) ∷ [];
  foreign_keys =
      references "user_id" "users" cascade
      ∷ references "replaced_by" "refresh_tokens" set_null
      ∷ [];
  checks = [];
}

abbrev pub matches_table : Table
matches_table = record {
  name = "matches";
  columns =
      not_null_default "id" bigint_unsigned
      ∷ null_default "created_by" bigint_unsigned
      ∷ not_null_default "match_type" (enum ("1v1" ∷ "2v2" ∷ "4v4" ∷ []))
      ∷ not_null_default "status"
          (enum ("draft" ∷ "playing" ∷ "awaiting_confirmation" ∷ "confirmed" ∷ "cancelled" ∷ []))
      ∷ null_default "score_a" tinyint_unsigned
      ∷ null_default "score_b" tinyint_unsigned
      ∷ not_null_default "created_at" datetime
      ∷ not_null_default "updated_at" datetime
      ∷ null_default "confirmed_at" datetime
      ∷ null_default "locked_at" datetime
      ∷ [];
  primary_key = "id" ∷ [];
  unique_keys = [];
  foreign_keys = references "created_by" "users" set_null ∷ [];
  checks = [];
}

abbrev pub match_players_table : Table
match_players_table = record {
  name = "match_players";
  columns =
      not_null "match_id" bigint_unsigned
      ∷ not_null "user_id" bigint_unsigned
      ∷ not_null "team" (enum ("A" ∷ "B" ∷ []))
      ∷ not_null "slot" tinyint_unsigned
      ∷ null_default "position" (varchar 64)
      ∷ [];
  primary_key = "match_id" ∷ "user_id" ∷ [];
  unique_keys = ("match_id" ∷ "team" ∷ "slot" ∷ []) ∷ [];
  foreign_keys =
      references "match_id" "matches" cascade ∷ references "user_id" "users" restrict ∷ [];
  checks = record { column = "slot"; low = 1; high = 4 } ∷ [];
}

abbrev pub match_confirmations_table : Table
match_confirmations_table = record {
  name = "match_confirmations";
  columns =
      not_null "match_id" bigint_unsigned
      ∷ not_null "user_id" bigint_unsigned
      ∷ not_null_default "confirmed_at" datetime
      ∷ [];
  primary_key = "match_id" ∷ "user_id" ∷ [];
  unique_keys = [];
  foreign_keys =
      references "match_id" "matches" cascade ∷ references "user_id" "users" cascade ∷ [];
  checks = [];
}

abbrev pub audit_logs_table : Table
audit_logs_table = record {
  name = "audit_logs";
  columns =
      not_null_default "id" bigint_unsigned
      ∷ null_default "actor_id" bigint_unsigned
      ∷ not_null "action" (varchar 64)
      ∷ not_null "entity_type" (varchar 64)
      ∷ not_null "entity_id" bigint_unsigned
      ∷ not_null "before_data" json
      ∷ not_null "after_data" json
      ∷ null_default "reason" text
      ∷ not_null_default "created_at" datetime
      ∷ [];
  primary_key = "id" ∷ [];
  unique_keys = [];
  foreign_keys = references "actor_id" "users" set_null ∷ [];
  checks = [];
}

abbrev pub migration_of : Table → Migration
migration_of t = record { up = create_table_if_not_exists t; down = drop_table_if_exists t.name }

-- AppDataSource's, in the order in which they run
abbrev pub migrations : List Migration
migrations =
    migration_of users_table
    ∷ migration_of refresh_tokens_table
    ∷ migration_of matches_table
    ∷ migration_of match_players_table
    ∷ migration_of match_confirmations_table
    ∷ migration_of audit_logs_table
    ∷ []
