-- ===== src/Matches/Dto.antt =====
-- libs/matches/src/dto: the request bodies, with the checks that their decorators make of numbers
-- and array lengths. Numbers are naturals, and the lengths of texts are not checked here.
use foosball_api.Prelude.{
  ℕ, Bool, true, ◌&&◌, Option, none, some, String, List, [], ◌∷◌, leb, length, get_or,
}
use foosball_api.Matches.Entity.{MatchType, two_v_two, Team}

-- create-match.dto.ts; an absent type is the initialiser's '2v2'
pub record CreateMatchDto : Type 0 where
  pub match_type : Option MatchType

abbrev pub created_type : CreateMatchDto → MatchType
created_type dto = get_or dto.match_type two_v_two

-- update-match.dto.ts; a score is absent (`none`), null or a number
pub record UpdateMatchDto : Type 0 where
  pub score_a : Option (Option ℕ)
  pub score_b : Option (Option ℕ)

-- add-players.dto.ts
pub record PlayerDto : Type 0 where
  pub user_id : ℕ
  pub team : Team
  pub slot : ℕ
  pub position : Option String

pub record AddPlayersDto : Type 0 where
  pub players : List PlayerDto

-- submit-result.dto.ts
pub record SubmitResultDto : Type 0 where
  pub score_a : ℕ
  pub score_b : ℕ

-- admin-override.dto.ts
pub record AdminOverrideResultDto : Type 0 where
  pub score_a : ℕ
  pub score_b : ℕ
  pub reason : Option String

-- `@Min(0) @Max(255)`, on a number that is a ℕ
unfoldable pub score_valid : ℕ → Bool
score_valid s = leb s 255

unfoldable pub optional_score_valid : Option ℕ → Bool
unfolding score_valid
optional_score_valid none = true
optional_score_valid (some s) = score_valid s

-- `@IsOptional()`: neither an absent score nor null is checked
unfoldable pub given_valid : Option (Option ℕ) → Bool
unfolding optional_score_valid
given_valid none = true
given_valid (some s) = optional_score_valid s

unfoldable pub update_valid : UpdateMatchDto → Bool
unfolding given_valid
update_valid dto = given_valid dto.score_a && given_valid dto.score_b

unfoldable pub submit_valid : SubmitResultDto → Bool
unfolding score_valid optional_score_valid
submit_valid dto = score_valid dto.score_a && score_valid dto.score_b

unfoldable pub override_valid : AdminOverrideResultDto → Bool
unfolding score_valid optional_score_valid
override_valid dto = score_valid dto.score_a && score_valid dto.score_b

-- `@IsPositive` user, `@Min(1) @Max(4)` slot; the team is an enum
unfoldable pub player_valid : PlayerDto → Bool
player_valid p = leb 1 p.user_id && leb 1 p.slot && leb p.slot 4

unfoldable pub players_valid : List PlayerDto → Bool
unfolding player_valid
players_valid [] = true
players_valid (p ∷ ps) = player_valid p && players_valid ps

-- `@ArrayMinSize(1) @ArrayMaxSize(8) @ValidateNested({ each: true })`
unfoldable pub add_players_valid : AddPlayersDto → Bool
unfolding players_valid
add_players_valid dto =
    leb 1 (length dto.players) && leb (length dto.players) 8 && players_valid dto.players

-- `@IsOptional() @IsString() @MaxLength(max)`, by the length that class-validator counts
module _ (measure : String → ℕ) where
  abbrev pub max_length : ℕ → Option String → Bool
  max_length max none = true
  max_length max (some s) = leb (measure s) max

  unfoldable pub position_valid : PlayerDto → Bool
  position_valid p = max_length 64 p.position

  unfoldable pub reason_valid : AdminOverrideResultDto → Bool
  reason_valid dto = max_length 1000 dto.reason
