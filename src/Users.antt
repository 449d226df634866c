-- ===== src/Users.antt =====
-- libs/users/src: user.service.ts over user.repository.ts, whose entity is `User` of
-- Auth/RefreshToken.
pub mod Profile
pub mod Memory
mod Tests
use Prim.Native.Char.{Char, code}
use Prim.Native.String.{[], ◌∷◌}
use text.Mathlib.Text.{◌==◌ as str_eq}
use foosball_api.Prelude.{
  ℕ, suc, ◌+◌, ◌≡◌, Bool, true, false, ◌||◌, ◌&&◌, Option, none, some, String, ltb, leb, ◌==◌,
  if◌then◌else◌,
}
use foosball_api.Http.{ok, err, error, user_not_found, validation_error, not_found, unprocessable}
use foosball_api.Action.{Action, pure, gets, or_throw, ◌>>=◌, ◌>>◌, throw_if}
use foosball_api.Auth.RefreshToken.{User}

-- the white space and line ends of ECMAScript, by code point
abbrev pub is_space : ℕ → Bool
is_space c =
    leb 9 c && leb c 13
    || c == 32
    || c == 160
    || c == 5760
    || leb 8192 c && leb c 8202
    || c == 8232
    || c == 8233
    || c == 8239
    || c == 8287
    || c == 12288
    || c == 65279

unfoldable pub trim_start : String → String
trim_start [] = []
trim_start (c ∷ s) = let rest = trim_start s in if is_space (code c) then rest else c ∷ s

unfoldable pub trim_end : String → String
trim_end [] = []
trim_end (c ∷ s) =
    let rest = trim_end s in if is_space (code c) && str_eq rest "" then "" else c ∷ rest

unfoldable pub trim : String → String
trim s = trim_end (trim_start s)

-- `s.length`, in UTF-16 units
unfoldable pub utf16_length : String → ℕ
utf16_length [] = 0
utf16_length (c ∷ s) = (if ltb (code c) 65536 then 1 else 2) + utf16_length s

-- The users' table, by the answers of its queries.
pub record Users : Type 0 where
  pub by_id : ℕ → Option User
  pub by_oid : String → Option User

-- What the repository uses of TypeORM: writes that may fail.
pub record UserStore : Type 0 where
  -- create and save of a user without id
  pub insert : String → String → String → Users → Option (User × Users)
  pub save : User → Users → Option Users
  -- `update(id, { displayName })`
  pub update_name : ℕ → String → Users → Option Users

abbrev pub renamed : String → Option User → Option User
renamed name none = none
renamed name (some u) = some (record u { display_name = name })

pub record InsertedUser (oid email name : String) (u : User) (s s' : Users) : Type 0 where
  pub columns :
      u
      ≡ record { id = u.id; azure_oid = oid; email = email; display_name = name; is_admin = false }
  pub by_id : (i : ℕ) → s'.by_id i ≡ (if i == u.id then some u else s.by_id i)
  pub by_oid : (h : String) → s'.by_oid h ≡ (if str_eq oid h then some u else s.by_oid h)

-- the documented effect of each write that succeeds; a saved user keeps the oid of its row
pub record UserLaws (o : UserStore) : Type 0 where
  pub insert :
      (oid email name : String) (u : User) (s s' : Users)
      → o.insert oid email name s ≡ some (u, s')
      → InsertedUser oid email name u s s'
  pub save :
      (u x : User) (s s' : Users)
      → s.by_oid u.azure_oid ≡ some x
      → x.id ≡ u.id
      → o.save u s ≡ some s'
      → ((i : ℕ) → s'.by_id i ≡ (if i == u.id then some u else s.by_id i))
        × ((h : String) → s'.by_oid h ≡ (if str_eq u.azure_oid h then some u else s.by_oid h))
  pub update_name :
      (id : ℕ) (name : String) (s s' : Users)
      → o.update_name id name s ≡ some s'
      → (i : ℕ) → s'.by_id i ≡ (if i == id then renamed name (s.by_id i) else s.by_id i)

pub record UpsertUserInput : Type 0 where
  pub azure_oid : String
  pub email : String
  pub display_name : String

abbrev pub insert_user : UserStore → UpsertUserInput → Action Users User
insert_user o input s = elim (o.insert input.azure_oid input.email input.display_name s) [
  | none ↦ (err error, s)
  | some (u, s') ↦ (ok u, s')
]

abbrev pub save_user : UserStore → User → Action Users User
save_user o u s = elim (o.save u s) [ none ↦ (err error, s) | some s' ↦ (ok u, s') ]

abbrev pub signed_in : User → UpsertUserInput → User
signed_in u input = record u { email = input.email; display_name = input.display_name }

abbrev pub write_name : UserStore → ℕ → String → Action Users (Unit {0})
write_name o id name s = elim (o.update_name id name s) [
  | none ↦ (err error, s)
  | some s' ↦ (ok tt, s')
]

-- UserService.findById
unfoldable pub find_user : ℕ → Action Users User
find_user id = do found ← gets (λ s. s.by_id id); or_throw found (not_found user_not_found)

module _ (o : UserStore) where
  -- upsertFromAzure, which is the repository's `upsert`
  unfoldable pub upsert : UpsertUserInput → Action Users User
  upsert input s = elim (s.by_oid input.azure_oid) [
    | none ↦ insert_user o input s
    | some existing ↦ save_user o (signed_in existing input) s
  ]

  unfoldable pub update_display_name : ℕ → String → Action Users User
  unfolding trim utf16_length
  update_display_name id display_name = do
    let trimmed = trim display_name
    throw_if (ltb (utf16_length trimmed) 1 || ltb 255 (utf16_length trimmed))
        (unprocessable validation_error)
    write_name o id trimmed
    updated ← gets (λ s. s.by_id id)
    or_throw updated error
