-- ===== src/Auth/App/Effects.antt =====
-- What the routes of the auth application can change.
use mathlib.Core.Path.{subst}
use foosball_api.Prelude.{
  ℕ, ◌≡◌, ◌==◌, refl, ap, sym, false, ◌||◌, Option, none, some, String, ltb, get_or, inl, inr,
  arith, Bool-cases, Option-cases,
}
use foosball_api.Action.{Outcome-cases, Result-cases}
use foosball_api.Auth.RefreshToken.{TokenStore, JwtPayload}
use foosball_api.Auth.Guards.{jwt_can_activate}
use foosball_api.Auth.SignIn.{
  Azure, Accounts, refresh_session, logout_session, get_login_url, on_users,
}
use foosball_api.Users.{
  Users, UserStore, UserLaws, find_user, update_display_name, trim, utf16_length,
}
use foosball_api.Users.Profile.{update_display_name-refuses, update_display_name-writes}
use foosball_api.Auth.App.{
  Route, login, refresh_token, log_out, me, callback, mobile_exchange, get_profile, update_profile,
  Reply, is_public, Draws, run, guarded, serve, is_missing, client_type,
}
use foosball_api.Auth.App.Guarded.{bearer, guard_of, stranger_is_refused}

-- what a route may change, for the caller `user`
abbrev pub Effect : Option JwtPayload → Route → Accounts → Accounts → Type 0
Effect user (refresh_token _) a a' = a'.users ≡ a.users
Effect user (log_out _) a a' = a'.users ≡ a.users
Effect none (update_profile _) a a' = a' ≡ a
Effect (some p) (update_profile _) a a' =
    (a'.tokens ≡ a.tokens) × ((i : ℕ) → (i == p.sub) ≡ false → a'.users.by_id i ≡ a.users.by_id i)
Effect user (callback _ _) a a' = Unit {0}
Effect user (mobile_exchange _ _) a a' = Unit {0}
Effect user _ a a' = a' ≡ a

find_user-users : (id : ℕ) (a : Accounts) → (on_users (find_user id) a).1 ≡ a
unfolding find_user
find_user-users id a = ground arith

refresh_session-users :
    (tokens : TokenStore) (sign : JwtPayload → String) (now : ℕ) (raw raw' old : String)
    (a : Accounts)
    → (refresh_session tokens sign now raw raw' old a).1.users ≡ a.users
unfolding refresh_session
refresh_session-users tokens sign now raw raw' old a = refl

logout_session-users :
    (tokens : TokenStore) (now : ℕ) (raw : String) (a : Accounts)
    → (logout_session tokens now raw a).1.users ≡ a.users
unfolding logout_session
logout_session-users tokens now raw a = refl

update_display_name-others :
    {users : UserStore} (laws : UserLaws users) (id : ℕ) (name : String) (s : Users) (i : ℕ)
    → (i == id) ≡ false
    → (update_display_name users id name s).1.by_id i ≡ s.by_id i
update_display_name-others {users} laws id name s i other =
    let size = utf16_length (trim name) in
    elim (Bool-cases (ltb size 1 || ltb 255 size)) [
      | inl refused ↦ rw (update_display_name-refuses users id name s refused) refl
      | inr fits ↦ elim (update_display_name-writes users id name s (ground arith) (ground arith)) [
        | inl (failed, ends) ↦ rw ends refl
        | inr (s', done, inl (gone, ends)) ↦
            rw ends (rw other at (laws.update_name id (trim name) s s' done i))
        | inr (s', done, inr (u, there, ends)) ↦
            rw ends (rw other at (laws.update_name id (trim name) s s' done i))
      ]
    ]

module _ (azure : Azure) {users : UserStore} (laws : UserLaws users) (tokens : TokenStore)
    (sign : JwtPayload → String) where
  run-Effect :
      (d : Draws) (user : Option JwtPayload) (route : Route) (a : Accounts)
      → Effect user route a (run azure users tokens sign d user route a).1
  unfolding run
  run-Effect d user (login client) a =
      elim (Result-cases (get_login_url azure (client_type client))) [
        | inl (url, e) ↦ ground arith
        | inr (x, e) ↦ ground arith
      ]
  run-Effect d user (refresh_token given) a =
      elim (Bool-cases (is_missing given || ltb (utf16_length (get_or given "")) 32)) [
        | inl bad ↦ rw bad refl
        | inr good ↦
            rw good
              (elim (Outcome-cases
                (refresh_session tokens sign d.now d.raw d.raw' (get_or given "") a)) [
                  | inl (pair, a', e) ↦ ground (
                    arith,
                    refresh_session-users tokens sign d.now d.raw d.raw' (get_or given "") a,
                  )
                  | inr (x, a', e) ↦ ground (
                    arith,
                    refresh_session-users tokens sign d.now d.raw d.raw' (get_or given "") a,
                  )
                ])
      ]
  run-Effect d user (log_out given) a = elim (Bool-cases (is_missing given)) [
    | inl bad ↦ rw bad refl
    | inr good ↦ rw good (elim (Outcome-cases (logout_session tokens d.now (get_or given "") a)) [
      | inl (_, a', e) ↦ ground (arith, logout_session-users tokens d.now (get_or given "") a)
      | inr (x, a', e) ↦ ground (arith, logout_session-users tokens d.now (get_or given "") a)
    ])
  ]
  run-Effect d none me a = refl
  run-Effect d (some p) me a = elim (Outcome-cases (on_users (find_user p.sub) a)) [
    | inl (u, a', e) ↦ ground (arith, find_user-users p.sub a)
    | inr (x, a', e) ↦ ground (arith, find_user-users p.sub a)
  ]
  run-Effect d user (callback code state) a = tt
  run-Effect d user (mobile_exchange code state) a = tt
  run-Effect d none get_profile a = refl
  run-Effect d (some p) get_profile a = elim (Outcome-cases (on_users (find_user p.sub) a)) [
    | inl (u, a', e) ↦ ground (arith, find_user-users p.sub a)
    | inr (x, a', e) ↦ ground (arith, find_user-users p.sub a)
  ]
  run-Effect d none (update_profile given) a = elim (Bool-cases (is_missing given)) [
    | inl bad ↦ rw bad refl
    | inr good ↦ rw good refl
  ]
  run-Effect d (some p) (update_profile given) a = elim (Bool-cases (is_missing given)) [
    | inl bad ↦ rw bad (refl, λ i other. refl)
    | inr good ↦ elim (Outcome-cases (update_display_name users p.sub (get_or given "") a.users)) [
      | inl (u, s', e) ↦ (
        ground arith,
        λ i other.
            ground (
              arith,
              other,
              update_display_name-others laws p.sub (get_or given "") a.users i other,
            ),
      )
      | inr (x, s', e) ↦ (
        ground arith,
        λ i other.
            ground (
              arith,
              other,
              update_display_name-others laws p.sub (get_or given "") a.users i other,
            ),
      )
    ]
  ]

  serve-runs :
      (verify : String → Option JwtPayload) (d : Draws) (authorization : Option String)
      (route : Route) (a : Accounts) {p : JwtPayload}
      → is_public route ≡ false
      → bearer verify authorization ≡ some p
      → (serve azure users tokens sign verify d authorization route a).1
        ≡ (run azure users tokens sign d (some p) route a).1
  unfolding serve
  serve-runs verify d authorization route a closed known =
      ap (λ g. (guarded azure users tokens sign d route a g).1)
        (guard_of verify authorization closed known)

  serve-guarded :
      (verify : String → Option JwtPayload) (d : Draws) (authorization : Option String)
      (route : Route) (a : Accounts)
      → is_public route ≡ false
      → ((p : Option JwtPayload) → Effect p route a a)
      → Effect
          (bearer verify authorization)
          route
          a
          (serve azure users tokens sign verify d authorization route a).1
  serve-guarded verify d authorization route a closed idle =
      elim (Option-cases (bearer verify authorization)) [
        | inl stranger ↦
            subst (Effect (bearer verify authorization) route a)
              (sym (
                ap (λ (r : Reply × Accounts). r.1)
                  (stranger_is_refused azure users tokens sign verify d authorization route a closed
                    stranger)))
              (idle (bearer verify authorization))
        | inr (p, known) ↦
            subst
              (λ q.
                Effect q route a (serve azure users tokens sign verify d authorization route a).1)
              (sym known)
              (subst (Effect (some p) route a)
                (sym (serve-runs verify d authorization route a closed known))
                (run-Effect d (some p) route a))
      ]

  -- Whatever the request and however it ends, its route changes only this: a login, and a reading
  -- of the own profile, nothing; a refresh and a logout the tokens at most; a renaming the row of
  -- the user of the verified token at most, and nothing without such a token. Of a callback and a
  -- mobile exchange this says nothing.
  pub route_effects :
      (verify : String → Option JwtPayload) (d : Draws) (authorization : Option String)
      (route : Route) (a : Accounts)
      → Effect
          (bearer verify authorization)
          route
          a
          (serve azure users tokens sign verify d authorization route a).1
  unfolding serve jwt_can_activate
  route_effects verify d authorization (login c) a = run-Effect d none (login c) a
  route_effects verify d authorization (refresh_token t) a = run-Effect d none (refresh_token t) a
  route_effects verify d authorization (log_out t) a =
      serve-guarded verify d authorization (log_out t) a refl (λ _. refl)
  route_effects verify d authorization me a =
      serve-guarded verify d authorization me a refl (λ _. refl)
  route_effects verify d authorization (callback c s) a = tt
  route_effects verify d authorization (mobile_exchange c s) a = tt
  route_effects verify d authorization get_profile a =
      serve-guarded verify d authorization get_profile a refl (λ _. refl)
  route_effects verify d authorization (update_profile n) a =
      serve-guarded verify d authorization (update_profile n) a refl (λ p.
        elim p as (λ q. Effect q (update_profile n) a a) [
          | none ↦ refl
          | some _ ↦ (refl, λ _ _. refl)
        ])
