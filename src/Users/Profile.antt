-- ===== src/Users/Profile.antt =====
-- What signing in and renaming do to the users' table.
use text.Mathlib.Text.{◌==◌ as str_eq}
use text.Mathlib.TextPositions.{eq_refl}
use foosball_api.Prelude.{
  ℕ, ◌≤◌, ◌≡◌, ◌∙◌, ap, refl, true, false, ◌||◌, Option, none, some, String, ltb, ◌==◌, inl, inr,
  arith, Option-cases, Bool-cases, ◌⊎◌,
}
use foosball_api.Http.{Result, ok, err, error, validation_error, unprocessable}
use foosball_api.Auth.RefreshToken.{User}
use foosball_api.Users.{
  Users, UserStore, UserLaws, UpsertUserInput, signed_in, renamed, trim, utf16_length, upsert,
  update_display_name,
}

-- the admin flag and, where there is one, the id of the row that was there
abbrev pub SameAccount : Option User → User → Type 0
SameAccount none u = u.is_admin ≡ false
SameAccount (some x) u = (u.id ≡ x.id) × (u.is_admin ≡ x.is_admin)

upsert-inserts :
    (o : UserStore) (input : UpsertUserInput) (s : Users) {u : User} {s' : Users}
    → s.by_oid input.azure_oid ≡ none
    → upsert o input s ≡ (ok u, s')
    → o.insert input.azure_oid input.email input.display_name s ≡ some (u, s')
unfolding upsert
upsert-inserts o input s absent done =
    elim (Option-cases (o.insert input.azure_oid input.email input.display_name s)) [
      | inl failed ↦ ground arith
      | inr ((u', s''), made) ↦ ground arith
    ]

upsert-saves :
    (o : UserStore) (input : UpsertUserInput) (s : Users) {x u : User} {s' : Users}
    → s.by_oid input.azure_oid ≡ some x
    → upsert o input s ≡ (ok u, s')
    → (o.save (signed_in x input) s ≡ some s') × (u ≡ signed_in x input)
unfolding upsert
upsert-saves o input s {x} found done = elim (Option-cases (o.save (signed_in x input) s)) [
  | inl failed ↦ ground arith
  | inr (s'', saved) ↦ ground arith
]

-- A successful sign-in stores the profile that Azure gave under its oid, and answers with it. It
-- never changes who is an administrator: a user who was there keeps id and flag, a new one is
-- none. The rows of all other oids are as they were.
pub upsert_keeps_account :
    {o : UserStore} (laws : UserLaws o) (input : UpsertUserInput) (s : Users) {u : User}
    {s' : Users}
    → ((x : User) → s.by_oid input.azure_oid ≡ some x → x.azure_oid ≡ input.azure_oid)
    → upsert o input s ≡ (ok u, s')
    → (s'.by_oid input.azure_oid ≡ some u)
      × (u.azure_oid ≡ input.azure_oid)
      × (u.email ≡ input.email)
      × (u.display_name ≡ input.display_name)
      × SameAccount (s.by_oid input.azure_oid) u
      × ((h : String) → str_eq input.azure_oid h ≡ false → s'.by_oid h ≡ s.by_oid h)
upsert_keeps_account {o} laws input s {u} {s'} own done =
    elim (Option-cases (s.by_oid input.azure_oid)) [
      | inl absent ↦
          let made = upsert-inserts o input s absent done in
          let i = laws.insert input.azure_oid input.email input.display_name u s s' made in
          (
            rw (eq_refl input.azure_oid) at (i.by_oid input.azure_oid),
            ap (λ (x : User). x.azure_oid) i.columns,
            ap (λ (x : User). x.email) i.columns,
            ap (λ (x : User). x.display_name) i.columns,
            rw absent (ap (λ (x : User). x.is_admin) i.columns),
            λ h other. rw other at (i.by_oid h),
          )
      | inr (x, found) ↦
          let (saved, answer) = upsert-saves o input s found done in
          let keyed = own x found in
          let at_own : s.by_oid x.azure_oid ≡ some x = ap (λ h. s.by_oid h) keyed ∙ found in
          let effect = (laws.save (signed_in x input) x s s' at_own refl saved).1 in
          let hit : str_eq x.azure_oid input.azure_oid ≡ true =
            rw keyed (eq_refl input.azure_oid) in
          (
            (rw hit at (effect input.azure_oid)) ∙ rw answer refl,
            rw answer keyed,
            rw answer refl,
            rw answer refl,
            rw found (rw answer (refl, refl)),
            λ h other.
                let elsewhere : str_eq x.azure_oid h ≡ false = rw keyed other in
                rw elsewhere at (effect h),
          )
    ]

-- the ways in which a renaming ends, by the name that it would store
abbrev pub Renamed : ℕ → String → Users → Result User × Users → Type 0
Renamed id name s (ok u, s') =
    (1 ≤ utf16_length name)
    × (utf16_length name ≤ 255)
    × (some u ≡ renamed name (s.by_id id))
    × ((i : ℕ) → (i == id) ≡ false → s'.by_id i ≡ s.by_id i)
Renamed id name s (err e, s') =
    ((e ≡ unprocessable validation_error)
      × ((utf16_length name ≡ 0) ⊎ (256 ≤ utf16_length name))
      × (s' ≡ s))
    ⊎ ((e ≡ error)
        × (1 ≤ utf16_length name)
        × (utf16_length name ≤ 255)
        × ((s' ≡ s) ⊎ (s.by_id id ≡ none)))

-- the table after the write, and the answer that is read from it
pub update_display_name-writes :
    (o : UserStore) (id : ℕ) (display_name : String) (s : Users)
    → (1 ≤ utf16_length (trim display_name))
    → (utf16_length (trim display_name) ≤ 255)
    → ((o.update_name id (trim display_name) s ≡ none)
        × (update_display_name o id display_name s ≡ (err error, s)))
      ⊎ ((s' : Users) × (o.update_name id (trim display_name) s ≡ some s')
          × (((s'.by_id id ≡ none) × (update_display_name o id display_name s ≡ (err error, s')))
              ⊎ ((u : User) × (s'.by_id id ≡ some u)
                  × (update_display_name o id display_name s ≡ (ok u, s')))))
unfolding update_display_name
update_display_name-writes o id display_name s low high =
    elim (Option-cases (o.update_name id (trim display_name) s)) [
      | inl failed ↦ inl (failed, ground arith)
      | inr (s', done) ↦ elim (Option-cases (s'.by_id id)) [
        | inl gone ↦ inr (s', done, inl (gone, ground arith))
        | inr (u, there) ↦ inr (s', done, inr (u, there, ground arith))
      ]
    ]

pub update_display_name-refuses :
    (o : UserStore) (id : ℕ) (display_name : String) (s : Users)
    → ltb (utf16_length (trim display_name)) 1 || ltb 255 (utf16_length (trim display_name)) ≡ true
    → update_display_name o id display_name s ≡ (err (unprocessable validation_error), s)
unfolding update_display_name
update_display_name-refuses o id display_name s refused = ground arith

-- A renaming answers 422, with the table as it was, if the trimmed name is empty or longer than 255
-- UTF-16 units, and only then. Otherwise it fails without a status, with the table as it was or for
-- a user that is not there; or it returns the user with the trimmed name, otherwise as before, and
-- the rows of all other ids are as they were.
pub update_display_name_ends :
    {o : UserStore} (laws : UserLaws o) (id : ℕ) (display_name : String) (s : Users)
    → Renamed id (trim display_name) s (update_display_name o id display_name s)
update_display_name_ends {o} laws id display_name s =
    let size = utf16_length (trim display_name) in
    elim (Bool-cases (ltb size 1 || ltb 255 size)) [
      | inl refused ↦
          rw (update_display_name-refuses o id display_name s refused)
            (inl (refl, ground arith, refl))
      | inr fits ↦
          elim (update_display_name-writes o id display_name s (ground arith) (ground arith)) [
            | inl (failed, ends) ↦ rw ends (inr (refl, ground arith, ground arith, inl refl))
            | inr (s', done, inl (gone, ends)) ↦ rw ends (
                inr (
                  refl,
                  ground arith,
                  ground arith,
                  inr (ground (arith, gone, laws.update_name id (trim display_name) s s' done id)),
                ))
            | inr (s', done, inr (u, there, ends)) ↦
                let effect = laws.update_name id (trim display_name) s s' done in
                rw ends (
                  ground arith,
                  ground arith,
                  ground (arith, effect id, there),
                  λ i other. rw other at (effect i),
                )
          ]
    ]
