-- ===== src/Matches/Api/Reads/Exactly.antt =====
-- Which requests to read the API answers.
use foosball_api.Prelude.{
  ◌≡◌, ◌↔◌, ℕ, refl, ap, true, false, Option, none, some, String, List, inl, inr, arith,
  Option-cases, Bool-cases,
}
use foosball_api.Auth.RefreshToken.{JwtPayload}
use foosball_api.Auth.Guards.{can_activate, roles_can_activate, verified, and_then}
use foosball_api.Auth.App.Guarded.{bearer, guard_of}
use foosball_api.Matches.Entity.{MatchRow, is_awaiting}
use foosball_api.Matches.Pagination.{
  ListedMatch, ListMatchesDto, CursorCodec, CursorData, decoded, list_matches,
}
use foosball_api.Matches.World.{World}
use foosball_api.Matches.MatchService.{find_by_id}
use foosball_api.Matches.Confirmation.{get_status}
use foosball_api.Matches.AdminOverride.{get_audit_log}
use foosball_api.Matches.Api.Reads.{
  ReadRoute, match_list, match_detail, confirmation_status, match_audit_log, list_valid, read_roles,
  run_read, guarded, read,
}
use foosball_api.Matches.Api.Replies.{catch}

-- what a user needs for an answer
abbrev pub Readable : CursorCodec → World → ReadRoute → JwtPayload → Type 0
Readable codec w (match_list dto) p =
    (list_valid dto ≡ true) × (c : Option CursorData) × (decoded codec dto.cursor ≡ some c)
Readable codec w (match_detail m) p = (r : MatchRow) × (w.db.find_row m ≡ some r)
Readable codec w (confirmation_status m) p =
    (r : MatchRow) × (w.db.find_row m ≡ some r) × (is_awaiting r.status ≡ true)
Readable codec w (match_audit_log m) p =
    (p.is_admin ≡ true) × (r : MatchRow) × (w.db.find_row m ≡ some r)

module _ (codec : CursorCodec) (table : List ListedMatch) (w : World) (p : JwtPayload) where
  list-run :
      (dto : ListMatchesDto)
      → ((run_read codec table w (match_list dto) (some p)).status ≡ 200)
        ↔ Readable codec w (match_list dto) p
  unfolding catch run_read list_matches
  list-run dto = elim (Bool-cases (list_valid dto)) [
    | inr refused ↦ (λ done. absurd (ground (arith, done, refused)), λ h. ground (arith, h))
    | inl valid ↦ elim (Option-cases (decoded codec dto.cursor)) [
      | inl bad ↦ (λ done. absurd (ground (arith, done, valid, bad)), λ h. ground (arith, h))
      | inr (c, good) ↦ (λ done. (valid, c, good), λ h. ground (arith, valid, good))
    ]
  ]

  detail-run :
      (m : ℕ)
      → ((run_read codec table w (match_detail m) (some p)).status ≡ 200)
        ↔ Readable codec w (match_detail m) p
  unfolding catch run_read find_by_id
  detail-run m = elim (Option-cases (w.db.find_row m)) [
    | inl missing ↦ (λ done. absurd (ground (arith, done, missing)), λ h. ground (arith, h))
    | inr (r, found) ↦ (λ done. (r, found), λ h. ground (arith, found))
  ]

  status-run :
      (m : ℕ)
      → ((run_read codec table w (confirmation_status m) (some p)).status ≡ 200)
        ↔ Readable codec w (confirmation_status m) p
  unfolding catch run_read get_status
  status-run m = elim (Option-cases (w.db.find_row m)) [
    | inl missing ↦ (λ done. absurd (ground (arith, done, missing)), λ h. ground (arith, h))
    | inr (r, found) ↦ elim (Bool-cases (is_awaiting r.status)) [
      | inl awaiting ↦ (λ done. (r, found, awaiting), λ h. ground (arith, found, awaiting))
      | inr late ↦
          (λ done. absurd (ground (arith, done, found, late)), λ h. ground (arith, h, found, late))
    ]
  ]

  audit-run :
      (m : ℕ)
      → p.is_admin ≡ true
      → ((run_read codec table w (match_audit_log m) (some p)).status ≡ 200)
        ↔ Readable codec w (match_audit_log m) p
  unfolding catch run_read get_audit_log
  audit-run m admin = elim (Option-cases (w.db.find_row m)) [
    | inl missing ↦ (λ done. absurd (ground (arith, done, admin, missing)), λ h. ground (arith, h))
    | inr (r, found) ↦ (λ done. (admin, r, found), λ h. ground (arith, admin, found))
  ]

module _ (codec : CursorCodec) (table : List ListedMatch) (w : World)
    (verify : String → Option JwtPayload) (authorization : Option String) where
  -- the reply, by the token that the request bears
  pub read-bearer :
      (q : ReadRoute) {user : Option JwtPayload}
      → bearer verify authorization ≡ user
      → read codec table w verify authorization q
        ≡ guarded codec table w q (
            and_then
              (verified (record { authorization = authorization; user = none }) user)
              (roles_can_activate (read_roles q)))
  unfolding read can_activate
  read-bearer q known =
      ap (λ r. guarded codec table w q (and_then r (roles_can_activate (read_roles q))))
        (guard_of verify authorization refl known)

  stranger :
      (q : ReadRoute)
      → bearer verify authorization ≡ none
      → (read codec table w verify authorization q).status ≡ 401
  unfolding catch
  stranger q known = ap (λ r. r.status) (read-bearer q known)

  as_admin :
      (m : ℕ) {p : JwtPayload}
      → bearer verify authorization ≡ some p
      → p.is_admin ≡ true
      → read codec table w verify authorization (match_audit_log m)
        ≡ run_read codec table w (match_audit_log m) (some p)
  unfolding roles_can_activate
  as_admin m known admin = ground (arith, read-bearer (match_audit_log m) known, admin)

  no_admin :
      (m : ℕ) {p : JwtPayload}
      → bearer verify authorization ≡ some p
      → p.is_admin ≡ false
      → (read codec table w verify authorization (match_audit_log m)).status ≡ 403
  unfolding catch roles_can_activate
  no_admin m known plain = ground (arith, read-bearer (match_audit_log m) known, plain)

  -- the reply to a user
  as_user :
      (q : ReadRoute) {p : JwtPayload}
      → bearer verify authorization ≡ some p
      → ((read codec table w verify authorization q).status ≡ 200) ↔ Readable codec w q p
  unfolding catch roles_can_activate
  as_user (match_list dto) {p} known =
      rw (read-bearer (match_list dto) known) (list-run codec table w p dto)
  as_user (match_detail m) {p} known =
      rw (read-bearer (match_detail m) known) (detail-run codec table w p m)
  as_user (confirmation_status m) {p} known =
      rw (read-bearer (confirmation_status m) known) (status-run codec table w p m)
  as_user (match_audit_log m) {p} known = elim (Bool-cases p.is_admin) [
    | inl admin ↦ rw (as_admin m known admin) (audit-run codec table w p m admin)
    | inr plain ↦ (
      λ done. absurd (ground (arith, done, no_admin m known plain)),
      λ h. ground (arith, h, plain),
    )
  ]

  -- A request to read matches is answered with 200 exactly if its header begins with `Bearer `, the
  -- rest verifies, and: the list's query is valid and its cursor, if any, parses; the match exists;
  -- for the status of its confirmations it also awaits them; for its audit log the payload also has
  -- the admin flag.
  pub read_exactly :
      (q : ReadRoute)
      → ((read codec table w verify authorization q).status ≡ 200)
        ↔ ((p : JwtPayload) × (bearer verify authorization ≡ some p) × Readable codec w q p)
  read_exactly q = elim (Option-cases (bearer verify authorization)) [
    | inl none_there ↦ (
      λ done. absurd (ground (arith, done, stranger q none_there)),
      λ h. ground (arith, h, none_there),
    )
    | inr (p, known) ↦ (
      λ done. (p, known, (as_user q known).0 done),
      λ (p', known', can). (as_user q known').1 can,
    )
  ]
