-- ===== src/Matches/Trail/Requests.antt =====
-- What every successful write of the database keeps, every request keeps.
use mathlib.Core.Path.{subst}
use foosball_api.Prelude.{
  some_eq, ℕ, ◌≡◌, refl, sym, Bool, true, false, not, ◌&&◌, none, some, List, inl, inr,
  Option-cases, Bool-cases, length, leb, if◌then◌else◌,
}
use foosball_api.Action.{bind-ok, bind-err}
use foosball_api.Matches.Entity.{MatchRow, MatchPlayer, AuditLog, is_awaiting, is_confirmed}
use foosball_api.Matches.Dto.{
  AdminOverrideResultDto, update_valid, submit_valid, add_players_valid, override_valid,
}
use foosball_api.Matches.Orm.{Tables, Orm, OrmLaws}
use foosball_api.Matches.World.{World}
use foosball_api.Matches.MatchService
use foosball_api.Matches.MatchService.{is_creator, match_capacity, to_player}
use foosball_api.Matches.Confirmation
use foosball_api.Matches.Confirmation.{
  pre_check, cast_vote, locked_vote, confirm_row, calculate_quorum, cancel_check, cancel_writes,
}
use foosball_api.Matches.AdminOverride
use foosball_api.Matches.AdminOverride.{override_log, delete_log, override_writes}
use foosball_api.Matches.Requests.{
  Caller, Request, create_match, update_match, delete_match, add_players, submit_result,
  confirm_result, cancel_confirmation, admin_override_result, admin_delete_match, handle,
}
use foosball_api.Matches.Invariant.Outcomes.{guarded_write, guarded_written, written}
use foosball_api.Matches.Invariant.Votes.{
  transaction-db, pre_check-cases, bind-db, after_vote, cast_vote-db, answer_vote, answer_vote-db,
  vote_and_answer,
}
use foosball_api.Matches.Invariant.Cancel.{
  cancel_check-cases, loaded, back_to_playing, cancel_writes-db,
}
use foosball_api.Matches.Invariant.Override.{
  rescored, override_writes-db, override_result-db, override_result-absent, delete_match-db,
  delete_match-absent,
}
use foosball_api.Matches.Trail.Writes.{
  Closed, create-keeps, delete-keeps, update-keeps, submit_result-keeps, add_players-keeps,
}

module _ {o : Orm} (laws : OrmLaws o) {P : Tables → Type 0} (closed : Closed o P) (now m user : ℕ)
    (w : World) (h : P w.db) where
  after_vote-keeps :
      (r : MatchRow) (players : ℕ) (d : Tables) → P d → P (after_vote o now m r players d)
  after_vote-keeps r players d k =
      elim (Bool-cases (leb (calculate_quorum players) (length (d.find_confirmations m)))) [
        | inr short ↦ rw short k
        | inl reached ↦ rw reached (
            guarded_written P false (o.save_match (confirm_row now r) none d) d k
              λ _ d' saved. closed.save (confirm_row now r) none d d' saved k)
      ]

  cast_vote-keeps :
      (players : List MatchPlayer) (r : MatchRow) → P (cast_vote o now m user players r w).1.db
  cast_vote-keeps players r =
      rw (cast_vote-db laws now m user players r w)
        (elim (Option-cases (w.db.find_confirmation m user)) [
          | inr (c, old) ↦ rw old (after_vote-keeps r (length players) w.db h)
          | inl new ↦ rw new (
              guarded_write P false (o.save_confirmation m user now w.db) w.db
                (after_vote o now m r (length players)) h
                λ _ d saved.
                  after_vote-keeps r (length players) d
                    (closed.save_confirmation m user now w.db d saved h))
        ])

  locked_vote-keeps : (players : List MatchPlayer) → P (locked_vote o now m user players w).1.db
  unfolding locked_vote
  locked_vote-keeps players = elim (Option-cases (w.db.find_row m)) [
    | inl absent ↦ rw (absent, locked_vote) h
    | inr (r, found) ↦
        rw (found, locked_vote)
          (elim (Bool-cases (is_awaiting r.status)) [
            | inr other ↦ rw other h
            | inl awaiting ↦ rw awaiting (
                transaction-db P (cast_vote o now m user players r) w h (cast_vote-keeps players r))
          ])
  ]

  pub confirm-keeps : P (Confirmation.confirm o now m user w).1.db
  unfolding Confirmation.confirm answer_vote vote_and_answer
  confirm-keeps = elim (pre_check-cases m user w) [
    | inl (e, refused) ↦
        let same = bind-err (pre_check m user) (vote_and_answer laws now m user) w refused in
        subst (λ x. P x.1.db) (sym same) h
    | inr passed ↦
        let players = w.db.find_players m in
        let same = bind-ok (pre_check m user) (vote_and_answer laws now m user) w passed in
        subst (λ x. P x.1.db) (sym same)
          (subst P
            (sym (
              bind-db (locked_vote o now m user players) (answer_vote laws now m user) w
                (answer_vote-db laws now m user)))
            (locked_vote-keeps players))
  ]

  cancel_writes-keeps : (r : MatchRow) → P (cancel_writes o now m user (loaded r m w) w).1.db
  cancel_writes-keeps r = rw (cancel_writes-db laws now m user r w) (
      guarded_write P false (o.delete_confirmations m w.db) w.db
        (λ d. written (o.save_match (back_to_playing r) (some (w.db.find_players m)) d) d) h
        λ _ d deleted.
          let k = closed.delete_confirmations m w.db d deleted h in
          guarded_written P false (o.save_match (back_to_playing r) (some (w.db.find_players m)) d)
            d k
            λ _ d' saved. closed.save (back_to_playing r) (some (w.db.find_players m)) d d' saved k)

  pub cancel-keeps : P (Confirmation.cancel o now m user w).1.db
  unfolding Confirmation.cancel
  cancel-keeps = elim (cancel_check-cases m user w) [
    | inl (e, refused) ↦
        let same = bind-err (cancel_check m user) (cancel_writes o now m user) w refused in
        subst (λ x. P x.1.db) (sym same) h
    | inr (r, found, awaiting, creator, passed) ↦
        let same = bind-ok (cancel_check m user) (cancel_writes o now m user) w passed in
        subst (λ x. P x.1.db) (sym same) (cancel_writes-keeps r)
  ]

  override_writes-keeps :
      (dto : AdminOverrideResultDto) (r : MatchRow)
      → P (override_writes o now m user (loaded r m w) dto w).1.db
  override_writes-keeps dto r = rw (override_writes-db laws now m user dto r w) (
      guarded_write P false (o.save_match (rescored r dto) (some (w.db.find_players m)) w.db) w.db
        (λ d. written (o.save_audit_log (override_log m user (loaded r m w) dto) d) d) h
        λ _ d saved.
          let k = closed.save (rescored r dto) (some (w.db.find_players m)) w.db d saved h in
          guarded_written P false (o.save_audit_log (override_log m user (loaded r m w) dto) d) d k
            λ _ d' logged.
              closed.save_audit_log (override_log m user (loaded r m w) dto) d d' refl logged k)

  pub override_result-keeps :
      (is_admin : Bool) (dto : AdminOverrideResultDto)
      → P (AdminOverride.override_result o now m user is_admin dto w).1.db
  override_result-keeps is_admin dto = elim (Option-cases (w.db.find_row m)) [
    | inl absent ↦ rw (override_result-absent laws now m user dto is_admin w absent) h
    | inr (r, found) ↦
        rw (override_result-db laws now m user dto is_admin r w found)
          (elim (Bool-cases (is_admin && is_confirmed r.status)) [
            | inl allowed ↦ rw allowed (
                transaction-db P (override_writes o now m user (loaded r m w) dto) w h
                  (override_writes-keeps dto r))
            | inr refused ↦ rw refused h
          ])
  ]

  logged-keeps :
      (logs : Bool) (l : AuditLog) (d : Tables)
      → l.entity_type ≡ "match"
      → (if logs then o.save_audit_log l w.db else some w.db) ≡ some d
      → P d
  logged-keeps true l d match e = closed.save_audit_log l w.db d match e h
  logged-keeps false l d match e = subst P (some_eq e) h

  pub delete_match-keeps :
      (is_admin : Bool) → P (AdminOverride.delete_match o m user is_admin w).1.db
  delete_match-keeps is_admin = elim (Option-cases (w.db.find_row m)) [
    | inl absent ↦ rw (delete_match-absent laws m user is_admin w absent) h
    | inr (r, found) ↦ rw (delete_match-db laws m user is_admin r w found) (
        guarded_write P (not is_admin)
          (if is_confirmed r.status
            then o.save_audit_log (delete_log m user (loaded r m w)) w.db
            else some w.db)
          w.db (λ d. written (o.delete_match m d) d) h
          λ _ d logged.
            let k =
              logged-keeps (is_confirmed r.status) (delete_log m user (loaded r m w)) d refl
                logged in
            guarded_written P false (o.delete_match m d) d k
              λ _ d' gone. closed.delete m d d' gone k)
  ]

validated :
    (P : Tables → Type 0) (valid : Bool) (w w' : World)
    → P w.db
    → P w'.db
    → P (if valid then w' else w).db
validated P true w w' h k = k
validated P false w w' h k = h

pub handle-keeps :
    {o : Orm} (laws : OrmLaws o) {P : Tables → Type 0} (closed : Closed o P) (now : ℕ) (c : Caller)
    (q : Request) (w : World)
    → P w.db
    → P (handle o now c q w).db
unfolding handle
handle-keeps {o} laws {P} closed now c (create_match dto) w h =
    create-keeps laws closed c.sub c.sub w h dto
handle-keeps {o} laws {P} closed now c (update_match m dto) w h =
    validated P (update_valid dto) w (MatchService.update o m c.sub dto w).1 h
      (update-keeps laws closed m c.sub w h dto)
handle-keeps {o} laws {P} closed now c (delete_match m) w h =
    delete-keeps laws closed m c.sub w h c.is_admin
handle-keeps {o} laws {P} closed now c (add_players m dto) w h =
    validated P (add_players_valid dto) w (MatchService.add_players o m c.sub dto w).1 h
      (add_players-keeps laws closed m c.sub w h dto)
handle-keeps {o} laws {P} closed now c (submit_result m dto) w h =
    validated P (submit_valid dto) w (MatchService.submit_result o now m c.sub dto w).1 h
      (submit_result-keeps laws closed m c.sub w h now dto)
handle-keeps {o} laws {P} closed now c (confirm_result m) w h =
    confirm-keeps laws closed now m c.sub w h
handle-keeps {o} laws {P} closed now c (cancel_confirmation m) w h =
    cancel-keeps laws closed now m c.sub w h
handle-keeps {o} laws {P} closed now c (admin_override_result m dto) w h =
    validated P (override_valid dto) w
      (AdminOverride.override_result o now m c.sub c.is_admin dto w).1 h
      (override_result-keeps laws closed now m c.sub w h c.is_admin dto)
handle-keeps {o} laws {P} closed now c (admin_delete_match m) w h =
    delete_match-keeps laws closed now m c.sub w h c.is_admin
