-- ===== src/Matches/Api/Reads/Voted.antt =====
-- A vote on a result over HTTP, and the status of the confirmations that is read after it.
use mathlib.Core.Path.{subst}
use foosball_api.Prelude.{
  ◌≡◌, ◌∙◌, ℕ, true, none, Option, some, String, List, inl, inr, arith, Bool-cases, if◌then◌else◌,
}
use foosball_api.Http.{match_not_awaiting_confirmation, Result, ok}
use foosball_api.Auth.RefreshToken.{JwtPayload}
use foosball_api.Auth.Guards.{roles_can_activate}
use foosball_api.Auth.App.Guarded.{bearer}
use foosball_api.Matches.Entity.{MatchRow, is_awaiting}
use foosball_api.Matches.Orm.{Orm, OrmLaws}
use foosball_api.Matches.Pagination.{ListedMatch, CursorCodec}
use foosball_api.Matches.World.{World}
use foosball_api.Matches.Confirmation.{ConfirmationStatusResult, is_player, confirm, get_status}
use foosball_api.Matches.Confirmation.Voting.{IsUp, Voted, confirm-Voted}
use foosball_api.Matches.Confirmation.Ends.{ConfirmEnds, confirm_ends}
use foosball_api.Matches.Api.Replies.{Reply, code, confirmations, failure, catch}
use foosball_api.Matches.Api.Reads.{confirmation_status, run_read, read}
use foosball_api.Matches.Api.Reads.Exactly.{read-bearer}

-- the reply that a vote's answer is read back as
abbrev pub after_vote : ConfirmationStatusResult → Reply
after_vote answer =
    if answer.quorum_reached
    then record { status = 409; content = failure (code match_not_awaiting_confirmation) }
    else record { status = 200; content = confirmations answer }

module _ (codec : CursorCodec) (table : List ListedMatch) (now m : ℕ) (r : MatchRow)
    (user : Option JwtPayload) where
  status-run :
      (w w' : World) (answer : ConfirmationStatusResult)
      → w'.db.find_players m ≡ w.db.find_players m
      → is_awaiting r.status ≡ true
      → ConfirmEnds now m r w (ok answer, w')
      → run_read codec table w' (confirmation_status m) user ≡ after_vote answer
  unfolding catch run_read get_status
  status-run w w' answer same awaiting (stored, row, sent) =
      elim (Bool-cases answer.quorum_reached) [
        | inl reached ↦ ground (arith, reached, row)
        | inr short ↦ ground (arith, short, row, stored, same)
      ]

-- While the database is up: after the successful vote of a player without a confirmation on a
-- match that awaits it and stands under its id, any user who reads the status of the match's
-- confirmations gets what the vote answered, or 409 MATCH_NOT_AWAITING_CONFIRMATION if that was a
-- quorum.
pub vote_is_readable :
    {o : Orm} (laws : OrmLaws o) (up : IsUp o) (codec : CursorCodec) (table : List ListedMatch)
    (verify : String → Option JwtPayload) (authorization : Option String) {p : JwtPayload}
    (now m user : ℕ) (r : MatchRow) (w : World) {w' : World} {answer : ConfirmationStatusResult}
    → w.db.find_row m ≡ some r
    → r.id ≡ m
    → is_awaiting r.status ≡ true
    → is_player user (w.db.find_players m) ≡ true
    → w.db.find_confirmation m user ≡ none
    → confirm o now m user w ≡ (ok answer, w')
    → bearer verify authorization ≡ some p
    → read codec table w' verify authorization (confirmation_status m) ≡ after_vote answer
unfolding roles_can_activate
vote_is_readable {o} laws up codec table verify authorization {p} now m user r w {w'} {answer} found
      keyed awaiting player new voted known =
    let ends =
      subst (ConfirmEnds now m r w) voted
        (confirm_ends laws now m user r w found keyed awaiting player) in
    let v =
      subst (λ (x : Result ConfirmationStatusResult × World). Voted m user now r w.db x.1.db) voted
        (confirm-Voted laws up now m user r w found keyed awaiting player new) in
    read-bearer codec table w' verify authorization (confirmation_status m) known
    ∙ status-run codec table now m r (some p) w w' answer v.players awaiting ends
