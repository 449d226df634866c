-- ===== src/Matches/Invariant/History.antt =====
-- Every history of requests keeps the invariant.
use foosball_api.Prelude.{ℕ, ◌≡◌, refl, Bool, true, false, List, [], ◌∷◌, if◌then◌else◌}
use foosball_api.Matches.Orm.{Orm, OrmLaws}
use foosball_api.Matches.World.{World}
use foosball_api.Matches.Requests.{
  Caller, Request, create_match, update_match, delete_match, add_players, submit_result,
  confirm_result, cancel_confirmation, admin_override_result, admin_delete_match, handle, serve,
}
use foosball_api.Matches.Invariant.Defs.{IsConsistent}
use foosball_api.Matches.Invariant.Service
use foosball_api.Matches.Invariant.Votes.{confirm-IsConsistent}
use foosball_api.Matches.Invariant.Cancel.{cancel-IsConsistent}
use foosball_api.Matches.Invariant.Override.{
  override_result-IsConsistent, delete_match-IsConsistent,
}

-- a request whose body is refused leaves the world alone
validated :
    (valid : Bool) (w w' : World)
    → IsConsistent w.db
    → (valid ≡ true → IsConsistent w'.db)
    → IsConsistent (if valid then w' else w).db
validated true w w' h next = next refl
validated false w w' h next = h

module _ {o : Orm} (laws : OrmLaws o) where
  pub handle-IsConsistent :
      (now : ℕ) (c : Caller) (q : Request) (w : World)
      → IsConsistent w.db
      → IsConsistent (handle o now c q w).db
  unfolding handle
  handle-IsConsistent now c (create_match dto) w h = Service.create-IsConsistent laws c.sub dto w h
  handle-IsConsistent now c (update_match m dto) w h =
      validated _ w _ h λ v. Service.update-IsConsistent laws m c.sub dto w v h
  handle-IsConsistent now c (delete_match m) w h =
      Service.delete-IsConsistent laws m c.sub c.is_admin w h
  handle-IsConsistent now c (add_players m dto) w h =
      validated _ w _ h λ _. Service.add_players-IsConsistent laws m c.sub dto w h
  handle-IsConsistent now c (submit_result m dto) w h =
      validated _ w _ h λ v. Service.submit_result-IsConsistent laws now m c.sub dto w v h
  handle-IsConsistent now c (confirm_result m) w h = confirm-IsConsistent laws now m c.sub w h
  handle-IsConsistent now c (cancel_confirmation m) w h = cancel-IsConsistent laws now m c.sub w h
  handle-IsConsistent now c (admin_override_result m dto) w h =
      validated _ w _ h λ v. override_result-IsConsistent laws now m c.sub dto c.is_admin w v h
  handle-IsConsistent now c (admin_delete_match m) w h =
      delete_match-IsConsistent laws m c.sub c.is_admin w h

  -- Whatever requests run one after the other, with writes, commits and publications that may
  -- fail at any point, a consistent database stays consistent for every match and user: scores are
  -- at most 255, a match under confirmation or confirmed has both scores, any other has no
  -- confirmations, a confirmed one is stamped and locked at one time and holds confirmations of a
  -- quorum of its players, and no user confirms a match twice.
  pub serve-IsConsistent :
      (qs : List (ℕ × Caller × Request)) (w : World)
      → IsConsistent w.db
      → IsConsistent (serve o qs w).db
  unfolding serve
  serve-IsConsistent [] w h = h
  serve-IsConsistent ((now, c, q) ∷ qs) w h =
      serve-IsConsistent qs (handle o now c q w) (handle-IsConsistent now c q w h)
