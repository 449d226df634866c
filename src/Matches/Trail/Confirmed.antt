-- ===== src/Matches/Trail/Confirmed.antt =====
-- No change of a confirmed result goes unlogged.
use mathlib.Core.Path.{subst}
use foosball_api.Prelude.{
  ℕ, ◌≤◌, ◌≡◌, ◌∙◌, refl, sym, ap, Bool, true, false, ◌&&◌, ◌==◌, some, List, [], ◌∷◌, any, count,
  inl, inr, arith, Bool-cases, if◌then◌else◌,
}
use foosball_api.Http.{Result, ok, err}
use foosball_api.Matches.Entity.{MatchRow, AuditLog, is_confirmed}
use foosball_api.Matches.Dto.{
  AdminOverrideResultDto, update_valid, submit_valid, add_players_valid, override_valid,
}
use foosball_api.Matches.Orm.{Tables, Orm, OrmLaws}
use foosball_api.Matches.World.{World}
use foosball_api.Matches.MatchService
use foosball_api.Matches.Confirmation
use foosball_api.Matches.AdminOverride
use foosball_api.Matches.AdminOverride.{AdminOverrideResult}
use foosball_api.Matches.AdminOverride.Atomic.{OverrideEnds, override_ends}
use foosball_api.Matches.Requests.{
  Caller, Request, create_match, update_match, delete_match, add_players, submit_result,
  confirm_result, cancel_confirmation, admin_override_result, admin_delete_match, handle, serve,
  is_admin_request,
}
use foosball_api.Matches.Invariant.Defs.{IsConsistent}
use foosball_api.Matches.Invariant.History.{handle-IsConsistent}
use foosball_api.Matches.Invariant.Immutable.{confirmed_is_immutable, override-refused, target}
use foosball_api.Matches.Lifecycle.Rows.{RowMoves, row_keyed}
use foosball_api.Matches.Lifecycle.Service.{
  Removal, create-row, delete-row, update-row, submit_result-row, add_players-row,
}
use foosball_api.Matches.Lifecycle.Votes.{confirm-row, cancel-row}
use foosball_api.Matches.Lifecycle.Override.{override_result-row, delete_match-row}
use foosball_api.Matches.Lifecycle.Voted.{is_removal}
use foosball_api.Matches.Trail.Entries.{counted-Closed, Accounted, Accounted-after, Accounted-grown}
use foosball_api.Matches.Trail.Requests.{handle-keeps}

kept_if :
    (i : ℕ) (valid : Bool) (w w' : World)
    → w'.db.find_row i ≡ w.db.find_row i
    → (if valid then w' else w).db.find_row i ≡ w.db.find_row i
kept_if i true w w' same = same
kept_if i false w w' same = refl

module _ {o : Orm} (laws : OrmLaws o) (i now : ℕ) (c : Caller) {r : MatchRow} (w : World)
    (found : w.db.find_row i ≡ some r) (done : is_confirmed r.status ≡ true)
    (h : IsConsistent w.db) where
  override-Accounted :
      (dto : AdminOverrideResultDto) (x : Result AdminOverrideResult × World)
      → OverrideEnds now i c.sub dto (λ _. true) r w x
      → Accounted i r w.db x.1.db
  override-Accounted dto (ok answer, w') (row, same, log, more, sent) =
      inr (_, row, done, omega (arith, more))
  override-Accounted dto (err e, w') (code, same, sent) =
      inl (ap (λ (d : Tables). d.find_row i) same ∙ found)

  abbrev Unchanged : Request → Type 0
  Unchanged q = (handle o now c q w).db.find_row i ≡ w.db.find_row i

  -- a request that is not an administrator's leaves a confirmed match alone
  immutable :
      (q : ℕ → Request) (k : ℕ)
      → target (q k) ≡ some k
      → is_admin_request (q k) && c.is_admin ≡ false
      → i ≡ k
      → Unchanged (q k)
  immutable q k about plain e =
      ap (λ (w' : World). w'.db.find_row i)
        (confirmed_is_immutable o now i c (q k) w found done (about ∙ ap some (sym e)) plain)

  plain-kept :
      {P : MatchRow → MatchRow → Type 0} (k : ℕ) (q : Request) (d : Tables)
      → RowMoves P k i w.db d
      → (i ≡ k → Unchanged q)
      → (d.find_row i ≡ w.db.find_row i → Unchanged q)
      → Unchanged q
  plain-kept k q d (inl same) own other = other same
  plain-kept k q d (inr moved) own other = own moved.0

  spared-kept :
      (k : ℕ) (q : Request) (d : Tables)
      → Removal c.is_admin k i w.db d
      → c.is_admin && k == i ≡ false
      → (d.find_row i ≡ w.db.find_row i → Unchanged q)
      → Unchanged q
  spared-kept k q d (inl same) spared kept = kept same
  spared-kept k q d (inr (admin, e, row, there, gone)) spared kept =
      absurd (ground (arith, admin, e, spared))

  override-step :
      (k : ℕ) (dto : AdminOverrideResultDto)
      → Accounted i r w.db (AdminOverride.override_result o now k c.sub c.is_admin dto w).1.db
  override-step k dto = elim (override_result-row laws k c.sub i c.is_admin w now dto h) [
    | inl same ↦ inl (same ∙ found)
    | inr moved ↦ elim (Bool-cases c.is_admin) [
      | inl admin ↦ rw admin (
          subst
            (λ j. Accounted i r w.db (AdminOverride.override_result o now j c.sub true dto w).1.db)
            moved.0
            (override-Accounted dto (AdminOverride.override_result o now i c.sub true dto w) (
              override_ends laws now i c.sub dto (λ _. true) r w found (row_keyed i h found) done)))
      | inr plain ↦
          let left_alone =
            subst (λ j. (AdminOverride.override_result o now j c.sub c.is_admin dto w).1 ≡ w)
              moved.0 (override-refused o now i c.sub w found done c.is_admin dto plain) in
          inl (ap (λ (w' : World). w'.db.find_row i) left_alone ∙ found)
    ]
  ]

  handle-Accounted :
      (q : Request) → is_removal i (now, c, q) ≡ false → Accounted i r w.db (handle o now c q w).db
  unfolding handle
  handle-Accounted (create_match dto) spared = elim (create-row laws i c.sub w dto) [
    | inl same ↦ inl (same ∙ found)
    | inr (r', absent, there, drafted) ↦ absurd (ground (arith, absent, found))
  ]
  handle-Accounted (update_match k dto) spared =
      let w' = (MatchService.update o k c.sub dto w).1 in
      inl (
        plain-kept k (update_match k dto) w'.db (update-row laws i c.sub w k h dto)
          (immutable (λ j. update_match j dto) k refl refl) (kept_if i (update_valid dto) w w')
        ∙ found)
  handle-Accounted (delete_match k) spared =
      let w' = (MatchService.delete o k c.sub c.is_admin w).1 in
      inl (
        spared-kept k (delete_match k) w'.db (delete-row laws i c.sub w k c.is_admin) spared
          (λ same. same)
        ∙ found)
  handle-Accounted (add_players k dto) spared =
      let w' = (MatchService.add_players o k c.sub dto w).1 in
      inl (
        plain-kept k (add_players k dto) w'.db (add_players-row laws i c.sub w k h dto)
          (immutable (λ j. add_players j dto) k refl refl) (kept_if i (add_players_valid dto) w w')
        ∙ found)
  handle-Accounted (submit_result k dto) spared =
      let w' = (MatchService.submit_result o now k c.sub dto w).1 in
      inl (
        plain-kept k (submit_result k dto) w'.db (submit_result-row laws i c.sub w k h now dto)
          (immutable (λ j. submit_result j dto) k refl refl) (kept_if i (submit_valid dto) w w')
        ∙ found)
  handle-Accounted (confirm_result k) spared = inl (
      plain-kept k (confirm_result k) (Confirmation.confirm o now k c.sub w).1.db
        (confirm-row laws now k c.sub i w h) (immutable confirm_result k refl refl) (λ same. same)
      ∙ found)
  handle-Accounted (cancel_confirmation k) spared = inl (
      plain-kept k (cancel_confirmation k) (Confirmation.cancel o now k c.sub w).1.db
        (cancel-row laws now k c.sub i w h) (immutable cancel_confirmation k refl refl)
        (λ same. same)
      ∙ found)
  handle-Accounted (admin_override_result k dto) spared = elim (Bool-cases (override_valid dto)) [
    | inl valid ↦ rw valid (override-step k dto)
    | inr refused ↦ rw refused (inl found)
  ]
  handle-Accounted (admin_delete_match k) spared =
      let w' = (AdminOverride.delete_match o k c.sub c.is_admin w).1 in
      inl (
        spared-kept k (admin_delete_match k) w'.db (delete_match-row laws k c.sub i c.is_admin w)
          spared (λ same. same)
        ∙ found)

-- whatever match and test: the audit rows that a history leaves are at least those of its start
serve-counted :
    {o : Orm} (laws : OrmLaws o) (j : ℕ) (p : AuditLog → Bool) (qs : List (ℕ × Caller × Request))
    (w : World)
    → count p (w.db.find_audit_logs j) ≤ count p ((serve o qs w).db.find_audit_logs j)
unfolding serve
serve-counted laws j p [] w = omega arith
serve-counted {o} laws j p ((now, c, q) ∷ qs) w =
    let start = count p (w.db.find_audit_logs j) in
    let more = handle-keeps laws (counted-Closed laws j p start) now c q w (omega arith) in
    omega (arith, more, serve-counted laws j p qs (handle o now c q w))

serve-Accounted :
    {o : Orm} (laws : OrmLaws o) (i : ℕ) (qs : List (ℕ × Caller × Request)) {r : MatchRow}
    (w : World)
    → IsConsistent w.db
    → w.db.find_row i ≡ some r
    → is_confirmed r.status ≡ true
    → any (is_removal i) qs ≡ false
    → Accounted i r w.db (serve o qs w).db
unfolding serve
serve-Accounted laws i [] w h found done spared = inl found
serve-Accounted {o} laws i ((now, c, q) ∷ qs) {r} w h found done spared =
    let w₁ = handle o now c q w in
    let h₁ = handle-IsConsistent laws now c q w h in
    let later : any (is_removal i) qs ≡ false = ground (arith, spared) in
    elim (handle-Accounted laws i now c w found done h q (ground (arith, spared))) [
      | inl same ↦
          Accounted-after i r w.db w₁.db (serve o qs w₁).db
            (serve-counted laws i (λ _. true) ((now, c, q) ∷ []) w)
            (serve-Accounted laws i qs w₁ h₁ same done later)
      | inr (r₁, there, still, longer) ↦
          Accounted-grown i r r₁ w.db w₁.db (serve o qs w₁).db still longer
            (serve-counted laws i (λ _. true) qs w₁)
            (serve-Accounted laws i qs w₁ h₁ there still later)
    ]

-- In every history of requests over a consistent database, whatever writes fail and whoever asks,
-- for a match that is confirmed at the start and that no administrator's request of the history
-- deletes: the match stays confirmed, and either its row is as it was or its audit log is longer;
-- and for this match and every other one, the number of audit rows that pass a test, whichever
-- test it is, does not fall.
pub confirmed_changes_are_logged :
    {o : Orm} (laws : OrmLaws o) (i j : ℕ) (p : AuditLog → Bool) (qs : List (ℕ × Caller × Request))
    {r : MatchRow} (w : World)
    → IsConsistent w.db
    → w.db.find_row i ≡ some r
    → is_confirmed r.status ≡ true
    → any (is_removal i) qs ≡ false
    → Accounted i r w.db (serve o qs w).db
      × (count p (w.db.find_audit_logs j) ≤ count p ((serve o qs w).db.find_audit_logs j))
confirmed_changes_are_logged laws i j p qs w h found done spared =
    (serve-Accounted laws i qs w h found done spared, serve-counted laws j p qs w)
