-- ===== src/Approval/Finality.antt =====
-- A second decision on the same request: after the first, and in a race with it.
use agency_os.Prelude.{
  ℕ, String, ◌≡◌, refl, sym, ◌∙◌, ap, Bool, true, false, Option, none, some, ltb, Bool-cases,
  Option-cases, inl, inr, ==_refl,
}
use mathlib.Core.Option
use mathlib.Core.Path.{subst}
use agency_os.Db.Rows.{update_row}
use agency_os.Db.Session.{Result, ok, err}
use agency_os.Approval.Requests.{
  ApprovalRequest, Approvals, is_pending, find_row, get_or_404, update_where, expire_values,
}
use agency_os.Approval.Service.{
  decision, decision_values, written_values, has_id, not_pending, decide, decide_pending,
  record_decision, add_log,
}
use agency_os.Approval.Deciding.{
  alone, refusal, Answered, decide-Decides, find_row-is_row, find_row-update_rows,
}

abbrev IsSettled : ℕ → ℕ → Approvals → Type 0
IsSettled o i s =
    (q : ApprovalRequest) × (find_row o i s.requests ≡ some q) × (is_pending q.status ≡ false)

settled_refused :
    (others : Approvals → Approvals) (now at o actor i : ℕ) (approve : Bool)
    (remark : Option String) (s : Approvals)
    → IsSettled o i s
    → decide others now at o actor i approve remark s ≡ (err (refusal not_pending), s)
unfolding decide get_or_404
settled_refused others now at o actor i approve remark s (q, f, p) = rw (f, p) refl

module _ (now at o actor i : ℕ) (approve : Bool) (remark : Option String) (s : Approvals)
    (q : ApprovalRequest) (found : find_row o i s.requests ≡ some q) where
  Answered-IsSettled :
      (p late : Bool) (r : Result ApprovalRequest) (s' : Approvals)
      → is_pending q.status ≡ p
      → Answered now at o actor i approve remark s q p late r s'
      → IsSettled o i s'
  Answered-IsSettled false late r s' p (e, same) = subst (IsSettled o i) (sym same) (q, found, p)
  Answered-IsSettled true true r s' p (e, f, l, d, apart) = (expire_values now q, f, refl)
  Answered-IsSettled true false r s' p (e, f, l, d, apart) = elim (Bool-cases approve) [
    | inl yea ↦ (decision_values approve actor at remark q, f, rw yea refl)
    | inr nay ↦ (decision_values approve actor at remark q, f, rw nay refl)
  ]

  first_settles : IsSettled o i (decide alone now at o actor i approve remark s).1
  first_settles =
      let d = decide-Decides now at o actor i approve remark s in
      let d' : Answered now at o actor i approve remark s q (is_pending q.status)
          (ltb q.expires_at now) (decide alone now at o actor i approve remark s).0
          (decide alone now at o actor i approve remark s).1 =
        rw found at d in
      Answered-IsSettled (is_pending q.status) (ltb q.expires_at now) _ _ refl d'

  -- After a decision on a request, whether it was recorded or refused, every further decision on the
  -- request, by whoever and whatever others do meanwhile, raises 409 `approval.not_pending` and
  -- changes nothing.
  pub decided_once :
      (others : Approvals → Approvals) (now' at' actor' : ℕ) (approve' : Bool)
      (remark' : Option String)
      → let s' = (decide alone now at o actor i approve remark s).1 in
        decide others now' at' o actor' i approve' remark' s' ≡ (err (refusal not_pending), s')
  decided_once others now' at' actor' approve' remark' =
      settled_refused others now' at' o actor' i approve' remark' _ first_settles

  abbrev overwritten : ApprovalRequest → ApprovalRequest
  overwritten x = record x {
    status = decision approve;
    decided_by_user_id = some actor;
    decided_at = some at;
    decision_note = elim remark [ none ↦ x.decision_note | some text ↦ some text ];
  }

  written_values-overwritten :
      (x : ApprovalRequest)
      → q.decided_by_user_id ≡ none
      → q.decided_at ≡ none
      → q.decision_note ≡ none
      → written_values approve actor at remark q x ≡ overwritten x
  written_values-overwritten x by' at' note' = elim (Option-cases remark) [
    | inl silent ↦ rw (by', at', note', silent) refl
    | inr (text, said) ↦ rw (by', at', note', said) refl
  ]

  -- `decide` tests the row that it reads and writes with no guard: whatever other sessions commit in
  -- between, a request that was read pending, in time, and with no decision's actor, time or note, gets
  -- the status, the actor and the time of this decision over those of any decision that it has by then,
  -- and the call succeeds with the row that it read and decided. A note is overwritten by a note alone:
  -- where this decision has none, the one that is stored stays, as does a gate's stamp.
  pub late_decision_overwrites :
      (others : Approvals → Approvals) (x : ApprovalRequest)
      → is_pending q.status ≡ true
      → ltb q.expires_at now ≡ false
      → q.decided_by_user_id ≡ none
      → q.decided_at ≡ none
      → q.decision_note ≡ none
      → find_row o i (others s).requests ≡ some x
      → let (r, s') = decide others now at o actor i approve remark s in
        (r ≡ ok (decision_values approve actor at remark q))
        × (find_row o i s'.requests ≡ some (overwritten x))
  unfolding decide decide_pending get_or_404 record_decision update_where add_log
  late_decision_overwrites others x p early by' at' note' f =
      let values = written_values approve actor at remark q in
      let (j, k) = find_row-is_row o i s.requests q found in
      let (j', k') = find_row-is_row o i (others s).requests x f in
      let hit : has_id q.id x ≡ true = rw (j, j') (==_refl i) in
      let stored : Option.map (update_row (has_id q.id) values) (some x) ≡ some (overwritten x) =
        rw hit (ap (λ y. some y) (written_values-overwritten x by' at' note')) in
      let rows =
        find_row-update_rows o i (has_id q.id) values (λ y. (refl, refl)) (others s).requests in
      rw (found, p, early)
        (refl, rows ∙ ap (Option.map (update_row (has_id q.id) values)) f ∙ stored)
