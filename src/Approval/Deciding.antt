-- ===== src/Approval/Deciding.antt =====
-- What `decide` does on each branch, and what comes after a decision.
use agency_os.Prelude.{
  ℕ, String, ◌≡◌, refl, ap, ◌∙◌, Bool, true, false, ◌==◌, Option, none, some, List, ◌∷◌, ltb, arith,
  Bool-cases, Option-cases, inl, inr, ==_refl, if◌then◌else◌,
}
use mathlib.Core.Option
use package.text.Mathlib.TextEquality.{eq_iff}
use agency_os.Db.Rows.{update_row, update_rows}
use agency_os.Db.Search.{first_row-fits, first_row-update_rows, first_row-untouched}
use agency_os.Db.Session.{AppError, Result, ok, err}
use agency_os.Approval.Requests.{
  ApprovalRequest, ApprovalLog, Approvals, is_pending, is_row, find_row, is_open, expire_values,
  get_or_404, update_where, mark_expired,
}
use agency_os.Approval.Service.{
  add_log, decision_action, decision_values, written_values, same_id, same_note, has_id,
  not_pending, has_expired, expire, record_decision, decide_pending, decide,
}

abbrev pub alone : Approvals → Approvals
alone s = s

abbrev pub refusal : String → AppError
refusal code = record { code = code; status_code = 409 }

-- the requests with another id are found as they were
abbrev pub Apart : ℕ → Approvals → Approvals → Type 0
Apart i s s' =
    (o' i' : ℕ) → (i == i') ≡ false → find_row o' i' s'.requests ≡ find_row o' i' s.requests

module _ (o i : ℕ) (guard : ApprovalRequest → Bool) (values : ApprovalRequest → ApprovalRequest)
    (same : (r : ApprovalRequest)
      → ((values r).id ≡ r.id) × ((values r).organization_id ≡ r.organization_id)) where
  -- the row of a key after an UPDATE that keeps the keys
  pub find_row-update_rows :
      (rows : List ApprovalRequest)
      → find_row o i (update_rows guard values rows)
        ≡ Option.map (update_row guard values) (find_row o i rows)
  unfolding find_row
  find_row-update_rows rows =
      first_row-update_rows (is_row o i) guard values (λ x. rw ((same x).0, (same x).1) refl) rows

  pub find_row-untouched :
      ((r : ApprovalRequest) → guard r ≡ true → is_row o i r ≡ false)
      → (rows : List ApprovalRequest)
      → find_row o i (update_rows guard values rows) ≡ find_row o i rows
  unfolding find_row
  find_row-untouched apart rows =
      first_row-untouched (is_row o i) guard values (λ x. rw ((same x).0, (same x).1) refl) apart
        rows

chosen : {A : Type 0} (b : Bool) (a c : A) → (b ≡ true → a ≡ c) → (if b then a else c) ≡ c
chosen true a c h = h refl
chosen false a c h = refl

same_id→≡ : (a b : Option ℕ) → same_id a b ≡ true → a ≡ b
same_id→≡ none none h = refl
same_id→≡ none (some b) h = cc
same_id→≡ (some a) none h = cc
same_id→≡ (some a) (some b) h = let e : a ≡ b = ground arith in ap (λ x. some x) e

same_note→≡ : (a b : Option String) → same_note a b ≡ true → a ≡ b
same_note→≡ none none h = refl
same_note→≡ none (some b) h = cc
same_note→≡ (some a) none h = cc
same_note→≡ (some a) (some b) h = ap (λ x. some x) ((eq_iff a b).0 h)

-- over the row that was read, the flush writes what was assigned
written_values_self :
    (approve : Bool) (actor decided_at : ℕ) (note : Option String) (q : ApprovalRequest)
    → written_values approve actor decided_at note q q
      ≡ decision_values approve actor decided_at note q
written_values_self approve actor decided_at note q =
    rw
      (
        chosen (same_id q.decided_by_user_id (some actor)) _ _ (same_id→≡ _ _),
        chosen (same_id q.decided_at (some decided_at)) _ _ (same_id→≡ _ _),
        chosen (same_note q.decision_note note) _ _ (same_note→≡ _ _),
      )
      refl

pub find_row-is_row :
    (o i : ℕ) (rows : List ApprovalRequest) (q : ApprovalRequest)
    → find_row o i rows ≡ some q
    → (q.id ≡ i) × (q.organization_id ≡ o)
unfolding find_row
find_row-is_row o i rows q f =
    let fits : is_row o i q ≡ true = first_row-fits (is_row o i) q rows f in
    (ground arith, ground arith)

module _ (now decided_at o actor i : ℕ) (approve : Bool) (note : Option String) (s : Approvals)
    (q : ApprovalRequest) where
  abbrev log_entry : ApprovalLog
  log_entry = record {
    organization_id = o;
    approval_request_id = i;
    actor_user_id = some actor;
    action = decision_action approve;
    note = note;
  }

  -- The request is past its time: it is stored EXPIRED, and nothing is logged.
  abbrev pub IsExpired : Result ApprovalRequest → Approvals → Type 0
  IsExpired r s' =
      (r ≡ err (refusal has_expired))
      × (find_row o i s'.requests ≡ some (expire_values now q))
      × (s'.logs ≡ s.logs)
      × (s'.db ≡ s.db)
      × Apart i s s'

  -- The decision is stored, returned, and logged once.
  abbrev pub IsDecided : Result ApprovalRequest → Approvals → Type 0
  IsDecided r s' =
      (r ≡ ok (decision_values approve actor decided_at note q))
      × (find_row o i s'.requests ≡ some (decision_values approve actor decided_at note q))
      × (s'.logs ≡ log_entry ∷ s.logs)
      × (s'.db ≡ s.db)
      × Apart i s s'

  expire_lem :
      find_row o i s.requests ≡ some q
      → is_pending q.status ≡ true
      → let (r, s') = expire alone now decided_at o actor i approve note q s in IsExpired r s'
  unfolding expire mark_expired update_where
  expire_lem f p =
      let (j, k) = find_row-is_row o i s.requests q f in
      let hit : is_open o q.id q ≡ true = rw (k, ==_refl o, ==_refl q.id, p) refl in
      let rows =
        find_row-update_rows o i (is_open o q.id) (expire_values now) (λ x. (refl, refl))
          s.requests in
      let stored : Option.map (update_row (is_open o q.id) (expire_values now)) (some q)
          ≡ some (expire_values now q) =
        rw hit refl in
      (
        refl,
        rows ∙ ap (Option.map (update_row (is_open o q.id) (expire_values now))) f ∙ stored,
        refl,
        refl,
        λ o' i' d.
            find_row-untouched o' i' (is_open o q.id) (expire_values now) (λ x. (refl, refl))
              (λ x h. ground arith) s.requests,
      )

  record_decision_lem :
      find_row o i s.requests ≡ some q
      → let (r, s') = record_decision alone now decided_at o actor i approve note q s in
        IsDecided r s'
  unfolding record_decision update_where add_log
  record_decision_lem f =
      let (j, k) = find_row-is_row o i s.requests q f in
      let values = written_values approve actor decided_at note q in
      let rows = find_row-update_rows o i (has_id q.id) values (λ x. (refl, refl)) s.requests in
      let stored : Option.map (update_row (has_id q.id) values) (some q)
          ≡ some (decision_values approve actor decided_at note q) =
        rw (==_refl q.id)
          (ap (λ x. some x) (written_values_self approve actor decided_at note q)) in
      (
        refl,
        rows ∙ ap (Option.map (update_row (has_id q.id) values)) f ∙ stored,
        rw j refl,
        refl,
        λ o' i' d.
            find_row-untouched o' i' (has_id q.id) values (λ x. (refl, refl)) (λ x h. ground arith)
              s.requests,
      )

-- the outcomes of `decide`, by the row that it reads, whether that is pending, and past its time
module _ (now decided_at o actor i : ℕ) (approve : Bool) (note : Option String)
    (s : Approvals) where
  abbrev pub Answered : ApprovalRequest → Bool → Bool → Result ApprovalRequest → Approvals → Type 0
  Answered q false late r s' = (r ≡ err (refusal not_pending)) × (s' ≡ s)
  Answered q true true r s' = IsExpired now decided_at o actor i approve note s q r s'
  Answered q true false r s' = IsDecided now decided_at o actor i approve note s q r s'

  abbrev pub Decides : Option ApprovalRequest → Result ApprovalRequest → Approvals → Type 0
  Decides none r s' =
      (r ≡ err (record { code = "approval_requests.not_found"; status_code = 404 })) × (s' ≡ s)
  Decides (some q) r s' = Answered q (is_pending q.status) (ltb q.expires_at now) r s'

  -- `decide` on every branch: a request that is not found is 404 and one that is not pending 409,
  -- and nothing changes; a pending one past its time is stored EXPIRED and refused with 409, and
  -- nothing is logged; any other gets the decision with its actor, time and note, and one log row.
  -- Requests with another id stay as they were.
  pub decide-Decides :
      let (r, s') = decide alone now decided_at o actor i approve note s in
      Decides (find_row o i s.requests) r s'
  unfolding decide decide_pending get_or_404
  decide-Decides = elim (Option-cases (find_row o i s.requests)) [
    | inl f ↦ rw f (refl, refl)
    | inr (q, f) ↦ elim (Bool-cases (is_pending q.status)) [
      | inr p ↦ rw (f, p) (refl, refl)
      | inl p ↦ elim (Bool-cases (ltb q.expires_at now)) [
        | inl late ↦ rw (f, p, late) (expire_lem now decided_at o actor i approve note s q f p)
        | inr early ↦
            rw (f, p, early) (record_decision_lem now decided_at o actor i approve note s q f)
      ]
    ]
  ]
