-- ===== src/Cases/Views.antt =====
-- What a user sees of the cases, and the dashboard's numbers (law_agent/review/case_store.py).
use mathlib.Core.List.{Perm, perm_middle, perm-append_right_iff}
use mathlib.Core.List.Perm
use crosscomply_agent.Prelude.{
  ℕ, ◌+◌, ◌≤◌, String, true, false, or_true, none, some, List, [], ◌∷◌, ◌≡◌, refl, ap, ◌∙◌, ◌==◌,
  eq_iff, eq_refl, Dict, get, get-put, values, arith, Bool-cases, inl, inr, length, select, All,
  ◌++◌, not, Bool, ◌⊎◌, ◌↔◌, sym, false-true, Option,
}
use crosscomply_agent.Prelude.Sort.{insert, sorted, All-insert, All-sorted, sorted-perm}
use crosscomply_agent.Workflow.{
  CaseStatus, case_status_eq, draft, needs_info, pending_review, review_running,
  pending_source_verification, pending_feishu_approval, run_failed,
}
use crosscomply_agent.Cases.Records.{UserRole, UserRecord, MemoryCase, CaseStore}
use crosscomply_agent.Cases.Files.{list_cases, may_see, is_newer, default_to}
use crosscomply_agent.Cases.Dashboard.{
  case_status_name, bump, count_statuses, dashboard_summary, no_counts,
}

-- The newest first.
abbrev pub IsNewestFirst : List MemoryCase → Type 0
IsNewestFirst [] = Unit
IsNewestFirst (c ∷ cs) = All (λ d. d.updated_at ≤ c.updated_at) cs × IsNewestFirst cs

All-weaken :
    (a b : ℕ) (cs : List MemoryCase)
    → a ≤ b
    → All (λ d. d.updated_at ≤ a) cs
    → All (λ d. d.updated_at ≤ b) cs
All-weaken a b [] l h = tt
All-weaken a b (c ∷ cs) l h = (omega (arith, l, h.0), All-weaken a b cs l h.1)

insert-IsNewestFirst :
    (c : MemoryCase) (cs : List MemoryCase)
    → IsNewestFirst cs
    → IsNewestFirst (insert is_newer c cs)
insert-IsNewestFirst c [] h = (tt, tt)
insert-IsNewestFirst c (d ∷ cs) h = elim (Bool-cases (is_newer d c)) [
  | inl e ↦ rw e (
    All-insert is_newer (λ x. x.updated_at ≤ d.updated_at) c cs (ground arith) h.0,
    insert-IsNewestFirst c cs h.1,
  )
  | inr e ↦ rw e ((ground arith, All-weaken d.updated_at c.updated_at cs (ground arith) h.0), h)
]

sorted-IsNewestFirst : (cs : List MemoryCase) → IsNewestFirst (sorted is_newer cs)
sorted-IsNewestFirst [] = tt
sorted-IsNewestFirst (c ∷ cs) =
    insert-IsNewestFirst c (sorted is_newer cs) (sorted-IsNewestFirst cs)

select_all : (cs : List MemoryCase) → select (λ _. true) cs ≡ cs
select_all [] = refl
select_all (c ∷ cs) = ap (λ r. c ∷ r) (select_all cs)

-- A requester sees the cases that they created or own, anyone else sees every case.
abbrev pub CanSee : UserRecord → MemoryCase → Type 0
CanSee user c =
    user.role ≡ UserRole.requester → (c.created_by ≡ user.id) ⊎ (c.owner_id ≡ some user.id)

owner_named :
    (o : Option String) {id : String}
    → (elim o [ none ↦ false | some owner ↦ id == owner ]) ≡ true
    → o ≡ some id
owner_named none h = cc
owner_named (some owner) {id} h = ap some (sym ((eq_iff id owner).0 h))

may_see-CanSee : (user : UserRecord) (c : MemoryCase) → (may_see user c ≡ true) ↔ CanSee user c
may_see-CanSee user c = of_role user.role refl
  where
    of_role : (r : UserRole) → user.role ≡ r → (may_see user c ≡ true) ↔ CanSee user c
    of_role UserRole.requester e = (
      (λ h _. elim (or_true _ _ (rw e at h)) [
        | inl a ↦ inl (sym ((eq_iff user.id c.created_by).0 a))
        | inr a ↦ inr (owner_named c.owner_id a)
      ]),
      (λ h. elim (h e) [
        | inl a ↦ rw (e, (eq_iff user.id c.created_by).1 (sym a)) refl
        | inr a ↦ ground (arith, e, a, eq_refl user.id)
      ]),
    )
    of_role UserRole.reviewer e = ((λ h asked. cc), (λ h. rw e refl))
    of_role UserRole.admin e = ((λ h asked. cc), (λ h. rw e refl))

-- What a test picks and what it leaves are all there is.
select-partition :
    (test : MemoryCase → Bool) (cs : List MemoryCase)
    → Perm (select test cs ++ select (λ c. not (test c)) cs) cs
select-partition test [] = Perm.refl []
select-partition test (c ∷ cs) = elim (Bool-cases (test c)) [
  | inl e ↦ rw e (Perm.cons c (select-partition test cs))
  | inr e ↦ rw e (
      Perm.trans (perm_middle (select test cs) (select (λ c. not (test c)) cs))
        (Perm.cons c (select-partition test cs)))
]

module _ (user : UserRecord) where
  visible : (cs : List MemoryCase) → All (CanSee user) (select (may_see user) cs)
  visible [] = tt
  visible (c ∷ cs) = elim (Bool-cases (may_see user c)) [
    | inl e ↦ rw e ((may_see-CanSee user c).0 e, visible cs)
    | inr e ↦ rw e (visible cs)
  ]

  hidden :
      (cs : List MemoryCase) → All (λ c. CanSee user c → ⊥) (select (λ c. not (may_see user c)) cs)
  hidden [] = tt
  hidden (c ∷ cs) = elim (Bool-cases (may_see user c)) [
    | inl e ↦ rw e (hidden cs)
    | inr e ↦ rw e ((λ h. false-true (sym e ∙ (may_see-CanSee user c).1 h)), hidden cs)
  ]

module _ (lower : String → String) where
  -- Without a query the list of cases and some others are the stored cases, each as often as it is
  -- stored: those in the list may be seen by the user, none of the others may, and the newest stand
  -- first. A requester may see the cases that they created or own, anyone else every case.
  pub list_cases_lem :
      (user : UserRecord) (s : CaseStore)
      → (others : List MemoryCase) × Perm (list_cases lower user none s ++ others) (values s.cases)
        × All (CanSee user) (list_cases lower user none s)
        × All (λ c. CanSee user c → ⊥) others
        × IsNewestFirst (list_cases lower user none s)
  unfolding list_cases
  list_cases_lem user s =
      let seen = select (may_see user) (values s.cases) in
      let unseen = select (λ c. not (may_see user c)) (values s.cases) in
      (
        unseen,
        rw (select_all seen) (
            Perm.trans ((perm-append_right_iff unseen).1 (sorted-perm is_newer seen))
              (select-partition (may_see user) (values s.cases))),
        rw (select_all seen)
            (All-sorted is_newer (CanSee user) seen (visible user (values s.cases))),
        hidden user (values s.cases),
        rw (select_all seen) (sorted-IsNewestFirst seen),
      )

-- The names tell the statuses apart.
names_agree : (a b : CaseStatus) → (case_status_name a == case_status_name b) ≡ case_status_eq a b
names_agree draft draft = refl
names_agree draft _ = refl
names_agree needs_info needs_info = refl
names_agree needs_info _ = refl
names_agree pending_review pending_review = refl
names_agree pending_review _ = refl
names_agree review_running review_running = refl
names_agree review_running _ = refl
names_agree pending_source_verification pending_source_verification = refl
names_agree pending_source_verification _ = refl
names_agree pending_feishu_approval pending_feishu_approval = refl
names_agree pending_feishu_approval _ = refl
names_agree CaseStatus.approved CaseStatus.approved = refl
names_agree CaseStatus.approved _ = refl
names_agree CaseStatus.conditionally_approved CaseStatus.conditionally_approved = refl
names_agree CaseStatus.conditionally_approved _ = refl
names_agree CaseStatus.rejected CaseStatus.rejected = refl
names_agree CaseStatus.rejected _ = refl
names_agree run_failed run_failed = refl
names_agree run_failed _ = refl

-- The cases of one status.
abbrev pub with_status : CaseStatus → List MemoryCase → List MemoryCase
with_status st cs = select (λ c. case_status_eq c.status st) cs

count_statuses-get :
    (st : CaseStatus) (cs : List MemoryCase) (n : ℕ) (d : Dict ℕ)
    → get (case_status_name st) d ≡ some n
    → get (case_status_name st) (count_statuses cs d) ≡ some (n + length (with_status st cs))
unfolding count_statuses
count_statuses-get st [] n d h = h ∙ ap some (omega arith)
count_statuses-get st (c ∷ cs) n d h =
    let stored =
      get-put (case_status_name c.status) (case_status_name st)
        (default_to 0 (get (case_status_name c.status) d) + 1) d in
    let same = names_agree c.status st in
    elim (Bool-cases (case_status_eq c.status st)) [
      | inl e ↦
          let one : case_status_name c.status ≡ case_status_name st = (eq_iff _ _).0 (same ∙ e) in
          let now : get (case_status_name st) (bump (case_status_name c.status) d) ≡ some (n + 1) =
            stored ∙ rw (same ∙ e) (ap (λ i. some (default_to 0 (get i d) + 1)) one ∙ rw h refl) in
          count_statuses-get st cs (n + 1) _ now ∙ rw e (ap some (omega arith))
      | inr e ↦ count_statuses-get st cs n _ (stored ∙ rw (same ∙ e) h) ∙ rw e refl
    ]

-- The count of each status before the loop.
counted_from : (st : CaseStatus) → get (case_status_name st) no_counts ≡ some 0
counted_from draft = refl
counted_from needs_info = refl
counted_from pending_review = refl
counted_from review_running = refl
counted_from pending_source_verification = refl
counted_from pending_feishu_approval = refl
counted_from CaseStatus.approved = refl
counted_from CaseStatus.conditionally_approved = refl
counted_from CaseStatus.rejected = refl
counted_from run_failed = refl

module _ (lower : String → String) where
  -- The dashboard counts, for each status, the listed cases that have it, and its total is the
  -- number of all that are listed.
  pub dashboard_summary_counts :
      (user : UserRecord) (s : CaseStore) (st : CaseStatus)
      → (get (case_status_name st) (dashboard_summary lower user s).status_counts
          ≡ some (length (with_status st (list_cases lower user none s))))
        × ((dashboard_summary lower user s).total_cases ≡ length (list_cases lower user none s))
  unfolding dashboard_summary
  dashboard_summary_counts user s st = (
    count_statuses-get st (list_cases lower user none s) 0 no_counts (counted_from st)
        ∙ ap some (omega arith),
    refl,
  )
