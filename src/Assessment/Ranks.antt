-- ===== src/Assessment/Ranks.antt =====
-- The order of the tasks that a review leaves, in law_agent/review/remediation.py, is by their
-- kind, and tasks of one kind keep theirs.
use crosscomply_agent.Prelude.{
  ℕ, ◌≤◌, ◌≡◌, refl, ap, ◌∙◌, inl, inr, Bool, true, false, List, [], ◌∷◌, arith, Bool-cases, ltb,
  select, All, if◌then◌else◌,
}
use crosscomply_agent.Prelude.{nat_eq}
use crosscomply_agent.Prelude.Sort.{insert, sorted}
use crosscomply_agent.Remediation.Records.{TaskData}
use crosscomply_agent.Assessment.Guided.{rank_of}

-- No task is of an earlier kind than one before it: facts, controls, recommendations.
abbrev pub IsOrdered : List TaskData → Type 0
IsOrdered [] = Unit
IsOrdered (t ∷ ts) = All (λ u. rank_of t ≤ rank_of u) ts × IsOrdered ts

abbrev pub earlier : TaskData → TaskData → Bool
earlier a b = ltb (rank_of a) (rank_of b)

All-le :
    (m n : ℕ) (ts : List TaskData)
    → m ≤ n
    → All (λ u. n ≤ rank_of u) ts
    → All (λ u. m ≤ rank_of u) ts
All-le m n [] le h = tt
All-le m n (t ∷ ts) le h = (omega (arith, h.0), All-le m n ts le h.1)

All-insert_le :
    (m : ℕ) (t : TaskData) (ts : List TaskData)
    → m ≤ rank_of t
    → All (λ u. m ≤ rank_of u) ts
    → All (λ u. m ≤ rank_of u) (insert earlier t ts)
All-insert_le m t [] le h = (le, tt)
All-insert_le m t (u ∷ us) le h = elim (Bool-cases (earlier u t)) [
  | inl e ↦ rw e (h.0, All-insert_le m t us le h.1)
  | inr e ↦ rw e (le, h)
]

insert-IsOrdered :
    (t : TaskData) (ts : List TaskData) → IsOrdered ts → IsOrdered (insert earlier t ts)
insert-IsOrdered t [] h = (tt, tt)
insert-IsOrdered t (u ∷ us) h = elim (Bool-cases (earlier u t)) [
  | inl e ↦ rw e (All-insert_le (rank_of u) t us (ground arith) h.0, insert-IsOrdered t us h.1)
  | inr e ↦
      let le : rank_of t ≤ rank_of u = ground arith in
      rw e ((le, All-le (rank_of t) (rank_of u) us le h.0), h)
]

pub sorted-IsOrdered : (ts : List TaskData) → IsOrdered (sorted earlier ts)
sorted-IsOrdered [] = tt
sorted-IsOrdered (t ∷ ts) = insert-IsOrdered t (sorted earlier ts) (sorted-IsOrdered ts)

-- Sorting keeps the tasks of one kind in their order.
abbrev pub has_rank : ℕ → TaskData → Bool
has_rank k t = nat_eq (rank_of t) k

select_after :
    (k : ℕ) (t u : TaskData) (us : List TaskData)
    → earlier u t ≡ true
    → select (has_rank k) (insert earlier t us) ≡ select (has_rank k) (t ∷ us)
    → select (has_rank k) (u ∷ insert earlier t us) ≡ select (has_rank k) (t ∷ u ∷ us)
select_after k t u us e h = elim (Bool-cases (has_rank k t)) [
  | inl this ↦
      let other : has_rank k u ≡ false = ground arith in rw (other, this) (rw h (rw this refl))
  | inr not_this ↦ rw not_this (rw h (rw not_this refl))
]

select-insert :
    (k : ℕ) (t : TaskData) (ts : List TaskData)
    → select (has_rank k) (insert earlier t ts) ≡ select (has_rank k) (t ∷ ts)
select-insert k t [] = refl
select-insert k t (u ∷ us) = elim (Bool-cases (earlier u t)) [
  | inl e ↦ rw e (select_after k t u us e (select-insert k t us))
  | inr e ↦ rw e refl
]

pub select-sorted :
    (k : ℕ) (ts : List TaskData) → select (has_rank k) (sorted earlier ts) ≡ select (has_rank k) ts
select-sorted k [] = refl
select-sorted k (t ∷ ts) =
    select-insert k t (sorted earlier ts)
    ∙ ap (λ zs. if has_rank k t then t ∷ zs else zs) (select-sorted k ts)
