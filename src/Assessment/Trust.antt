-- ===== src/Assessment/Trust.antt =====
-- What the gate lets pass, in law_agent/review/remediation.py.
use mathlib.Core.Path.{subst}
use crosscomply_agent.Prelude.{
  ◌<◌, ◌≡◌, refl, ◌≢◌, ◌⊎◌, inl, inr, ltb→lt, sym, ◌∙◌, String, Bool, true, false, List, [], ◌∷◌,
  ◌++◌, arith, eq_iff, Bool-cases, any, All, ok, value_error, raise_if, raise_if-ok, >>=-eq-ok,
}
use crosscomply_agent.Workflow.{has_items}
use crosscomply_agent.Workflow.Strip.{strip}
use crosscomply_agent.Assessment.Packet.{RereviewPacket}
use crosscomply_agent.Assessment.Grounding.{IsGrounded, AreGrounded, ground_points-AreGrounded}
use crosscomply_agent.Prelude.{or_false, or_true, and_true, not-false, false-true}
use crosscomply_agent.Assessment.Gate.{
  BasisSource, AssessmentStatus, RemediationAssessmentDraft, GroundedBasis, ConfirmedPoint,
  FinalAssessment, ground_points, is_artifact, is_statement, artifact_point_count,
  attested_fact_count, grounded_of, is_resolved, stripped_gaps, is_refused, finalize_assessment,
}

-- The sources that count as the case's own documents.
abbrev pub IsArtifact : BasisSource → Type 0
IsArtifact source =
    (source ≡ BasisSource.attachment)
    ⊎ (source ≡ BasisSource.case_material)
    ⊎ (source ≡ BasisSource.accepted_revision)

abbrev pub IsStatement : BasisSource → Type 0
IsStatement source = source ≡ BasisSource.user_statement

-- Some piece of evidence comes from one of the sources.
abbrev pub HasSource : (BasisSource → Type 0) → List GroundedBasis → Type 0
HasSource P [] = ⊥
HasSource P (g ∷ gs) = P g.source ⊎ HasSource P gs

IsArtifact-source : (source : BasisSource) → is_artifact source ≡ true → IsArtifact source
IsArtifact-source BasisSource.attachment h = inl refl
IsArtifact-source BasisSource.case_material h = inr (inl refl)
IsArtifact-source BasisSource.accepted_revision h = inr (inr refl)
IsArtifact-source BasisSource.legal_basis h = cc
IsArtifact-source BasisSource.issue h = cc
IsArtifact-source BasisSource.user_statement h = cc

IsStatement-source : (source : BasisSource) → is_statement source ≡ true → IsStatement source
IsStatement-source BasisSource.user_statement h = refl
IsStatement-source BasisSource.attachment h = cc
IsStatement-source BasisSource.case_material h = cc
IsStatement-source BasisSource.accepted_revision h = cc
IsStatement-source BasisSource.legal_basis h = cc
IsStatement-source BasisSource.issue h = cc

source_of :
    (test : BasisSource → Bool) (P : BasisSource → Type 0) (gs : List GroundedBasis)
    → ((source : BasisSource) → test source ≡ true → P source)
    → any (λ g. test g.source) gs ≡ true
    → HasSource P gs
source_of test P [] holds h = cc
source_of test P (g ∷ gs) holds h = elim (or_true _ _ h) [
  | inl e ↦ inl (holds g.source e)
  | inr e ↦ inr (source_of test P gs holds e)
]

any-append_left :
    (test : GroundedBasis → Bool) (gs hs : List GroundedBasis)
    → any test gs ≡ true
    → any test (gs ++ hs) ≡ true
any-append_left test [] hs h = cc
any-append_left test (g ∷ gs) hs h = ground (arith, any-append_left test gs hs)

any-append_right :
    (test : GroundedBasis → Bool) (gs hs : List GroundedBasis)
    → any test hs ≡ true
    → any test (gs ++ hs) ≡ true
any-append_right test [] hs h = h
any-append_right test (g ∷ gs) hs h = ground (arith, any-append_right test gs hs h)

artifact_counted :
    (cs : List ConfirmedPoint)
    → 0 < artifact_point_count cs
    → any (λ g. is_artifact g.source) (grounded_of cs) ≡ true
artifact_counted [] h = absurd (omega arith)
artifact_counted (c ∷ cs) h = elim (Bool-cases (any (λ g. is_artifact g.source) c.basis)) [
  | inl e ↦ any-append_left _ c.basis (grounded_of cs) e
  | inr e ↦ any-append_right _ c.basis (grounded_of cs) (artifact_counted cs (ground arith))
]

fact_counted :
    (p : RereviewPacket) (cs : List ConfirmedPoint)
    → 0 < attested_fact_count p cs
    → any (λ g. is_statement g.source) (grounded_of cs) ≡ true
fact_counted p [] h = absurd (omega arith)
fact_counted p (c ∷ cs) h = elim (Bool-cases (any (λ g. is_statement g.source) c.basis)) [
  | inl e ↦ any-append_left _ c.basis (grounded_of cs) e
  | inr e ↦ any-append_right _ c.basis (grounded_of cs) (fact_counted p cs (ground arith))
]

grounded_of-AreGrounded :
    (p : RereviewPacket) (cs : List ConfirmedPoint)
    → All (λ c. AreGrounded p c.basis) cs
    → AreGrounded p (grounded_of cs)
grounded_of-AreGrounded p [] h = tt
grounded_of-AreGrounded p (c ∷ cs) h =
    All-append c.basis (grounded_of cs) h.0 (grounded_of-AreGrounded p cs h.1)
  where
    All-append :
        (gs hs : List GroundedBasis)
        → AreGrounded p gs
        → AreGrounded p hs
        → AreGrounded p (gs ++ hs)
    All-append [] hs a b = b
    All-append (g ∷ gs) hs a b = (a.0, All-append gs hs a.1 b)

-- What an assessment has that calls the task resolved, and what any other has.
abbrev pub IsResolvedBy : RereviewPacket → FinalAssessment → Type 0
IsResolvedBy p a =
    (a.remaining_gaps ≡ [])
    × (HasSource IsArtifact a.grounded_evidence
        ⊎ ((p.task_kind ≡ "fact_confirmation") × HasSource IsStatement a.grounded_evidence))

abbrev pub AsksForMore : FinalAssessment → Type 0
AsksForMore a = (a.remaining_gaps ≢ []) × (a.next_request ≢ "")

abbrev pub IsConclusive : AssessmentStatus → RereviewPacket → FinalAssessment → Type 0
IsConclusive AssessmentStatus.resolved p a = IsResolvedBy p a
IsConclusive AssessmentStatus.partially_resolved p a = AsksForMore a
IsConclusive AssessmentStatus.not_resolved p a = AsksForMore a
IsConclusive AssessmentStatus.insufficient_evidence p a = AsksForMore a

tt_only : (u : Unit {0}) → tt ≡ u
tt_only u = refl

has_items-false : (xs : List String) → has_items xs ≡ false → xs ≡ []
has_items-false [] h = refl
has_items-false (x ∷ xs) h = cc

has_items-true : (xs : List String) → has_items xs ≡ true → xs ≢ []
has_items-true [] h = cc
has_items-true (x ∷ xs) h = cc

resolved-IsResolvedBy :
    (draft : RemediationAssessmentDraft) (p : RereviewPacket) (cs : List ConfirmedPoint)
    (a : FinalAssessment)
    → is_refused true draft p cs ≡ false
    → a.remaining_gaps ≡ stripped_gaps draft.remaining_gaps
    → a.grounded_evidence ≡ grounded_of cs
    → IsResolvedBy p a
resolved-IsResolvedBy draft p cs a h gaps evidence =
    let (no_gap, based) = or_false _ _ h in
    (
      gaps ∙ has_items-false _ no_gap,
      elim (or_true _ _ (not-false _ based)) [
        | inl e ↦ inl (
            rw evidence (
              source_of is_artifact IsArtifact (grounded_of cs) IsArtifact-source
                (artifact_counted cs (ltb→lt _ _ e))))
        | inr e ↦
            let (fact, stated) = and_true _ _ e in
            inr (
              (eq_iff p.task_kind "fact_confirmation").0 fact,
              rw evidence (
                  source_of is_statement IsStatement (grounded_of cs) IsStatement-source
                    (fact_counted p cs (ltb→lt _ _ stated))),
            )
      ],
    )

other-AsksForMore :
    (draft : RemediationAssessmentDraft) (p : RereviewPacket) (cs : List ConfirmedPoint)
    (a : FinalAssessment)
    → is_refused false draft p cs ≡ false
    → a.remaining_gaps ≡ stripped_gaps draft.remaining_gaps
    → a.next_request ≡ strip draft.next_request
    → AsksForMore a
other-AsksForMore draft p cs a h gaps request =
    let (some_gap, asked) = or_false _ _ h in
    (
      (λ e. has_items-true _ (not-false _ some_gap) (sym gaps ∙ e)),
      (λ e. false-true (sym asked ∙ (eq_iff _ "").1 (sym request ∙ e))),
    )

refused-IsConclusive :
    (status : AssessmentStatus) (draft : RemediationAssessmentDraft) (p : RereviewPacket)
    (cs : List ConfirmedPoint) (a : FinalAssessment)
    → is_refused (is_resolved status) draft p cs ≡ false
    → a.remaining_gaps ≡ stripped_gaps draft.remaining_gaps
    → a.next_request ≡ strip draft.next_request
    → a.grounded_evidence ≡ grounded_of cs
    → IsConclusive status p a
refused-IsConclusive AssessmentStatus.resolved draft p cs a h gaps request evidence =
    resolved-IsResolvedBy draft p cs a h gaps evidence
refused-IsConclusive AssessmentStatus.partially_resolved draft p cs a h gaps request evidence =
    other-AsksForMore draft p cs a h gaps request
refused-IsConclusive AssessmentStatus.not_resolved draft p cs a h gaps request evidence =
    other-AsksForMore draft p cs a h gaps request
refused-IsConclusive AssessmentStatus.insufficient_evidence draft p cs a h gaps request evidence =
    other-AsksForMore draft p cs a h gaps request

-- An assessment that passes the gate has only evidence that the case bears out. A quote is, but for
-- white space at its ends, the passage between the given offsets of the text that it names, and that
-- passage, its white space included, begins at no other place of the text. The text is the
-- applicant's statement, a file of this submission, a material of the case that is not the
-- applicant's own guidance, or an accepted revision; an issue is the task's, an article one that
-- may be cited. If the assessment calls the task resolved, no gap is left and some evidence is a
-- file, a material or a revision, or, for a task that confirms a fact, the applicant's statement;
-- otherwise it names a gap and asks for something.
pub finalize_assessment-IsTrusted :
    (draft : RemediationAssessmentDraft) (p : RereviewPacket) (a : FinalAssessment)
    → finalize_assessment draft p ≡ ok a
    → All (IsGrounded p) a.grounded_evidence × IsConclusive a.status p a
unfolding finalize_assessment
finalize_assessment-IsTrusted draft p a h =
    let (cs, grounded, after) = >>=-eq-ok (ground_points draft.confirmed_points p) _ h in
    let (u, checked, last) =
      >>=-eq-ok (raise_if (is_refused (is_resolved draft.status) draft p cs) value_error) _ after in
    let status : a.status ≡ draft.status = ground arith in
    let evidence : a.grounded_evidence ≡ grounded_of cs = ground arith in
    (
      rw evidence (
          grounded_of-AreGrounded p cs
            (ground_points-AreGrounded draft.confirmed_points p cs grounded)),
      subst (λ st. IsConclusive st p a) (sym status)
          (refused-IsConclusive draft.status draft p cs a
            (raise_if-ok _ value_error (rw⁻¹ (tt_only u) checked)) (ground arith) (ground arith)
            evidence),
    )
