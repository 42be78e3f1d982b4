-- ===== src/Assessment/Grounding.antt =====
-- What a basis that is grounded rests on, in law_agent/review/remediation.py.
use mathlib.Core.Path.{subst}
use crosscomply_agent.Prelude.{
  ℕ, ◌≡◌, refl, ◌≢◌, inl, inr, sym, String, true, false, not, ◌||◌, Option, none, some, List, [],
  ◌∷◌, ◌==◌, ◌!=◌, arith, eq_iff, Bool-cases, All, find, get, ok, err, value_error, raise_if,
  >>=-eq-ok, if◌then◌else◌,
}
use crosscomply_agent.Workflow.{has_items}
use crosscomply_agent.Workflow.Strip.{strip}
use crosscomply_agent.Assessment.Text.{slice}
use crosscomply_agent.Assessment.Locate.{StandsOnceAt, slice-occurs, locate_iff}
use crosscomply_agent.Assessment.Packet.{
  RereviewAttachment, RereviewPacket, is_in, attachment_texts, or_empty,
}
use crosscomply_agent.Assessment.Gate.{
  BasisSource, AssessmentBasisDraft, AssessmentPointDraft, GroundedBasis, ConfirmedPoint, locate,
  quoted, referred, ground_source, ground_basis, ground_all, ground_points, is_no_file,
}

-- The text `s` has, at the offsets of `g` and nowhere else, a passage that is not blank and that
-- is the quote of `g` but for white space around it.
abbrev pub IsQuotedFrom : String → GroundedBasis → Type 0
IsQuotedFrom s g =
    (a : ℕ) × (b : ℕ) × (g.span ≡ some (a, b))
    × StandsOnceAt (slice a b s) a s
    × (g.quote ≡ strip (slice a b s))
    × (g.quote ≢ "")

-- An attachment is there, and is a file.
abbrev pub IsFile : Option RereviewAttachment → Type 0
IsFile none = ⊥
IsFile (some a) = a.kind ≡ "file"

is_no_file-IsFile : (o : Option RereviewAttachment) → is_no_file o ≡ false → IsFile o
is_no_file-IsFile none h = cc
is_no_file-IsFile (some a) h = ground (arith, h, eq_iff a.kind "file")

-- What each source of support has to be, in the packet.
abbrev pub Supports : BasisSource → RereviewPacket → GroundedBasis → Type 0
Supports BasisSource.user_statement p g = IsQuotedFrom p.user_statement g
Supports BasisSource.issue p g = (p.issue_id ≡ some g.reference) × (g.reference ≢ "")
Supports BasisSource.legal_basis p g = is_in p.citable_chunk_ids g.reference ≡ true
Supports BasisSource.attachment p g =
    (s : String) × (get g.reference (attachment_texts p) ≡ some s)
    × IsFile (find (λ a. a.evidence_id == g.reference) p.attachments)
    × IsQuotedFrom s g
Supports BasisSource.case_material p g =
    (s : String) × (get g.reference p.material_texts ≡ some s)
    × (is_in p.self_attested_material_ids g.reference ≡ false)
    × IsQuotedFrom s g
Supports BasisSource.accepted_revision p g =
    (s : String) × (get g.reference p.accepted_revision_texts ≡ some s) × IsQuotedFrom s g

abbrev pub IsGrounded : RereviewPacket → GroundedBasis → Type 0
IsGrounded p g = Supports g.source p g

located-quote :
    (s quote : String) (a b : ℕ) (g : GroundedBasis)
    → locate s quote ≡ ok (a, b)
    → g.span ≡ some (a, b)
    → g.quote ≡ strip quote
    → IsQuotedFrom s g
located-quote s quote a b g l span q =
    let (filled, once, stop) = (locate_iff s quote a b).0 l in
    let whole : slice a b s ≡ quote = rw stop (slice-occurs quote a s once.0) in
    (a, b, span, rw whole once, rw whole q, λ e. filled (cc))

quoted-ok :
    (source : BasisSource) (reference quote : String) (sha256 : Option (Option String))
    (found : Option String) (g : GroundedBasis)
    → quoted source reference quote sha256 found ≡ ok g
    → (s : String) × (found ≡ some s)
      × (g.source ≡ source)
      × (g.reference ≡ reference)
      × IsQuotedFrom s g
quoted-ok source reference quote sha256 none g h = absurd (ground arith)
quoted-ok source reference quote sha256 (some s) g h =
    let ((a, b), l, e) = >>=-eq-ok (locate s quote) _ h in
    (
      s,
      refl,
      ground arith,
      ground arith,
      located-quote s quote a b g l (ground arith) (ground arith),
    )

abbrev IsGroundedAs : BasisSource → RereviewPacket → GroundedBasis → Type 0
IsGroundedAs source p g = (g.source ≡ source) × Supports source p g

issue-IsGrounded :
    (o : Option String) (reference : String) (g : GroundedBasis)
    → (if or_empty o == "" || reference != or_empty o
        then err value_error
        else ok (referred BasisSource.issue reference))
      ≡ ok g
    → (g.source ≡ BasisSource.issue) × ((o ≡ some g.reference) × (g.reference ≢ ""))
issue-IsGrounded none reference g h = absurd (ground arith)
issue-IsGrounded (some i) reference g h = (
  ground arith,
  (ground (arith, eq_iff reference i), λ e. ground (arith, eq_iff reference i, eq_iff i "")),
)

ground_source-IsGrounded :
    (source : BasisSource) (reference quote : String) (p : RereviewPacket) (g : GroundedBasis)
    → ground_source source reference quote p ≡ ok g
    → IsGroundedAs source p g
unfolding ground_source
ground_source-IsGrounded BasisSource.user_statement reference quote p g h =
    let (s, e, source, r, q) =
      quoted-ok BasisSource.user_statement "" quote none (some p.user_statement) g h in
    let same : p.user_statement ≡ s = ground arith in (source, rw same q)
ground_source-IsGrounded BasisSource.issue reference quote p g h =
    issue-IsGrounded p.issue_id reference g h
ground_source-IsGrounded BasisSource.legal_basis reference quote p g h =
    elim (Bool-cases (is_in p.citable_chunk_ids reference)) [
      | inl e ↦ let r : g.reference ≡ reference = ground arith in (ground arith, rw r e)
      | inr e ↦ absurd (ground arith)
    ]
ground_source-IsGrounded BasisSource.attachment reference quote p g h =
    elim (Bool-cases (is_no_file (find (λ a. a.evidence_id == reference) p.attachments))) [
      | inl e ↦ absurd (ground arith)
      | inr e ↦
          let (s, found, source, r, q) = quoted-ok _ reference quote _ _ g (rw e at h) in
          (source, (s, rw r found, rw r (is_no_file-IsFile _ e), q))
    ]
ground_source-IsGrounded BasisSource.case_material reference quote p g h =
    elim (Bool-cases (is_in p.self_attested_material_ids reference)) [
      | inl e ↦ absurd (ground arith)
      | inr e ↦
          let (s, found, source, r, q) = quoted-ok _ reference quote _ _ g (rw e at h) in
          (source, (s, rw r found, rw r e, q))
    ]
ground_source-IsGrounded BasisSource.accepted_revision reference quote p g h =
    let (s, found, source, r, q) = quoted-ok _ reference quote _ _ g h in
    (source, (s, rw r found, q))

abbrev pub AreGrounded : RereviewPacket → List GroundedBasis → Type 0
AreGrounded p gs = All (IsGrounded p) gs

ground_basis-IsGrounded :
    (b : AssessmentBasisDraft) (p : RereviewPacket) (g : GroundedBasis)
    → ground_basis b p ≡ ok g
    → IsGrounded p g
unfolding ground_basis
ground_basis-IsGrounded b p g h =
    let (source, held) = ground_source-IsGrounded b.source (strip b.reference) b.quote p g h in
    subst (λ s. Supports s p g) (sym source) held

ground_all-AreGrounded :
    (bs : List AssessmentBasisDraft) (p : RereviewPacket) (gs : List GroundedBasis)
    → ground_all bs p ≡ ok gs
    → AreGrounded p gs
unfolding ground_all
ground_all-AreGrounded [] p gs h = let none_left : gs ≡ [] = ground arith in rw none_left tt
ground_all-AreGrounded (b ∷ bs) p gs h =
    let (g, here, rest) = >>=-eq-ok (ground_basis b p) _ h in
    let (more, there, last) = >>=-eq-ok (ground_all bs p) _ rest in
    let e : gs ≡ g ∷ more = ground arith in
    rw e (ground_basis-IsGrounded b p g here, ground_all-AreGrounded bs p more there)

pub ground_points-AreGrounded :
    (points : List AssessmentPointDraft) (p : RereviewPacket) (cs : List ConfirmedPoint)
    → ground_points points p ≡ ok cs
    → All (λ c. AreGrounded p c.basis) cs
unfolding ground_points
ground_points-AreGrounded [] p cs h = let none_left : cs ≡ [] = ground arith in rw none_left tt
ground_points-AreGrounded (x ∷ xs) p cs h =
    let (u, checked, after) = >>=-eq-ok (raise_if (not (has_items x.basis)) value_error) _ h in
    let (basis, here, rest) = >>=-eq-ok (ground_all x.basis p) _ after in
    let (more, there, last) = >>=-eq-ok (ground_points xs p) _ rest in
    let e : cs ≡ record { text = strip x.text; basis = basis } ∷ more = ground arith in
    rw e (ground_all-AreGrounded x.basis p basis here, ground_points-AreGrounded xs p more there)
