-- ===== src/Assessment/Gate.antt =====
-- The gate that an assessment of remediation passes, in law_agent/review/remediation.py.
use crosscomply_agent.Prelude.{
  ℕ, ◌+◌, ltb, suc, String, Bool, true, false, not, ◌&&◌, ◌||◌, Option, none, some, List, [], ◌∷◌,
  ◌++◌, ◌==◌, ◌!=◌, is_none, map, select, any, find, get, Result, ok, err, value_error, raise_if,
  ◌>>=◌, ◌>>◌, if◌then◌else◌,
}
use crosscomply_agent.Workflow.{has_items}
use crosscomply_agent.Workflow.Strip.{strip}
use crosscomply_agent.Assessment.Text.{len, find_text, find_from}
use crosscomply_agent.Assessment.Packet.{
  RereviewAttachment, RereviewPacket, is_in, attachment_texts, attachment_sha256, or_empty,
}

pub data BasisSource : Type 0 where
  attachment case_material accepted_revision legal_basis issue user_statement : BasisSource

pub data AssessmentStatus : Type 0 where
  resolved partially_resolved not_resolved insufficient_evidence : AssessmentStatus

pub record AssessmentBasisDraft : Type 0 where
  pub source : BasisSource
  pub reference : String
  pub quote : String

pub record AssessmentPointDraft : Type 0 where
  pub text : String
  pub basis : List AssessmentBasisDraft

pub record RemediationAssessmentDraft : Type 0 where
  pub status : AssessmentStatus
  pub summary : String
  pub confirmed_points : List AssessmentPointDraft
  pub remaining_gaps : List String
  pub next_request : String

-- What `_ground_basis` returns. `span` has the two offsets where they are given, and `sha256` is
-- absent but for an attachment.
pub record GroundedBasis : Type 0 where
  pub source : BasisSource
  pub reference : String
  pub quote : String
  pub span : Option (ℕ × ℕ)
  pub sha256 : Option (Option String)

pub record ConfirmedPoint : Type 0 where
  pub text : String
  pub basis : List GroundedBasis

pub record FinalAssessment : Type 0 where
  pub status : AssessmentStatus
  pub summary : String
  pub confirmed_points : List ConfirmedPoint
  pub remaining_gaps : List String
  pub next_request : String
  pub grounded_evidence : List GroundedBasis

-- The offsets of a quote that stands at `start` and at no later place.
abbrev pub only_at : String → String → Option ℕ → Result (ℕ × ℕ)
only_at s quote none = err value_error
only_at s quote (some start) =
    if is_none (find_from quote (suc start) s)
    then ok (start, start + len quote)
    else err value_error

unfoldable pub locate : String → String → Result (ℕ × ℕ)
locate s quote = do raise_if (strip quote == "") value_error; only_at s quote (find_text quote s)

-- A quote that is found in a text which may be absent.
abbrev pub quoted :
    BasisSource → String → String → Option (Option String) → Option String → Result GroundedBasis
quoted source reference quote sha256 none = err value_error
quoted source reference quote sha256 (some s) = do
  span ← locate s quote
  ok (record {
    source = source;
    reference = reference;
    quote = strip quote;
    span = some span;
    sha256 = sha256;
  })

-- A reference without a quote.
abbrev pub referred : BasisSource → String → GroundedBasis
referred source reference = record {
  source = source;
  reference = reference;
  quote = "";
  span = none;
  sha256 = none;
}

-- `attachment is None or attachment.kind != "file"`
abbrev pub is_no_file : Option RereviewAttachment → Bool
is_no_file none = true
is_no_file (some a) = a.kind != "file"

-- `_ground_basis` after its first two lines.
unfoldable pub ground_source :
    BasisSource → (reference quote : String) → RereviewPacket → Result GroundedBasis
ground_source user_statement reference quote p =
    quoted user_statement "" quote none (some p.user_statement)
ground_source issue reference quote p =
    if or_empty p.issue_id == "" || reference != or_empty p.issue_id
    then err value_error
    else ok (referred issue reference)
ground_source legal_basis reference quote p =
    if not (is_in p.citable_chunk_ids reference)
    then err value_error
    else ok (referred legal_basis reference)
ground_source attachment reference quote p =
    if is_no_file (find (λ a. a.evidence_id == reference) p.attachments)
    then err value_error
    else quoted attachment reference quote (some (get reference (attachment_sha256 p)))
        (get reference (attachment_texts p))
ground_source case_material reference quote p =
    if is_in p.self_attested_material_ids reference
    then err value_error
    else quoted case_material reference quote none (get reference p.material_texts)
ground_source accepted_revision reference quote p =
    quoted accepted_revision reference quote none (get reference p.accepted_revision_texts)

unfoldable pub ground_basis : AssessmentBasisDraft → RereviewPacket → Result GroundedBasis
ground_basis basis p = ground_source basis.source (strip basis.reference) basis.quote p

-- `[_ground_basis(item, packet) for item in point.basis]`
unfoldable pub ground_all : List AssessmentBasisDraft → RereviewPacket → Result (List GroundedBasis)
ground_all [] p = ok []
ground_all (b ∷ bs) p = do g ← ground_basis b p; gs ← ground_all bs p; ok (g ∷ gs)

-- `source in ARTIFACT_BASIS_SOURCES`
abbrev pub is_artifact : BasisSource → Bool
is_artifact attachment = true
is_artifact case_material = true
is_artifact accepted_revision = true
is_artifact legal_basis = false
is_artifact issue = false
is_artifact user_statement = false

abbrev pub is_statement : BasisSource → Bool
is_statement user_statement = true
is_statement _ = false

-- The loop over the points: each needs a basis, and each basis is grounded.
unfoldable pub ground_points :
    List AssessmentPointDraft → RereviewPacket → Result (List ConfirmedPoint)
ground_points [] p = ok []
ground_points (point ∷ rest) p = do
  raise_if (not (has_items point.basis)) value_error
  basis ← ground_all point.basis p
  points ← ground_points rest p
  ok (record { text = strip point.text; basis = basis } ∷ points)

-- The counters of the loop, in points.
abbrev pub artifact_point_count : List ConfirmedPoint → ℕ
artifact_point_count [] = 0
artifact_point_count (x ∷ xs) =
    (if any (λ g. is_artifact g.source) x.basis then 1 else 0) + artifact_point_count xs

abbrev pub attested_fact_count : RereviewPacket → List ConfirmedPoint → ℕ
attested_fact_count p [] = 0
attested_fact_count p (x ∷ xs) =
    (if p.task_kind == "fact_confirmation" && any (λ g. is_statement g.source) x.basis
      then 1
      else 0)
    + attested_fact_count p xs

abbrev pub grounded_of : List ConfirmedPoint → List GroundedBasis
grounded_of [] = []
grounded_of (x ∷ xs) = x.basis ++ grounded_of xs

abbrev pub is_resolved : AssessmentStatus → Bool
is_resolved resolved = true
is_resolved _ = false

-- `[item.strip() for item in draft.remaining_gaps if item.strip()]`
abbrev pub stripped_gaps : List String → List String
stripped_gaps gaps = select (λ s. s != "") (map strip gaps)

-- The guards on the status.
abbrev pub is_refused :
    Bool → RemediationAssessmentDraft → RereviewPacket → List ConfirmedPoint → Bool
is_refused true draft p points =
    has_items (stripped_gaps draft.remaining_gaps)
    || not (
        ltb 0 (artifact_point_count points)
        || p.task_kind == "fact_confirmation" && ltb 0 (attested_fact_count p points))
is_refused false draft p points =
    not (has_items (stripped_gaps draft.remaining_gaps)) || strip draft.next_request == ""

unfoldable pub finalize_assessment :
    RemediationAssessmentDraft → RereviewPacket → Result FinalAssessment
finalize_assessment draft p = do
  points ← ground_points draft.confirmed_points p
  raise_if (is_refused (is_resolved draft.status) draft p points) value_error
  ok (record {
    status = draft.status;
    summary = strip draft.summary;
    confirmed_points = points;
    remaining_gaps = stripped_gaps draft.remaining_gaps;
    next_request = strip draft.next_request;
    grounded_evidence = grounded_of points;
  })
