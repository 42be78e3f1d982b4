-- ===== src/Assessment/Packet.antt =====
-- What a review of remediation can check, in law_agent/review/remediation.py: the packet.
use crosscomply_agent.Prelude.{
  String, Bool, ◌&&◌, Option, none, some, List, [], ◌∷◌, ◌==◌, ◌!=◌, any, if◌then◌else◌, truthy,
  Dict, put, map, select, ◌++◌,
}
use crosscomply_agent.Workflow.Strip.{strip}
use crosscomply_agent.Enterprise.Records.{MaterialVersion}

-- A submission's attachment, as text where it could be read.
pub record RereviewAttachment : Type 0 where
  pub evidence_id : String
  pub kind : String
  pub label : String
  pub text : Option String
  pub sha256 : Option String
  pub uri : Option String

-- The field `text` is the prompt of the model; the gate does not read it.
pub record RereviewPacket : Type 0 where
  pub text : String
  pub issue_id : Option String
  pub task_kind : String
  pub user_statement : String
  pub material_texts : Dict String
  pub self_attested_material_ids : List String
  pub citable_chunk_ids : List String
  pub accepted_revision_texts : Dict String
  pub attachments : List RereviewAttachment

-- Membership in a set of texts.
abbrev pub is_in : List String → String → Bool
is_in xs x = any (λ y. x == y) xs

-- The texts that were read, by attachment: one that is absent, empty or blank is left out, and of
-- two with one identifier the later counts.
abbrev pub put_text : RereviewAttachment → Option String → Dict String → Dict String
put_text a none d = d
put_text a (some s) d = if strip s != "" then put a.evidence_id s d else d

abbrev pub texts_from : List RereviewAttachment → Dict String → Dict String
texts_from [] d = d
texts_from (a ∷ rest) d = texts_from rest (put_text a a.text d)

unfoldable pub attachment_texts : RereviewPacket → Dict String
attachment_texts p = texts_from p.attachments []

-- The digests, by attachment, where there is one.
abbrev pub put_digest : RereviewAttachment → Option String → Dict String → Dict String
put_digest a none d = d
put_digest a (some h) d = if h != "" then put a.evidence_id h d else d

abbrev pub digests_from : List RereviewAttachment → Dict String → Dict String
digests_from [] d = d
digests_from (a ∷ rest) d = digests_from rest (put_digest a a.sha256 d)

unfoldable pub attachment_sha256 : RereviewPacket → Dict String
attachment_sha256 p = digests_from p.attachments []

-- `text or ""`
abbrev pub or_empty : Option String → String
or_empty none = ""
or_empty (some s) = s

-- The texts of the case's materials that were read.
abbrev pub add_material : MaterialVersion → Dict String → Dict String
add_material v d =
    if strip (or_empty v.parsed_text) != "" then put v.id (or_empty v.parsed_text) d else d

abbrev pub material_texts_from : List MaterialVersion → Dict String → Dict String
material_texts_from [] d = d
material_texts_from (v ∷ rest) d = material_texts_from rest (add_material v d)

-- `parser == "applicant-guidance"`: what the applicant says, and no material.
abbrev pub is_guidance : MaterialVersion → Bool
is_guidance v = or_empty v.parser == "applicant-guidance"

abbrev pub self_attested_ids : List MaterialVersion → List String
self_attested_ids versions = map (λ v. v.id) (select is_guidance versions)

-- The keys that are read of a citation in a review's evidence.
pub record Citation : Type 0 where
  pub chunk_id : Option String
  pub can_cite_clause : Bool
  pub full_article_text : Option String

abbrev pub is_citable : Citation → Bool
is_citable c =
    c.can_cite_clause && strip (or_empty c.full_article_text) != "" && or_empty c.chunk_id != ""

-- The chunks of all groups of the evidence that may be cited.
abbrev pub citable_ids : List (List Citation) → List String
citable_ids [] = []
citable_ids (group ∷ rest) =
    map (λ c. or_empty c.chunk_id) (select is_citable group) ++ citable_ids rest

-- The keys that are read of an accepted revision.
pub record AcceptedRevision : Type 0 where
  pub id : String
  pub result_text : Option String

abbrev pub add_revision : AcceptedRevision → Dict String → Dict String
add_revision r d =
    if strip (or_empty r.result_text) != "" then put r.id (or_empty r.result_text) d else d

abbrev pub accepted_texts_from : List AcceptedRevision → Dict String → Dict String
accepted_texts_from [] d = d
accepted_texts_from (r ∷ rest) d = accepted_texts_from rest (add_revision r d)

-- The prompt's lines are the argument `text`. A task without a kind is one on a control.
unfoldable pub build_rereview_packet :
    (text : String) (task_kind issue_id note : Option String)
    → List MaterialVersion
    → List (List Citation)
    → List AcceptedRevision
    → List RereviewAttachment
    → RereviewPacket
build_rereview_packet text task_kind issue_id note versions evidence revisions attachments =
    record {
      text = text;
      issue_id = issue_id;
      task_kind = if truthy task_kind then or_empty task_kind else "control_remediation";
      user_statement = or_empty note;
      material_texts = material_texts_from versions [];
      self_attested_material_ids = self_attested_ids versions;
      citable_chunk_ids = citable_ids evidence;
      accepted_revision_texts = accepted_texts_from revisions [];
      attachments = attachments;
    }
