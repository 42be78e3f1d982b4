-- ===== src/Governance/Reports.antt =====
-- Records of decision reports, in law_agent/review/governance_store.py.
use Prim.Native.Char.{Char, code}
use Prim.Native.String.{String, [], ◌∷◌}
use crosscomply_agent.Prelude.{
  ℕ, suc, Bool, true, not, ◌&&◌, ◌||◌, Option, none, some, ◌==◌, ◌!=◌, nat_eq, leb, get, put, item,
  List, values, select, get_last?, Result, ok, value_error, raise_if, ◌>>=◌, ◌>>◌, if◌then◌else◌,
}
use crosscomply_agent.Governance.Records.{ApprovalRecord, ReportRecord, GovernanceStore}

-- `char in "0123456789abcdefABCDEF"`
abbrev pub is_hex_digit : Char → Bool
is_hex_digit c =
    leb 48 (code c) && leb (code c) 57
    || leb 97 (code c) && leb (code c) 102
    || leb 65 (code c) && leb (code c) 70

-- `not any(char not in … for char in sha256)`
abbrev pub all_hex_digits : String → Bool
all_hex_digits [] = true
all_hex_digits (c ∷ s) = is_hex_digit c && all_hex_digits s

-- `len(text)`
abbrev pub text_length : String → ℕ
text_length [] = 0
text_length (c ∷ s) = suc (text_length s)

unfoldable pub validate_digest : String → Result (Unit {0})
validate_digest sha256 =
    raise_if (not (nat_eq (text_length sha256) 64) || not (all_hex_digits sha256)) value_error

-- `str.lower` on a hexadecimal digit.
abbrev pub lower_digit : Char → Char
lower_digit c =
    if nat_eq (code c) 65
    then "a"
    else if nat_eq (code c) 66
    then "b"
    else if nat_eq (code c) 67
    then "c"
    else if nat_eq (code c) 68
    then "d"
    else if nat_eq (code c) 69
    then "e"
    else if nat_eq (code c) 70
    then "f"
    else c

-- `sha256.lower()`, which only texts of hexadecimal digits reach.
unfoldable pub lower : String → String
lower [] = []
lower (c ∷ s) = lower_digit c ∷ lower s

-- `approval is None or approval.case_id != case_id`
abbrev pub is_other_case : String → Option ApprovalRecord → Bool
is_other_case case_id none = true
is_other_case case_id (some approval) = approval.case_id != case_id

abbrev pub is_other_report : ReportRecord → ReportRecord → Bool
is_other_report new existing =
    existing.case_id != new.case_id
    || existing.approval_id != new.approval_id
    || existing.sha256 != new.sha256
    || existing.metadata != new.metadata

-- The report that stands under the object key already, or the new one.
unfoldable pub report_or_new :
    Option String → ReportRecord → GovernanceStore → Result (ReportRecord × GovernanceStore)
report_or_new (some existing_id) new s = do
  existing ← item existing_id s.reports
  raise_if (is_other_report new existing) value_error
  ok (existing, s)
report_or_new none new s = ok (
  new,
  record s {
    reports = put new.id new s.reports;
    report_by_object_key = put new.object_key new.id s.report_by_object_key;
  },
)

-- `metadata` is the JSON text of `metadata or {}`.
unfoldable pub create_report_record :
    (case_id approval_id object_key sha256 metadata new_id : String) (now : ℕ)
    → GovernanceStore
    → Result (ReportRecord × GovernanceStore)
create_report_record case_id approval_id object_key sha256 metadata new_id now s = do
  validate_digest sha256
  raise_if (is_other_case case_id (get approval_id s.approvals)) value_error
  report_or_new (get object_key s.report_by_object_key)
      (record {
        id = new_id;
        case_id = case_id;
        approval_id = approval_id;
        object_key = object_key;
        sha256 = lower sha256;
        metadata = metadata;
        created_at = now;
      })
      s

unfoldable pub get_report : String → GovernanceStore → Option ReportRecord
get_report report_id s = get report_id s.reports

unfoldable pub list_reports : String → GovernanceStore → List ReportRecord
list_reports case_id s = select (λ r. r.case_id == case_id) (values s.reports)

unfoldable pub get_latest_report : String → GovernanceStore → Option ReportRecord
unfolding list_reports
get_latest_report case_id s = get_last? (list_reports case_id s)
