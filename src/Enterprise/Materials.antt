-- ===== src/Enterprise/Materials.antt =====
-- Material versions and the frozen snapshots of `InMemoryEnterpriseStore`, in
-- law_agent/review/enterprise_store.py. `now` is the clock's reading, and each `new_…` an
-- identifier that `uuid4` gives; `canonical_hash` is SHA-256 over canonical JSON.
use text.Mathlib.Text.{is_lt}
use Prim.Native.String.{compare}
use crosscomply_agent.Prelude.{
  item, ℕ, ◌+◌, String, Bool, true, false, ◌&&◌, ◌||◌, Option, none, some, List, [], ◌∷◌, map, ◌==◌,
  ◌!=◌, ltb, leb, any, select, find, length, get, put, values, get_pair, put_pair, Result, ok, err,
  value_error, if◌then◌else◌, raise_if, ◌>>=◌, ◌>>◌,
}
use crosscomply_agent.Prelude.Sort.{sorted}
use crosscomply_agent.Enterprise.Records.{
  ParseStatus, MaterialVersion, MaterialSnapshot, IntakeSnapshot, EnterpriseStore, HashInput,
}

-- The arguments of `create_material_version`.
pub record MaterialUpload : Type 0 where
  pub case_id : String
  pub logical_name : String
  pub filename : String
  pub content_type : String
  pub object_key : String
  pub sha256 : String
  pub byte_size : ℕ
  pub uploaded_by : String
  pub parse_status : ParseStatus
  pub parser : Option String
  pub parser_version : Option String
  pub parsed_text : Option String

-- `d.setdefault((k, l), v)`
abbrev pub set_default :
    String
    → String
    → String
    → List (String × String × String)
    → String × List (String × String × String)
set_default k l v d = elim (get_pair k l d) [ some w ↦ (w, d) | none ↦ (v, put_pair k l v d) ]

unfoldable pub create_material_version :
    (upload : MaterialUpload) (new_material_id new_version_id : String) (now : ℕ)
    → EnterpriseStore
    → MaterialVersion × EnterpriseStore
create_material_version upload new_material_id new_version_id now s =
    let (material_id, ids) =
      set_default upload.case_id upload.logical_name new_material_id s.material_ids in
    let prior_versions = select (λ v. v.material_id == material_id) (values s.material_versions) in
    let version : MaterialVersion = record {
      id = new_version_id;
      material_id = material_id;
      case_id = upload.case_id;
      logical_name = upload.logical_name;
      version_number = length prior_versions + 1;
      filename = upload.filename;
      content_type = upload.content_type;
      object_key = upload.object_key;
      sha256 = upload.sha256;
      byte_size = upload.byte_size;
      uploaded_by = upload.uploaded_by;
      parse_status = upload.parse_status;
      parser = upload.parser;
      parser_version = upload.parser_version;
      parsed_text = upload.parsed_text;
      created_at = now;
    } in
    (
      version,
      record s {
        material_versions = put new_version_id version s.material_versions;
        material_ids = ids;
      },
    )

-- The loop that looks every version up, and refuses one that is not of the case.
unfoldable pub versions_of : String → List String → EnterpriseStore → Result (List MaterialVersion)
versions_of case_id [] s = ok []
versions_of case_id (id ∷ ids) s =
    let rest = versions_of case_id ids s in
    elim (get id s.material_versions) [
      | none ↦ err value_error
      | some version ↦
          if version.case_id != case_id
          then err value_error
          else (do more ← rest; ok (version ∷ more))
    ]

-- The loop with its set `seen`.
unfoldable pub reject_multiple_versions : List String → List MaterialVersion → Result (Unit {0})
reject_multiple_versions seen [] = ok tt
reject_multiple_versions seen (row ∷ rows) =
    let rest = reject_multiple_versions (row.material_id ∷ seen) rows in
    if any (λ m. m == row.material_id) seen then err value_error else rest

-- The key `(logical_name, version_number)` of `a` is smaller than that of `b`.
abbrev pub precedes : MaterialVersion → MaterialVersion → Bool
precedes a b =
    is_lt (compare a.logical_name b.logical_name)
    || a.logical_name == b.logical_name && ltb a.version_number b.version_number

-- `self.snapshots[existing_id]`, or a new snapshot under both its keys.
abbrev pub snapshot_or_new :
    Option String → MaterialSnapshot → EnterpriseStore → Result (MaterialSnapshot × EnterpriseStore)
snapshot_or_new (some existing_id) snapshot s = do
  found ← item existing_id s.snapshots
  ok (found, s)
snapshot_or_new none snapshot s = ok (
  snapshot,
  record s {
    snapshots = put snapshot.id snapshot s.snapshots;
    snapshot_by_fingerprint =
        put_pair snapshot.case_id snapshot.fingerprint snapshot.id s.snapshot_by_fingerprint;
  },
)

abbrev pub is_empty {ℓ} : {A : Type ℓ} → List A → Bool
is_empty [] = true
is_empty (_ ∷ _) = false

-- The material snapshot is there and is of the case.
abbrev pub case_snapshot : String → Option MaterialSnapshot → Result MaterialSnapshot
case_snapshot case_id none = err value_error
case_snapshot case_id (some snapshot) =
    if snapshot.case_id != case_id then err value_error else ok snapshot

abbrev pub has_fingerprint : (case_id fingerprint : String) → IntakeSnapshot → Bool
has_fingerprint case_id fingerprint e = e.case_id == case_id && e.fingerprint == fingerprint

-- The facts that are frozen already, or the new ones.
abbrev pub intake_or_new :
    Option IntakeSnapshot → IntakeSnapshot → EnterpriseStore → IntakeSnapshot × EnterpriseStore
intake_or_new (some existing) new s = (existing, s)
intake_or_new none new s = (new, record s { intake_snapshots = put new.id new s.intake_snapshots })

module _ (canonical_hash : HashInput → String) where
  abbrev pub fingerprint_of : List MaterialVersion → String
  fingerprint_of ordered = canonical_hash (HashInput.versions (map (λ v. (v.id, v.sha256)) ordered))

  unfoldable pub create_material_snapshot :
      (case_id : String) (version_ids : List String) (created_by new_id : String) (now : ℕ)
      → EnterpriseStore
      → Result (MaterialSnapshot × EnterpriseStore)
  create_material_snapshot case_id version_ids created_by new_id now s = do
    raise_if (is_empty version_ids) value_error
    versions ← versions_of case_id version_ids s
    reject_multiple_versions [] versions
    let ordered = sorted precedes versions
    let fingerprint = fingerprint_of ordered
    snapshot_or_new (get_pair case_id fingerprint s.snapshot_by_fingerprint)
        (record {
          id = new_id;
          case_id = case_id;
          fingerprint = fingerprint;
          version_ids = map (λ v. v.id) ordered;
          created_by = created_by;
          created_at = now;
        })
        s

  unfoldable pub create_intake_snapshot :
      (case_id material_snapshot_id intake created_by : String) (confirmation_ref : Option String)
      (new_id : String) (now : ℕ)
      → EnterpriseStore
      → Result (IntakeSnapshot × EnterpriseStore)
  create_intake_snapshot case_id material_snapshot_id intake created_by confirmation_ref new_id now
        s =
      do
        snapshot ← case_snapshot case_id (get material_snapshot_id s.snapshots)
        let fingerprint =
            canonical_hash (HashInput.intake snapshot.fingerprint intake confirmation_ref)
        ok (
            intake_or_new (find (has_fingerprint case_id fingerprint) (values s.intake_snapshots))
              (record {
                id = new_id;
                case_id = case_id;
                material_snapshot_id = material_snapshot_id;
                fingerprint = fingerprint;
                intake = intake;
                created_by = created_by;
                created_at = now;
              })
              s)

unfoldable pub get_material_version : String → EnterpriseStore → Option MaterialVersion
get_material_version version_id s = get version_id s.material_versions

unfoldable pub list_material_versions : String → EnterpriseStore → List MaterialVersion
list_material_versions case_id s =
    sorted precedes (select (λ v. v.case_id == case_id) (values s.material_versions))

-- `max(reversed(items), key=created_at, default=None)`: of equal times the item that came last.
abbrev pub latest_from {ℓ} : {A : Type ℓ} → (A → ℕ) → A → List A → A
latest_from time best [] = best
latest_from time best (x ∷ xs) = latest_from time (if leb (time best) (time x) then x else best) xs

abbrev pub latest {ℓ} : {A : Type ℓ} → (A → ℕ) → List A → Option A
latest time [] = none
latest time (x ∷ xs) = some (latest_from time x xs)

unfoldable pub get_latest_material_snapshot : String → EnterpriseStore → Option MaterialSnapshot
get_latest_material_snapshot case_id s =
    latest (λ i. i.created_at) (select (λ i. i.case_id == case_id) (values s.snapshots))

unfoldable pub get_material_snapshot : String → EnterpriseStore → Option MaterialSnapshot
get_material_snapshot snapshot_id s = get snapshot_id s.snapshots

unfoldable pub get_latest_intake_snapshot :
    (case_id material_snapshot_id : String) → EnterpriseStore → Option IntakeSnapshot
get_latest_intake_snapshot case_id material_snapshot_id s =
    latest (λ i. i.created_at)
      (select (λ i. i.case_id == case_id && i.material_snapshot_id == material_snapshot_id)
        (values s.intake_snapshots))

unfoldable pub get_intake_snapshot : String → EnterpriseStore → Option IntakeSnapshot
get_intake_snapshot intake_snapshot_id s = get intake_snapshot_id s.intake_snapshots
