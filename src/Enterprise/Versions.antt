-- ===== src/Enterprise/Versions.antt =====
-- The versions of a case's materials (law_agent/review/enterprise_store.py).
use crosscomply_agent.Prelude.{
  ℕ, ◌+◌, ◌≤◌, ◌<◌, String, true, false, none, some, List, [], ◌∷◌, ◌≡◌, refl, ap, ◌∙◌, ◌↔◌, ◌==◌,
  eq_iff, eq_refl, get, put, get-put_self, values, select, length, any, All, All-put, Dict, ok,
  arith, Bool-cases, Option-cases, inl, inr, if◌then◌else◌, PairDict, get_pair,
  get_pair-put_pair_self,
}
use crosscomply_agent.Enterprise.Records.{MaterialVersion, EnterpriseStore}
use crosscomply_agent.Enterprise.Materials.{
  MaterialUpload, create_material_version, set_default, reject_multiple_versions,
}

-- No two rows are versions of one material.
abbrev pub HasDistinctMaterials : List MaterialVersion → Type 0
HasDistinctMaterials [] = Unit
HasDistinctMaterials (r ∷ rs) =
    All (λ x. (r.material_id == x.material_id) ≡ false) rs × HasDistinctMaterials rs

-- No row is a version of a material that was seen.
abbrev AreUnseen : List String → List MaterialVersion → Type 0
AreUnseen seen rs = All (λ x. any (λ m. m == x.material_id) seen ≡ false) rs

unseen_of_cons :
    (m : String) (seen : List String) (rs : List MaterialVersion)
    → AreUnseen (m ∷ seen) rs
    → All (λ x. (m == x.material_id) ≡ false) rs × AreUnseen seen rs
unseen_of_cons m seen [] h = (tt, tt)
unseen_of_cons m seen (x ∷ rs) h =
    let (a, b) = unseen_of_cons m seen rs h.1 in
    ((ground (arith, h.0), a), (ground (arith, h.0), b))

cons_of_unseen :
    (m : String) (seen : List String) (rs : List MaterialVersion)
    → All (λ x. (m == x.material_id) ≡ false) rs
    → AreUnseen seen rs
    → AreUnseen (m ∷ seen) rs
cons_of_unseen m seen [] a b = tt
cons_of_unseen m seen (x ∷ rs) a b = (ground (arith, a.0, b.0), cons_of_unseen m seen rs a.1 b.1)

seen_iff :
    (seen : List String) (rs : List MaterialVersion)
    → (reject_multiple_versions seen rs ≡ ok tt) ↔ (AreUnseen seen rs × HasDistinctMaterials rs)
unfolding reject_multiple_versions
seen_iff seen [] = (λ h. (tt, tt), λ h. refl)
seen_iff seen (r ∷ rs) =
    let ih = seen_iff (r.material_id ∷ seen) rs in
    elim (Bool-cases (any (λ m. m == r.material_id) seen)) [
      | inl e ↦ (λ h. absurd (ground (arith, e, h)), λ h. absurd (ground (arith, e, h.0.0)))
      | inr e ↦ (
        λ h.
            let (u, d) = ih.0 (ground (arith, e, h)) in
            let (a, b) = unseen_of_cons r.material_id seen rs u in ((e, b), (a, d)),
        λ ((_, b), (a, d)). ground (arith, e, ih.1 (cons_of_unseen r.material_id seen rs a b, d)),
      )
    ]

nothing_seen : (rs : List MaterialVersion) → AreUnseen [] rs
nothing_seen [] = tt
nothing_seen (r ∷ rs) = (refl, nothing_seen rs)

-- A snapshot may freeze a list of versions exactly when no two of them are versions of one material.
pub reject_multiple_versions_iff :
    (rs : List MaterialVersion) → (reject_multiple_versions [] rs ≡ ok tt) ↔ HasDistinctMaterials rs
reject_multiple_versions_iff rs =
    (λ h. ((seen_iff [] rs).0 h).1, λ h. (seen_iff [] rs).1 (nothing_seen rs, h))

-- The number of versions of a material.
abbrev pub version_count : String → Dict MaterialVersion → ℕ
version_count m d = length (select (λ v. v.material_id == m) (values d))

version_count-put :
    (m id : String) (v : MaterialVersion) (d : Dict MaterialVersion)
    → get id d ≡ none
    → version_count m (put id v d) ≡ version_count m d + (if v.material_id == m then 1 else 0)
version_count-put m id v [] h = ground arith
version_count-put m id v ((j, w) ∷ d) h = ground (arith, version_count-put m id v d)

-- No version has a higher number than there are versions of its material.
abbrev pub AreNumbered : Dict MaterialVersion → Type 0
AreNumbered d = All (λ w. w.version_number ≤ version_count w.material_id d) (values d)

All-version_count :
    (d e : Dict MaterialVersion) (ws : List MaterialVersion)
    → ((m : String) → version_count m d ≤ version_count m e)
    → All (λ w. w.version_number ≤ version_count w.material_id d) ws
    → All (λ w. w.version_number ≤ version_count w.material_id e) ws
All-version_count d e [] more h = tt
All-version_count d e (w ∷ ws) more h =
    (omega (arith, h.0, more w.material_id), All-version_count d e ws more h.1)

below_next :
    (m : String) (d : Dict MaterialVersion) (ws : List MaterialVersion)
    → All (λ w. w.version_number ≤ version_count w.material_id d) ws
    → All (λ w. (w.material_id == m) ≡ true → w.version_number < version_count m d + 1) ws
below_next m d [] h = tt
below_next m d (w ∷ ws) h = (
  λ e.
      let same : version_count w.material_id d ≡ version_count m d =
        ap (λ x. version_count x d) ((eq_iff w.material_id m).0 e) in
      omega (arith, h.0, same),
  below_next m d ws h.1,
)

-- A new version is the latest of its material: it is stored, under a number above that of every
-- version of the material before it, and afterwards too no version has a higher number than there
-- are versions of its material, if that was so before and the identifier is new.
pub new_version_is_latest :
    (u : MaterialUpload) (m id : String) (now : ℕ) (s : EnterpriseStore)
    → get id s.material_versions ≡ none
    → AreNumbered s.material_versions
    → (get id (create_material_version u m id now s).1.material_versions
        ≡ some (create_material_version u m id now s).0)
      × All
          (λ w.
            (w.material_id == (create_material_version u m id now s).0.material_id) ≡ true
            → w.version_number < (create_material_version u m id now s).0.version_number)
          (values s.material_versions)
      × AreNumbered (create_material_version u m id now s).1.material_versions
unfolding create_material_version
new_version_is_latest u m id now s f h =
    let v = (create_material_version u m id now s).0 in
    let d = s.material_versions in
    (
      get-put_self id v d,
      below_next v.material_id d (values d) h,
      All-put (λ w. w.version_number ≤ version_count w.material_id (put id v d)) id v d
          (ground (arith, version_count-put v.material_id id v d f, eq_refl v.material_id))
          (All-version_count d (put id v d) (values d)
            (λ x. omega (arith, version_count-put x id v d f)) h),
    )

set_default-get :
    (k l v : String) (d : PairDict String)
    → get_pair k l (set_default k l v d).1 ≡ some (set_default k l v d).0
set_default-get k l v d = elim (Option-cases (get_pair k l d)) [
  | inl e ↦ ground (arith, e, get_pair-put_pair_self k l v d)
  | inr (w, e) ↦ ground (arith, e)
]

set_default_of_known :
    (k l v w : String) (d : PairDict String) → get_pair k l d ≡ some w → (set_default k l v d).0 ≡ w
set_default_of_known k l v w d e = ground (arith, e)

-- Two uploads for one case and name, one after the other, are versions of one material, with numbers
-- that follow one another, whatever identifiers were drawn, if that of the first version was new.
pub next_upload_lem :
    (u u' : MaterialUpload) (m id m' id' : String) (now now' : ℕ) (s : EnterpriseStore)
    → u'.case_id ≡ u.case_id
    → u'.logical_name ≡ u.logical_name
    → get id s.material_versions ≡ none
    → ((create_material_version u' m' id' now'
          (create_material_version u m id now s).1).0.material_id
        ≡ (create_material_version u m id now s).0.material_id)
      × ((create_material_version u' m' id' now'
            (create_material_version u m id now s).1).0.version_number
          ≡ (create_material_version u m id now s).0.version_number + 1)
unfolding create_material_version
next_upload_lem u u' m id m' id' now now' s c n f =
    let v = (create_material_version u m id now s).0 in
    let d = put id v s.material_versions in
    let ids = (set_default u.case_id u.logical_name m s.material_ids).1 in
    let known : get_pair u'.case_id u'.logical_name ids ≡ some v.material_id =
      ap (λ x. get_pair x u'.logical_name ids) c
      ∙ ap (λ x. get_pair u.case_id x ids) n
      ∙ set_default-get u.case_id u.logical_name m s.material_ids in
    let same = set_default_of_known u'.case_id u'.logical_name m' v.material_id ids known in
    (
      same,
      ap (λ x. version_count x d + 1) same
          ∙ ground (
            arith,
            version_count-put v.material_id id v s.material_versions f,
            eq_refl v.material_id,
          ),
    )
