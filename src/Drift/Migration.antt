-- ===== src/Drift/Migration.antt =====
-- How the hash controller of pkg/controllers/nodeclass/hash/controller.go and the drift check of
-- pkg/cloudprovider/drift.go fit together.
use karpenter_provider_huawe.Base.{
  ◌≡◌, ◌∙◌, refl, ap, eq_refl, String, true, List, [], ◌∷◌, Option, none, some, ◌==◌, ◌||◌,
  if◌then◌else◌, Error, arith, eq_iff, Bool-cases, inl, inr,
}
use karpenter_provider_huawe.Base.Maps.{Map, lookup, insert, lookup-insert}
use karpenter_provider_huawe.Drift.{
  Claim, DriftReason, no_drift, node_class_drift, static_drift, are_static_fields_drifted,
  migrate_claim, annotate, is_annotated, is_current, or_empty, annotation_hash,
  annotation_hash_version, hash_version, Server, reconcile, update_claims, patch_class,
  then_patch_class,
}

-- Whether the hash that a claim carries is another one.
abbrev pub changed : Option String → String → DriftReason
changed none value = no_drift
changed (some h) value = if value == h then no_drift else node_class_drift

static_drift-changed :
    (value : String) (claim_hash : Option String)
    → static_drift (some value) (some hash_version) claim_hash (some hash_version)
      ≡ changed claim_hash value
unfolding static_drift
static_drift-changed value none = refl
static_drift-changed value (some h) = elim (Bool-cases (value == h)) [
  | inl e ↦ rw e refl
  | inr e ↦ rw e refl
]

pub annotated-drift :
    (value : String) (claim annotations : Map String)
    → lookup annotation_hash_version claim ≡ some hash_version
    → are_static_fields_drifted claim (annotate value annotations)
      ≡ changed (lookup annotation_hash claim) value
unfolding are_static_fields_drifted annotate
annotated-drift value claim annotations e =
    rw
      (
        lookup-insert annotation_hash_version annotation_hash hash_version
            (insert annotation_hash value annotations),
        lookup-insert annotation_hash annotation_hash value annotations,
        lookup-insert annotation_hash_version annotation_hash_version hash_version
            (insert annotation_hash value annotations),
        e,
      )
      (static_drift-changed value (lookup annotation_hash claim))

current_version : (o : Option String) → (or_empty o == hash_version) ≡ true → o ≡ some hash_version
current_version none h = cc
current_version (some v) h = ap some ((eq_iff v hash_version).0 h)

is_current-version :
    (claim : Map String)
    → is_current claim ≡ true
    → lookup annotation_hash_version claim ≡ some hash_version
unfolding is_current
is_current-version claim = current_version (lookup annotation_hash_version claim)

-- Once the class is annotated and its claim migrated, a claim that carried an older version and had not
-- drifted has not drifted; any other claim has exactly if it carries another hash than the class.
pub migrate_claim-drift :
    (value : String) (claim : Claim) (annotations : Map String)
    → are_static_fields_drifted (migrate_claim value claim).annotations (annotate value annotations)
      ≡ (if is_current claim.annotations || claim.drifted
          then changed (lookup annotation_hash claim.annotations) value
          else no_drift)
unfolding migrate_claim
migrate_claim-drift value claim annotations = elim (Bool-cases (is_current claim.annotations)) [
  | inl e ↦
      rw e (
        annotated-drift value claim.annotations annotations
          (is_current-version claim.annotations e))
  | inr e ↦ elim (Bool-cases claim.drifted) [
    | inl d ↦
        rw (e, d)
          (annotated-drift value (insert annotation_hash_version hash_version claim.annotations)
              annotations
              (lookup-insert annotation_hash_version annotation_hash_version hash_version
                claim.annotations)
            ∙ ap (λ o. changed o value)
                (lookup-insert annotation_hash_version annotation_hash hash_version
                  claim.annotations))
    | inr d ↦
        rw (e, d)
          (annotated-drift value
              (insert annotation_hash value
                (insert annotation_hash_version hash_version claim.annotations))
              annotations
              (lookup-insert annotation_hash annotation_hash_version value
                  (insert annotation_hash_version hash_version claim.annotations)
                ∙ lookup-insert annotation_hash_version annotation_hash_version hash_version
                    claim.annotations)
            ∙ ap (λ o. changed o value)
                (lookup-insert annotation_hash annotation_hash value
                  (insert annotation_hash_version hash_version claim.annotations))
            ∙ rw (eq_refl value) refl)
  ]
]

annotate-is_annotated :
    (value : String) (a : Map String) → is_annotated value (annotate value a) ≡ true
unfolding is_annotated is_current annotate
annotate-is_annotated value a =
    rw
      (
        lookup-insert annotation_hash_version annotation_hash_version hash_version
            (insert annotation_hash value a),
        lookup-insert annotation_hash_version annotation_hash hash_version
            (insert annotation_hash value a),
        lookup-insert annotation_hash annotation_hash value a,
      )
      (eq_refl value)

patch_class-is_annotated :
    (value : String) (s : Server)
    → is_annotated value (patch_class none value s).1.annotations ≡ true
unfolding patch_class
patch_class-is_annotated value s = elim (Bool-cases (is_annotated value s.annotations)) [
  | inl e ↦ rw (e, patch_class) (rw e)
  | inr e ↦ rw (e, patch_class) (annotate-is_annotated value s.annotations)
]

update_claims-no_errors :
    (value : String) (cs : List Claim) → (update_claims (λ c. none) value cs).1 ≡ []
unfolding update_claims
update_claims-no_errors value [] = refl
update_claims-no_errors value (c ∷ cs) = elim (Bool-cases (is_current c.annotations)) [
  | inl e ↦ rw e (update_claims-no_errors value cs)
  | inr e ↦ rw e (update_claims-no_errors value cs)
]

reconcile-is_annotated :
    (value : String) (s : Server)
    → is_annotated value (reconcile none (λ c. none) none value s).1.annotations ≡ true
unfolding reconcile then_patch_class
reconcile-is_annotated value s = elim (Bool-cases (is_current s.annotations)) [
  | inl e ↦ rw e (patch_class-is_annotated value s)
  | inr e ↦
      rw (e, update_claims-no_errors value s.claims)
        (patch_class-is_annotated value
          (record s { claims = (update_claims (λ c. none) value s.claims).0 }))
]

is_annotated-is_current :
    (value : String) (a : Map String) → is_annotated value a ≡ true → is_current a ≡ true
unfolding is_annotated
is_annotated-is_current value a h = ground arith

-- After a round in which the API server refuses nothing, a further round with the same hash
-- changes nothing and meets no error, whatever the API server would answer.
pub reconcile_again :
    (value : String) (s : Server) (listed : Option Error) (patch : Claim → Option Error)
    (refused : Option Error)
    → let once = (reconcile none (λ c. none) none value s).1 in
      reconcile listed patch refused value once ≡ ([], once)
unfolding reconcile patch_class
reconcile_again value s listed patch refused = settled _ (reconcile-is_annotated value s)
  where
    settled :
        (t : Server)
        → is_annotated value t.annotations ≡ true
        → reconcile listed patch refused value t ≡ ([], t)
    settled t e = rw (is_annotated-is_current value t.annotations e, e) refl
