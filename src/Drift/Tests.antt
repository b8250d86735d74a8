-- ===== src/Drift/Tests.antt =====
-- The theorems on drift, at a claim of an older version.
use karpenter_provider_huawe.Base.{◌≡◌, ◌||◌, false, [], ◌∷◌, none, some, not_found, if◌then◌else◌}
use karpenter_provider_huawe.Base.Maps.{lookup}
use karpenter_provider_huawe.Drift.{
  Claim, Server, no_drift, are_static_fields_drifted, migrate_claim, annotate, is_current,
  reconcile, annotation_hash, annotation_hash_version,
}
use karpenter_provider_huawe.Drift.Migration.{changed, migrate_claim-drift, reconcile_again}

abbrev old_claim : Claim
old_claim = record {
  provider_id = "node-1";
  annotations = (annotation_hash, "11") ∷ (annotation_hash_version, "v2") ∷ [];
  drifted = false;
}

abbrev server : Server
server = record {
  annotations = (annotation_hash, "11") ∷ (annotation_hash_version, "v2") ∷ [];
  claims = old_claim ∷ [];
}

migrate_claim-drift_example :
    are_static_fields_drifted
      (migrate_claim "42" old_claim).annotations
      (annotate "42" server.annotations)
    ≡ (if is_current old_claim.annotations || old_claim.drifted
        then changed (lookup annotation_hash old_claim.annotations) "42"
        else no_drift)
migrate_claim-drift_example = migrate_claim-drift "42" old_claim server.annotations

second_round_run :
    let once = (reconcile none (λ c. none) none "42" server).1 in
    reconcile (some not_found) (λ c. none) none "42" once ≡ ([], once)
second_round_run = reconcile_again "42" server (some not_found) (λ c. none) none
