-- ===== src/Version/Tests.antt =====
-- The theorems on the version, at a cluster whose version is too new.
use karpenter_provider_huawe.Base.{
  ℕ, List, All, ◌≤◌, ◌≡◌, ◌↔◌, refl, some, false, ok, err, plain, wrapped,
}
use karpenter_provider_huawe.Version.{
  State, new_default_provider, get, update_version_with_validation, validate_k8s_version,
}
use karpenter_provider_huawe.Version.Samples.{cluster, cluster-Serves, cluster-Remembers}
use karpenter_provider_huawe.Version.Checked.{
  report, runs, NotAfter, update_version_with_validation-once, validate_k8s_version_iff,
}

abbrev start : State (cluster "40+")
unfolding new_default_provider
start = new_default_provider (cluster "40+") 0

first_run :
    (update_version_with_validation (cluster "40+") 7 start).0
    ≡ some (
        err (
          wrapped "validating kubernetes version, %w"
            (plain "karpenter is not compatible with kubernetes version")))
unfolding update_version_with_validation start
first_run = refl

update_version_with_validation-once_example :
    let first = update_version_with_validation (cluster "40+") 7 start in
    (first.0 ≡ report (cluster "40+") "1.40")
    × (get (cluster "40+") first.1 ≡ some "1.40")
    × ((times : List ℕ) (last : ℕ)
        → All (NotAfter (cluster "40+") 107) times
        → last ≤ 107
        → (update_version_with_validation
            (cluster "40+")
            last
            (runs (cluster "40+") times first.1)).0
          ≡ some (ok (tt {0})))
unfolding start
update_version_with_validation-once_example =
    update_version_with_validation-once (cluster "40+") "1.40" cluster-Serves 100 cluster-Remembers
      7 start refl

supported_version_run :
    (validate_k8s_version (cluster "40+") "1.40" ≡ some (ok (tt {0})))
    ↔ (((cluster "40+").less_than 40 26 ≡ false) × ((cluster "40+").less_than 36 40 ≡ false))
supported_version_run = validate_k8s_version_iff (cluster "40+") "1.40" 40 26 36 refl refl refl
