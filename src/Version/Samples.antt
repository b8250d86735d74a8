-- ===== src/Version/Samples.antt =====
-- A cluster that runs one version, for the tests.
use karpenter_provider_huawe.Base.{
  ℕ, suc, refl, String, Bool, true, Option, none, some, ◌==◌, not, if◌then◌else◌, ltb, ok, eq_refl,
}
use karpenter_provider_huawe.Ext.Kubernetes.{Cluster}
use karpenter_provider_huawe.Version.{get_k8s_version}
use karpenter_provider_huawe.Version.Checked.{Serves, Remembers}

abbrev pub is_new : String → Option String → Bool
is_new v none = true
is_new v (some seen) = not (seen == v)

abbrev pub parse_minor : String → Option ℕ
parse_minor v =
    if v == "1.26"
    then some 26
    else if v == "1.36"
    then some 36
    else if v == "1.40"
    then some 40
    else none

-- The minor version is given.
abbrev pub cluster : String → Cluster
cluster minor = record {
  World = ℕ;
  server_version = λ w. (ok (some (record { major = "1"; minor = minor })), suc w);
  Version = ℕ;
  parse_generic = parse_minor;
  less_than = ltb;
  Monitor = Option String;
  version_changed = λ now v m. (is_new v m, some v);
  new_change_monitor = none;
}

pub cluster-Serves : Serves (cluster "40+") "1.40"
unfolding get_k8s_version
cluster-Serves w = refl

pub cluster-Remembers : Remembers (cluster "40+") 100
cluster-Remembers now later v m told soon = rw (eq_refl v) refl
