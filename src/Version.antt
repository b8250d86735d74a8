-- ===== src/Version.antt =====
-- pkg/providers/version/version.go: the version of Kubernetes that the cluster runs, and whether it
-- is one that Karpenter supports. `none` as an outcome stands for the panic of MustParseGeneric on a
-- text that is no version.
pub mod Checked
pub mod Samples
mod Tests
use karpenter_provider_huawe.Base.{
  ℕ, String, ◌+str◌, Bool, Option, none, some, ◌||◌, if◌then◌else◌, Result, ok, err, plain, wrapped,
}
use karpenter_provider_huawe.Base.Strings.{trim_suffix}
use karpenter_provider_huawe.Ext.Kubernetes.{VersionInfo, Cluster}

abbrev pub min_k8s_version : String
min_k8s_version = "1.26"

abbrev pub max_k8s_version : String
max_k8s_version = "1.36"

-- fmt.Sprintf("%s.%s", output.Major, strings.TrimSuffix(output.Minor, "+"))
unfoldable pub version_text : VersionInfo → String
unfolding trim_suffix
version_text info = info.major +str "." +str trim_suffix b'+' info.minor

abbrev pub discovered_version : Result (Option VersionInfo) → Result String
unfolding version_text
discovered_version (err e) = err (plain "getting kubernetes version from the kubernetes API")
discovered_version (ok none) = err (plain "getting kubernetes version from the kubernetes API")
discovered_version (ok (some info)) = ok (version_text info)

module _ (K : Cluster) where
  -- The provider: the version is nil until it is first stored.
  pub record State : Type 0 where
    pub version : Option String
    pub monitor : K.Monitor
    pub world : K.World

  unfoldable pub new_default_provider : K.World → State
  new_default_provider w = record { version = none; monitor = K.new_change_monitor; world = w }

  -- Get; `none` stands for the panic on the nil pointer.
  unfoldable pub get : State → Option String
  get p = p.version

  unfoldable pub get_k8s_version : K.World → Result String × K.World
  unfolding discovered_version
  get_k8s_version w = let (answer, w') = K.server_version w in (discovered_version answer, w')

  abbrev pub store_version : State → Result String × K.World → Result (Unit {0}) × State
  store_version p (err e, w) =
      (err (wrapped "validating kubernetes version, %w" e), record p { world = w })
  store_version p (ok v, w) = (ok tt, record p { version = some v; world = w })

  -- UpdateVersion
  unfoldable pub update_version : State → Result (Unit {0}) × State
  unfolding get_k8s_version
  update_version p = store_version p (get_k8s_version p.world)

  abbrev pub in_range : K.Version → K.Version → K.Version → Result (Unit {0})
  in_range v least most =
      if K.less_than v least || K.less_than most v
      then err (plain "karpenter is not compatible with kubernetes version")
      else ok tt

  -- The greatest version is read only if the least one admits the version.
  abbrev pub validate_between :
      Option K.Version → Option K.Version → Option K.Version → Option (Result (Unit {0}))
  validate_between none least most = none
  validate_between (some v) none most = none
  validate_between (some v) (some least) none =
      if K.less_than v least
      then some (err (plain "karpenter is not compatible with kubernetes version"))
      else none
  validate_between (some v) (some least) (some most) = some (in_range v least most)

  unfoldable pub validate_k8s_version : String → Option (Result (Unit {0}))
  validate_k8s_version v =
      validate_between (K.parse_generic v) (K.parse_generic min_k8s_version)
        (K.parse_generic max_k8s_version)

  abbrev pub validating_failed : Option (Result (Unit {0})) → Option (Result (Unit {0}))
  validating_failed none = none
  validating_failed (some (err e)) = some (err (wrapped "validating kubernetes version, %w" e))
  validating_failed (some (ok done)) = some (ok done)

  -- After the version is stored and read back.
  abbrev pub validate_changed : ℕ → Option String → State → Option (Result (Unit {0})) × State
  unfolding validate_k8s_version
  validate_changed now none p = (none, p)
  validate_changed now (some v) p =
      let (changed, monitor) = K.version_changed now v p.monitor in
      (
        if changed then validating_failed (validate_k8s_version v) else some (ok tt),
        record p { monitor = monitor },
      )

  abbrev pub after_update : ℕ → Result (Unit {0}) × State → Option (Result (Unit {0})) × State
  unfolding validate_changed get
  after_update now (err e, p) = (some (err e), p)
  after_update now (ok done, p) = validate_changed now (get p) p

  -- UpdateVersionWithValidation
  unfoldable pub update_version_with_validation : ℕ → State → Option (Result (Unit {0})) × State
  unfolding after_update update_version
  update_version_with_validation now p = after_update now (update_version p)
