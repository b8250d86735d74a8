-- ===== src/Instance/NodeSpec/Effective.antt =====
-- What the hash of a node class (pkg/apis/v1alpha1) says of the node that is created for it: the
-- effective values that go into the hash determine the login and the volumes that are sent.
use karpenter_provider_huawe.Base.{
  zero, suc, All, ◌≢◌, ◌≡◌, refl, String, List, [], ◌∷◌, map, Option, none, some, ◌==◌, not,
  if◌then◌else◌, arith, eq_iff, Bool-cases, inl, inr,
}
use karpenter_provider_huawe.Base.Int.{ℤ, pos, negsuc, eqb_ℤ}
use karpenter_provider_huawe.Apis.{
  BlockDevice, CceNodeClassSpec, UserPassword, NormalizedVolume, NormalizedBlockDeviceMappings,
  NormalizedLogin, normalize_block_device, default_kubernetes_volume_size_gib,
  normalized_block_device_mappings, normalized_login, or_zero, or_root,
}
use mathlib.Core.Option
use karpenter_provider_huawe.Instance.NodeSpec.{
  Volume, CceLogin, ssh_login, password_of, to_cce_volume, managed_volume, resolve_data_volumes,
  resolve_login,
}

-- The login of a node by the normalized login of its class.
abbrev pub login_of : NormalizedLogin → Option CceLogin
login_of l =
    if not (l.ssh_key == "") then some (ssh_login l.ssh_key) else password_of l.user_password

password_of-named :
    (o : Option UserPassword)
    → password_of o
      ≡ password_of
          (Option.map (λ (u : UserPassword). record u { username = or_root u.username }) o)
password_of-named none = refl
password_of-named (some u) = ground (arith, eq_iff u.username "")

-- The login that is sent is determined by the normalized login that the hash is taken over.
pub resolve_login-login_of :
    (s : CceNodeClassSpec) → resolve_login (some s.login) ≡ login_of (normalized_login (some s))
unfolding resolve_login normalized_login
resolve_login-login_of s = elim (Bool-cases (s.login.ssh_key == "")) [
  | inl e ↦ rw e (password_of-named s.login.user_password)
  | inr e ↦ rw e (rw e)
]

-- A device that gives neither 0 IOPS nor a throughput of 0; it may leave them out.
abbrev pub GivesNoZero : BlockDevice → Type 0
GivesNoZero d = (d.iops ≢ some (pos 0)) × (d.throughput ≢ some (pos 0))

abbrev pub OptionGivesNoZero : Option BlockDevice → Type 0
OptionGivesNoZero none = Unit
OptionGivesNoZero (some d) = GivesNoZero d

abbrev pub unless_zero : ℤ → Option ℤ
unless_zero z = if eqb_ℤ z (pos 0) then none else some z

-- The volume of a normalized one: a number that is 0 is left out.
abbrev pub volume_of : NormalizedVolume → Volume
volume_of v = record {
  size = v.size;
  volumetype = v.volume_type;
  iops = unless_zero v.iops;
  throughput = unless_zero v.throughput;
}

abbrev pub or_default : String → Option NormalizedVolume → NormalizedVolume
or_default root_type none = record {
  size = default_kubernetes_volume_size_gib;
  volume_type = root_type;
  iops = pos 0;
  throughput = pos 0;
}
or_default root_type (some v) = v

-- The root volume and the data volumes of a node by the normalized mappings of its class: the volume
-- for Kubernetes (of the root's type, where the class names none) and those of the user.
abbrev pub volumes_of : NormalizedBlockDeviceMappings → Volume × Option (List Volume)
volumes_of m = (
  volume_of m.root,
  some (volume_of (or_default m.root.volume_type m.k8s) ∷ map volume_of m.users),
)

unless_zero-or_zero : (o : Option ℤ) → o ≢ some (pos 0) → o ≡ unless_zero (or_zero o)
unless_zero-or_zero none h = refl
unless_zero-or_zero (some (pos zero)) h = absurd (h refl)
unless_zero-or_zero (some (pos (suc n))) h = ground arith
unless_zero-or_zero (some (negsuc n)) h = ground arith

to_cce_volume-normalize :
    (d : BlockDevice)
    → GivesNoZero d
    → to_cce_volume d ≡ volume_of (normalize_block_device (some d))
unfolding to_cce_volume normalize_block_device
to_cce_volume-normalize d h =
    cc (unless_zero-or_zero d.iops h.0, unless_zero-or_zero d.throughput h.1)

managed-or_default :
    (o : Option BlockDevice) (root_type : String)
    → OptionGivesNoZero o
    → managed_volume o root_type
      ≡ volume_of (or_default root_type (Option.map (λ d. normalize_block_device (some d)) o))
unfolding managed_volume
managed-or_default none root_type h = refl
managed-or_default (some d) root_type h = to_cce_volume-normalize d h

users-volumes :
    (ds : List BlockDevice)
    → All GivesNoZero ds
    → map to_cce_volume ds ≡ map volume_of (map (λ d. normalize_block_device (some d)) ds)
users-volumes [] h = refl
users-volumes (d ∷ ds) h = cc (to_cce_volume-normalize d h.0, users-volumes ds h.1)

-- The volumes that are sent for a class in which no device gives 0 IOPS or a throughput of 0 are
-- determined by the normalized mappings that the hash is taken over.
pub volumes-volumes_of :
    (s : CceNodeClassSpec)
    → GivesNoZero s.block_device_mappings.root
    → OptionGivesNoZero s.block_device_mappings.k8s
    → All GivesNoZero s.block_device_mappings.users
    → let root = to_cce_volume s.block_device_mappings.root in
      ◌≡◌ {A = Volume × Option (List Volume)}
        (root, resolve_data_volumes s.block_device_mappings root.volumetype)
        (volumes_of (normalized_block_device_mappings (some s)))
unfolding resolve_data_volumes normalized_block_device_mappings
volumes-volumes_of s root k8s users = cc (
  to_cce_volume-normalize s.block_device_mappings.root root,
  managed-or_default s.block_device_mappings.k8s
      (to_cce_volume s.block_device_mappings.root).volumetype k8s,
  users-volumes s.block_device_mappings.users users,
)
