-- ===== src/Ext/Scheduling.antt =====
-- Karpenter's scheduling.Requirements, cloudprovider.Offering and cloudprovider.InstanceType, with
-- the float64 of prices. Quantities are integers where the program reads them as such.
use karpenter_provider_huawe.Base.{ℕ, String, Bool, List, Option}
use karpenter_provider_huawe.Base.Int.{ℤ}
use karpenter_provider_huawe.Base.Maps.{Map}

pub record Float64 : Type 1 where
  pub Float : Type 0
  pub zero : Float
  pub max_float : Float
  pub lt : Float → Float → Bool
  pub eq : Float → Float → Bool

pub record Scheduling : Type 1 where
  pub float : Float64
  pub Requirements : Type 0
  pub Requirement : Type 0
  -- reqs[key]
  pub requirement : String → Requirements → Option Requirement
  pub len : Requirement → ℕ
  pub values : Requirement → List String
  -- reqs.Has(key), reqs.Get(key).Has(value) and reqs.Get(key).Any()
  pub has : String → Requirements → Bool
  pub get_has : String → String → Requirements → Bool
  pub get_any : String → Requirements → String
  -- scheduling.NewRequirements of requirements with the operator In
  pub new_in : List (String × List String) → Requirements
  -- scheduling.NewRequirements of these and of the keys with the operator DoesNotExist
  pub add_absent : List String → Requirements → Requirements
  -- reqs.Add of a requirement with the operator In
  pub add_in : String → List String → Requirements → Requirements
  -- Whether an offering with the second requirements is compatible with the first.
  pub compatible : Requirements → Requirements → Bool

pub record Offering (S : Scheduling) : Type 0 where
  pub requirements : S.Requirements
  pub price : S.float.Float
  pub available : Bool

-- A resource.Quantity, by how it is made: parsed from a text, parsed from "<n>Mi", of millis, or of a
-- number.
pub data Amount : Type 0 where
  parsed : String → Amount
  mebibytes : ℕ → Amount
  milli : ℕ → Amount
  whole : ℤ → Amount

-- cloudprovider.InstanceTypeOverhead
pub record Overhead : Type 0 where
  pub kube_reserved : Map Amount
  pub system_reserved : Map Amount
  pub eviction_threshold : Map Amount

pub record InstanceType (S : Scheduling) : Type 0 where
  pub name : String
  pub requirements : S.Requirements
  pub offerings : List (Offering S)
  -- Capacity of cpu, of pods, of memory in bytes and of ephemeral storage in bytes
  pub cpu : Amount
  pub pods : ℤ
  pub memory : ℕ
  pub ephemeral_storage : ℤ
  pub overhead : Overhead

abbrev pub capacity_type_label_key : String
capacity_type_label_key = "karpenter.sh/capacity-type"

abbrev pub label_topology_zone : String
label_topology_zone = "topology.kubernetes.io/zone"

abbrev pub label_instance_type_stable : String
label_instance_type_stable = "node.kubernetes.io/instance-type"

abbrev pub capacity_type_on_demand : String
capacity_type_on_demand = "on-demand"
