-- ===== src/Subnet/Samples.antt =====
-- A provider that has the counts of two subnets cached, and an instance type, for the tests.
use karpenter_provider_huawe.Base.{
  ◌≡◌, refl, String, true, List, [], ◌∷◌, ◌==◌, if◌then◌else◌, ok, arith,
}
use karpenter_provider_huawe.Base.Int.{ℤ, pos, IsInt32}
use karpenter_provider_huawe.Apis.Samples.{node_class}
use karpenter_provider_huawe.Ext.GoCache.{GoCache}
use karpenter_provider_huawe.Ext.Scheduling.{
  parsed, InstanceType, capacity_type_label_key, capacity_type_on_demand, label_topology_zone,
}
use karpenter_provider_huawe.Ext.Samples.{timed_cache, value_lists}
use karpenter_provider_huawe.Subnet.{VpcSubnet, LaunchSubnet, State, select_for_launch}

abbrev pub listings : GoCache (List VpcSubnet)
listings = timed_cache (List VpcSubnet) 100

abbrev pub counts : GoCache ℤ
counts = timed_cache ℤ 100

abbrev pub base : String → ℤ
base id = if id == "a" then pos 50 else pos 80

pub base-IsInt32 : (id : String) → IsInt32 (base id)
base-IsInt32 id = record { above = ground arith; below = ground arith }

abbrev pub idle : State listings counts
idle = record {
  cache = listings.empty;
  available_ip_address_cache =
      counts.set 0 100 "a" (pos 50) (counts.set 0 100 "b" (pos 80) counts.empty);
  inflight_ips = [];
}

abbrev pub instance_type : InstanceType value_lists
instance_type = record {
  name = "c7.large.2";
  requirements = [];
  offerings =
      record {
        requirements =
            (label_topology_zone, "z1" ∷ [])
            ∷ (capacity_type_label_key, capacity_type_on_demand ∷ [])
            ∷ [];
        price = 10;
        available = true;
      }
      ∷ record {
        requirements =
            (label_topology_zone, "z2" ∷ [])
            ∷ (capacity_type_label_key, capacity_type_on_demand ∷ [])
            ∷ [];
        price = 7;
        available = true;
      }
      ∷ [];
  cpu = parsed "2";
  pods = pos 30;
  memory = 4294967296;
  ephemeral_storage = pos 10000000000;
  overhead = record { kube_reserved = []; system_reserved = []; eviction_threshold = [] };
}

abbrev pub instance_types : List (InstanceType value_lists)
instance_types = instance_type ∷ []

abbrev pub selected : LaunchSubnet
selected = record {
  id = "b";
  available_ip_address_count = pos 80;
  reserved_ip_address_count = pos 30;
}

abbrev pub launched_provider : State listings counts
unfolding select_for_launch
launched_provider =
    (select_for_launch listings counts value_lists 1 node_class instance_types
      capacity_type_on_demand idle).1

pub selected_lem :
    (select_for_launch listings counts value_lists 1 node_class instance_types
      capacity_type_on_demand idle).0
    ≡ ok selected
unfolding select_for_launch
selected_lem = refl
