-- ===== src/Apis/Samples.antt =====
-- A node class with two subnets, for the tests.
use karpenter_provider_huawe.Base.{true, false, [], ◌∷◌, none, some}
use karpenter_provider_huawe.Base.Int.{pos}
use karpenter_provider_huawe.Apis.{
  BlockDevice, CceNodeClassSpec, CceNodeClass, KubeletConfiguration,
}

abbrev pub disk : BlockDevice
disk = record { volume_size = pos 120; volume_type = "SSD"; iops = none; throughput = none }

abbrev pub kubelet : KubeletConfiguration
kubelet = record {
  max_pods = some (pos 110);
  system_reserved = ("pid", "+1000") ∷ [];
  kube_reserved = ("cpu", "100m") ∷ ("memory", "512Mi") ∷ [];
}

abbrev pub spec : CceNodeClassSpec
spec = record {
  subnet_selector_terms = record { id = ""; name = "nodes" } ∷ [];
  kubelet = some kubelet;
  ecs_group_id = none;
  ims_family = "HCE OS 2.0";
  block_device_mappings = record { k8s = some disk; root = disk; users = [] };
  runtime_configuration = none;
  login = record { user_password = none; ssh_key = "key" };
}

abbrev pub node_class : CceNodeClass
node_class = record {
  name = "default";
  uid = "u1";
  generation = 1;
  deleting = false;
  finalizers = [];
  annotations = [];
  spec = spec;
  status_subnets = record { id = "a" } ∷ record { id = "b" } ∷ [];
  subnets_ready = true;
}
