-- ===== src/Operator/Tests.antt =====
-- The theorems on the operator, at a region in which no node can be had.
use karpenter_provider_huawe.Base.{
  ◌≡◌, refl, String, true, false, List, [], ◌∷◌, Option, none, some, Result, ok, err, IfOk, ◌≢◌,
  ◌==◌, none_ne_some, plain, arith,
}
use karpenter_provider_huawe.Apis.Samples.{node_class}
use karpenter_provider_huawe.Ext.Samples.{value_lists}
use karpenter_provider_huawe.Ext.Scheduling.{InstanceType}
use karpenter_provider_huawe.Subnet.Samples.{instance_type, base, base-IsInt32}
use karpenter_provider_huawe.Subnet.Reservations.{idle-IsBalanced}
use karpenter_provider_huawe.Apis.{CceNodeClass}
use karpenter_provider_huawe.Instance.Samples.{claim}
use karpenter_provider_huawe.Instance.Candidates.{Candidate}
use karpenter_provider_huawe.Base.Strings.{trim_space}
use karpenter_provider_huawe.Operator.Options.{
  Region, sdk_http_config, billing_region, billing_region_endpoint, billing_region-endpoint,
}
use karpenter_provider_huawe.Operator.Prices.{AllFair, Running-AllFair}
use karpenter_provider_huawe.Subnet
use karpenter_provider_huawe.Pricing
use karpenter_provider_huawe.InstanceTypes
use karpenter_provider_huawe.InstanceTypes.Serve
use karpenter_provider_huawe.InstanceTypes.Refresh
use karpenter_provider_huawe.Version
use karpenter_provider_huawe.Version.{update_version_with_validation}
use karpenter_provider_huawe.Drift.{HashInput}
use karpenter_provider_huawe.CloudProvider.{resolve_node_class}
use karpenter_provider_huawe.CloudProvider.Calls.{Env, create}
use karpenter_provider_huawe.InstanceType.Samples.{with_integers}
use karpenter_provider_huawe.Operator.Launches.{Balanced, create-Balanced}
use karpenter_provider_huawe.Operator.{providers, list_types}
use karpenter_provider_huawe.Operator.Samples.{services, fresh, idle, or_made, vpc_subnets}
use karpenter_provider_huawe.Operator.Run.{
  new_operator, preloaded, Running, started, runs_on, subnets_listed,
}

fresh_lem : new_operator services 1 1 0 0 0 ≡ some fresh
unfolding fresh or_made preloaded update_version_with_validation Version.new_default_provider
fresh_lem = refl

idle-Running : Running services idle
unfolding idle
idle-Running =
    runs_on (started 1 1 0 0 0 fresh fresh_lem) (subnets_listed node_class (ok vpc_subnets))

Running-AllFair_example : IfOk (AllFair services idle) (list_types services node_class idle).0
Running-AllFair_example = Running-AllFair services idle idle-Running node_class

abbrev or_no_types : Result (List (InstanceType value_lists)) → List (InstanceType value_lists)
or_no_types (err e) = []
or_no_types (ok its) = its

listed : List (InstanceType value_lists)
unfolding list_types
listed = or_no_types (list_types services node_class idle).0

abbrev or_sample : List (InstanceType value_lists) → InstanceType value_lists
or_sample [] = instance_type
or_sample (it ∷ its) = it

candidate_in : String → Candidate value_lists
unfolding listed
candidate_in zone = record {
  instance_type = or_sample listed;
  capacity_type = "on-demand";
  price = 7;
  zone = zone;
  subnet_id = "b";
}

abbrev kube_get : String → Result CceNodeClass
kube_get name = ok node_class

abbrev digest : HashInput → String
digest input = input.effective_ims

abbrev env : Env value_lists with_integers digest (providers services) true kube_get
env = record { world = idle; events = [] }

create-Balanced_example :
    Balanced services base base-IsInt32 []
      (create value_lists with_integers digest
        (providers services)
        true
        kube_get
        "default"
        claim
        env).1.world
unfolding idle resolve_node_class Subnet.list update_version_with_validation
    Version.new_default_provider Subnet.new_default_provider
create-Balanced_example =
    create-Balanced services base base-IsInt32 [] digest kube_get node_class claim "default" env
      refl ((refl, (refl, tt)), (λ id. ground arith), (refl, (refl, tt)), (refl, (refl, tt)))
      (idle-IsBalanced services.listings services.counts value_lists base base-IsInt32 idle.subnets
        refl)

abbrev no_regions : String → Option Region
no_regions id = none

endpoint_run :
    let endpoint = billing_region_endpoint (some (billing_region no_regions " https://bss " "r")) in
    (endpoint ≢ "")
    × (((trim_space " https://bss " == "") ≡ false) → endpoint ≡ trim_space " https://bss ")
endpoint_run =
    billing_region-endpoint no_regions " https://bss " "r" (λ r e. absurd (none_ne_some e))

not_a_flag : sdk_http_config " yes" ≡ err (plain "parsing %s: %w")
unfolding sdk_http_config
not_a_flag = refl
