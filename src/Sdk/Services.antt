-- ===== src/Sdk/Services.antt =====
-- The four services of pkg/huawei, cce.go, ecs.go, vpc.go and bss.go, whose code is the same but for
-- the client and the methods.
use karpenter_provider_huawe.Base.{Option, Result}
use karpenter_provider_huawe.Sdk.{
  Sdk, CceMethod, EcsMethod, VpcMethod, BssMethod, Service, new_service, get_client, call,
}

unfoldable pub new_cce_service : (K : Sdk CceMethod) → Option K.HttpConfig → K.World → Service K
new_cce_service K = new_service K

unfoldable pub get_cce_client : (K : Sdk CceMethod) → Service K → Result K.Client × Service K
get_cce_client K = get_client K

-- The methods of cce.go.
unfoldable pub cce_call :
    (K : Sdk CceMethod) (m : CceMethod)
    → K.Request m
    → Service K
    → Result (K.Response m) × Service K
cce_call K = call K

unfoldable pub new_ecs_service : (K : Sdk EcsMethod) → Option K.HttpConfig → K.World → Service K
new_ecs_service K = new_service K

unfoldable pub get_ecs_client : (K : Sdk EcsMethod) → Service K → Result K.Client × Service K
get_ecs_client K = get_client K

-- The methods of ecs.go.
unfoldable pub ecs_call :
    (K : Sdk EcsMethod) (m : EcsMethod)
    → K.Request m
    → Service K
    → Result (K.Response m) × Service K
ecs_call K = call K

unfoldable pub new_vpc_service : (K : Sdk VpcMethod) → Option K.HttpConfig → K.World → Service K
new_vpc_service K = new_service K

unfoldable pub get_vpc_client : (K : Sdk VpcMethod) → Service K → Result K.Client × Service K
get_vpc_client K = get_client K

-- The methods of vpc.go.
unfoldable pub vpc_call :
    (K : Sdk VpcMethod) (m : VpcMethod)
    → K.Request m
    → Service K
    → Result (K.Response m) × Service K
vpc_call K = call K

unfoldable pub new_bss_service : (K : Sdk BssMethod) → Option K.HttpConfig → K.World → Service K
new_bss_service K = new_service K

unfoldable pub get_bss_client : (K : Sdk BssMethod) → Service K → Result K.Client × Service K
get_bss_client K = get_client K

-- The methods of bss.go.
unfoldable pub bss_call :
    (K : Sdk BssMethod) (m : BssMethod)
    → K.Request m
    → Service K
    → Result (K.Response m) × Service K
bss_call K = call K
