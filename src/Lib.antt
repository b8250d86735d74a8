-- ===== src/Lib.antt =====
-- Verification library of the Karpenter provider for Huawei Cloud (CCE).
--
-- The program. Karpenter asks the provider for a node; the provider picks a flavor, a zone and a
-- subnet, sends CreateNode to CCE and reports what came of it. Create of
-- pkg/providers/instance/instance.go drives it: it checks the node class, has the subnet provider
-- (pkg/providers/subnet/subnet.go) select a subnet and reserve addresses on it, orders the candidates
-- by price, leaves out those that the offering cache (pkg/utils/offering_availability_cache.go) marks
-- as unavailable, and tries the others in turn. It marks the ones that CCE has no capacity for, and
-- gives the reserved addresses back on every path. pkg/providers/instancetype/types.go says how much
-- storage a node will have, and pkg/apis/v1alpha1 holds the resource that users configure. What can be
-- bought at which price comes from the instance type provider and the pricing provider, which
-- controllers refresh at intervals. pkg/cloudprovider/cloudprovider.go is what Karpenter calls: it
-- resolves the node class, lists the instance types, has the instance provider create, and turns the
-- instance into a claim.
--
-- The files.
--   Base           tests, lists, integers with int32 wrap-around, maps, sorting and Go's errors
--   Ext            what the program takes from elsewhere, as interfaces: go-cache (Ext/GoCache),
--                  Karpenter's requirements, offerings and instance types (Ext/Scheduling), the ECS
--                  API (Ext/Ecs), the billing service (Ext/Billing), float32 (Ext/Float32) and the
--                  version of the cluster (Ext/Kubernetes)
--   Apis           pkg/apis/v1alpha1/ccenodeclass.go: the spec of a node class, its checks for
--                  CreateNode, and the normalized values that its hash is taken over
--   OfferingCache  pkg/utils/offering_availability_cache.go; Board is the abstract view of it
--   Subnet         pkg/providers/subnet/subnet.go: List, SelectForLaunch, ReleaseInflightIPs;
--                  Refreshed and Listing are about what List finds, Selection and Predicted about
--                  what is selected, Accounts and Reservations about one launch and its release,
--                  Counted, Fleet and Overlaps about launches and listings that overlap
--   Instance       pkg/providers/instance/instance.go: Failure (the classification of errors), Kubelet
--                  (the kubelet settings), NodeSpec (volumes, login, taints and the node
--                  specification), Candidates (buildCreateCandidates and the filter), Create,
--                  Queries (Get, List, Delete, CreateTags); Create/Offerings says what a Create
--                  keeps of the marks
--   InstanceType   pkg/providers/instancetype/types.go: the ephemeral storage of a node (Storage,
--                  Copies, Capacity), the memory (Memory), CPU and storage that are reserved on it
--                  (Overhead, Reserve), what the check of a node class gives (Validated), and the
--                  resolver with its cache key (Resolve; Resolved and Allocatable are the theorems)
--   InstanceTypes  pkg/providers/instancetype/instancetype.go: the zones of a flavor (Zones), the pages
--                  of the ECS API (Fetch), the offerings, Get and List (Serve) and what a refresh
--                  changes (Refresh); Offered, Pages, Offers and Listing are the theorems, Shared
--                  is what a List and a refresh keep
--   Pricing        pkg/providers/pricing/pricing.go: the batches of prices, with the products that the
--                  billing service does not know (Messages reads its errors); Rounds, Batch, Update
--                  and Asked are the lemmas and theorems
--   Version        pkg/providers/version/version.go: the version of the cluster and its check (Checked)
--   Drift          pkg/cloudprovider/drift.go and pkg/controllers/nodeclass/hash/controller.go: the
--                  hash of a node class and of its claims, and what has drifted
--   CloudProvider  pkg/cloudprovider/cloudprovider.go: what Karpenter calls (Calls), over the providers
--                  of instances and of instance types; Creation and Undrifted are the theorems
--   Controllers    pkg/controllers/nodeclass (controller.go and subnet.go: NodeClass, with Finalizer
--                  and SubnetStatus) and pkg/controllers/nodeclaim/unregisteredtaint
--                  (UnregisteredTaint, Untainted), and pkg/controllers/providers (Providers)
--   Sdk            pkg/huawei: the services that build their client on the first request (Services is
--                  one for each of cce.go, ecs.go, vpc.go and bss.go; Built is about the building)
--   Operator       pkg/operator/operator.go and cmd/controller/main.go: the providers wired together
--                  (Operator, Clients), the start and the steps of a running operator, which are the
--                  controllers of pkg/controllers/controllers.go (Run), the options of the environment
--                  (Options); Prices, Launches, SoldOut and Marks are about the whole
-- A function of the source is a function of the same name here, in lower case with underscores. A
-- state that a method changes is a value that the function takes and returns; Subnet.State is the
-- state of the subnet provider, InstanceTypes.State and Pricing.State are those of the other two,
-- Instance.Create.Env is that of a Create; Operator holds them all. An error is a value of
-- Base.Error, in which the format of fmt.Errorf stands for its text.
--
-- Interfaces. The API of CCE is the record Instance.Create.CceApi: a world that moves on with each
-- CreateNode, and a clock in it that does not go back; Instance.Queries.NodeApi is that of the
-- queries. What the API server of Kubernetes answers is an argument of the reconciliations. The two
-- providers below the cloud provider are the record CloudProvider.Calls.Providers, and the resolver
-- of instance types is InstanceTypes.Resolver; both are interfaces in the source too. Operator
-- fills the first with the operations of the two providers. The change monitor of Karpenter is
-- InstanceTypes.ChangeMonitor, and a client of the Huawei Cloud SDK is Sdk. A cache is any store
-- with the laws of Ext.GoCache: what is set under a key is read up to its deadline. Quantities of
-- Kubernetes are read through Instance.Kubelet.Quantities. The tests use caches, services,
-- requirements and quantities that are concrete functions (Ext/Samples, Instance/Samples, and the
-- Tests of each part).
--
-- Concurrency. The subnet provider holds its lock during each operation, so launches and listings
-- that overlap are a sequence of whole operations: Subnet.Fleet.Move. The providers of instance
-- types and of prices ask their services before they take the lock under which they store; here a
-- call is one operation. The steps of a running operator (Operator.Run) are whole operations too,
-- and time that passes between them: those of two goroutines that overlap are not modelled there.
--
-- Bounds. An int32 is an integer with the wrap-around written out (Base.Int.wrap32). The sizes of a
-- file system are natural numbers once the guard against sizes below 0 is passed, and the one product
-- that can exceed int64 wraps. The loop over the powers of a base runs on fuel, the number of groups,
-- which is enough since a power grows with each round. The loops of the pricing provider run on as much
-- fuel as there are products, since each round that goes on has fewer of them. The loop over the pages
-- of flavors has no bound in the source: it ends with fuel for the flavors that a service has which
-- pages as documented.
--
-- Choices of the language that are fixed here. A Go map is read in the order of its entries, and
-- sort.Slice is an insertion sort: which order equal elements end in, Go leaves open. Values()[0] of a
-- requirement that lists no value panics in Go, which is `none` here.
--
-- The reserved CPU is computed with exact fractions: the float64 products of the source have the same
-- integer parts for all CPUs below the last bound, 2 ^ 31 millis. The threshold of eviction is computed
-- through the interface of float32.
--
-- Not modelled. Logging and the details of an error that only the log shows, the text of events, the
-- registration of controllers, the look-up of regions and credentials, generated code and test helpers.
pub mod Base
pub mod Ext
pub mod Apis
pub mod OfferingCache
pub mod Subnet
pub mod Version
pub mod Instance
pub mod InstanceType
pub mod InstanceTypes
pub mod Drift
pub mod Pricing
pub mod CloudProvider
pub mod Controllers
pub mod Sdk
pub mod Operator
