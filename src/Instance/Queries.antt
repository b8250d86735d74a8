-- ===== src/Instance/Queries.antt =====
-- Get, List, Delete and CreateTags of pkg/providers/instance/instance.go, over what the APIs of CCE
-- and ECS answer.
pub mod Nodes
use karpenter_provider_huawe.Base.{
  ℕ, String, Bool, true, false, List, [], ◌∷◌, Option, none, some, ◌==◌, not, if◌then◌else◌,
  is_empty, Result, ok, err, Error, plain, node_claim_not_found, ◌>>=◌, fail_if,
}
use karpenter_provider_huawe.Base.Maps.{Map}
use karpenter_provider_huawe.Instance.Failure.{is_not_found_error}

-- types.go. Create leaves the subnet empty.
pub record Instance : Type 0 where
  pub node_id : String
  pub server_id : String
  pub flavor : String
  pub zone : String
  pub subnet_id : String

-- Spec of a CCE node: the id of the subnet of its primary NIC may be missing.
pub record ShownSpec : Type 0 where
  pub flavor : String
  pub az : String
  pub primary_subnet_id : Option String

-- A node as CCE shows it, by Metadata.Uid, Spec and Status.ServerId.
pub record CceNode : Type 0 where
  pub uid : Option String
  pub spec : Option ShownSpec
  pub server_id : Option String

abbrev pub text_or_empty : Option String → String
text_or_empty none = ""
text_or_empty (some t) = t

unfoldable pub with_spec : String → String → Option ShownSpec → Instance
with_spec node_id server_id none = record {
  node_id = node_id;
  server_id = server_id;
  flavor = "";
  zone = "";
  subnet_id = "";
}
with_spec node_id server_id (some s) = record {
  node_id = node_id;
  server_id = server_id;
  flavor = s.flavor;
  zone = s.az;
  subnet_id = text_or_empty s.primary_subnet_id;
}

-- instanceFromCCENodeParts
unfoldable pub instance_from_cce_node_parts : CceNode → Instance
unfolding with_spec
instance_from_cce_node_parts n = with_spec (text_or_empty n.uid) (text_or_empty n.server_id) n.spec

unfoldable pub node_id_from_provider_id : String → Result String
node_id_from_provider_id provider_id =
    if provider_id == "" then err (plain "providerID is empty") else ok provider_id

-- The error of an answer, which says that the node claim is not found if the node is not.
unfoldable pub query_error : Error → Error
unfolding is_not_found_error
query_error e = if is_not_found_error e then node_claim_not_found e else e

-- What ShowNode answers decides. A response that is nil is `none`.
unfoldable pub shown : Result (Option CceNode) → Result Instance
unfolding query_error instance_from_cce_node_parts
shown (err e) = err (query_error e)
shown (ok none) = err (node_claim_not_found (plain "CCE node not found for nodeId=%q"))
shown (ok (some n)) = ok (instance_from_cce_node_parts n)

-- The loop over the nodes of a response.
unfoldable pub listed_instances : List CceNode → List Instance
unfolding instance_from_cce_node_parts
listed_instances [] = []
listed_instances (n ∷ ns) =
    let rest = listed_instances ns in
    let instance' = instance_from_cce_node_parts n in
    if instance'.node_id == "" then rest else instance' ∷ rest

-- Items of a response, or nil for either.
unfoldable pub list_instances : Result (Option (List CceNode)) → Result (List Instance)
unfolding listed_instances
list_instances (err e) = err e
list_instances (ok none) = ok []
list_instances (ok (some ns)) = ok (listed_instances ns)

unfoldable pub deleted : Result (Unit {0}) → Result (Unit {0})
unfolding query_error
deleted (err e) = err (query_error e)
deleted (ok done) = ok done

-- A tag as BatchCreateServerTags takes it.
pub record ServerTag : Type 0 where
  pub key : String
  pub value : Option String

unfoldable pub server_tags : Map String → List ServerTag
server_tags [] = []
server_tags ((k, v) ∷ rest) =
    record { key = k; value = if not (v == "") then some v else none } ∷ server_tags rest

-- The calls of CCE and ECS by the queries.
pub record NodeApi : Type 1 where
  pub World : Type 0
  pub show_node : String → String → World → Result (Option CceNode)
  pub list_nodes : String → World → Result (Option (List CceNode))
  pub delete_node : String → String → World → Result (Unit {0}) × World
  pub batch_create_server_tags : String → List ServerTag → World → Result (Unit {0}) × World

module _ (N : NodeApi) where
  unfoldable pub get : String → String → N.World → Result Instance
  unfolding node_id_from_provider_id shown
  get cluster_id provider_id w =
      node_id_from_provider_id provider_id >>= λ node_id. shown (N.show_node cluster_id node_id w)

  unfoldable pub list_nodes : String → N.World → Result (List Instance)
  unfolding list_instances
  list_nodes cluster_id w = list_instances (N.list_nodes cluster_id w)

  unfoldable pub delete_from : String → Result String → N.World → Result (Unit {0}) × N.World
  unfolding deleted
  delete_from cluster_id (err e) w = (err e, w)
  delete_from cluster_id (ok node_id) w =
      let (answer, w') = N.delete_node cluster_id node_id w in (deleted answer, w')

  unfoldable pub delete : String → String → N.World → Result (Unit {0}) × N.World
  unfolding delete_from node_id_from_provider_id
  delete cluster_id provider_id w = delete_from cluster_id (node_id_from_provider_id provider_id) w

  -- CreateTags; `has_ecs` says that the ECS API is configured.
  unfoldable pub create_tags : Bool → String → Map String → N.World → Result (Unit {0}) × N.World
  unfolding server_tags
  create_tags has_ecs server_id tags w =
      if not has_ecs
      then (err (plain "ecsapi is nil"), w)
      else if is_empty tags
      then (ok tt, w)
      else N.batch_create_server_tags server_id (server_tags tags) w
