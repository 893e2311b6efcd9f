-- ===== src/Command/Manager.antt =====
-- cmd/manager/manager.go: the start-up of the manager on the hub.
pub mod Plan
pub mod PullSecret
mod Samples
use managed_serviceaccount.Prelude.{
  String, ◌==◌, Bool, true, false, not, Option, none, some, List, [], ◌∷◌, if◌then◌else◌,
}
use managed_serviceaccount.Prelude.Dict.{Dict}
use managed_serviceaccount.Errors.{Error, Result, ok, err, message, wrap}
use managed_serviceaccount.Effect.{Call, pure, raise, ◌>>=◌, ◌>>◌}
use managed_serviceaccount.Kube.{Key, Secret}
use managed_serviceaccount.Api.{addon_name}
use managed_serviceaccount.Command.{
  Stat, get_in_cluster_namespace, own_namespace, required, begin, is_on, ephemeral_identity,
  cluster_profile,
}

pub record HubManagerOptions : Type 0 where
  pub metrics_addr : String
  pub enable_leader_election : Bool
  pub probe_addr : String
  pub addon_agent_image_name : String
  pub image_pull_secret_name : String
  pub deploy_mode : String
  pub feature_gates_flags : Dict Bool
  pub enable_network_policies : Bool

-- the options that AddFlags sets where no flag is given
abbrev pub default_hub_manager_options : HubManagerOptions
default_hub_manager_options = record {
  metrics_addr = ":38080";
  enable_leader_election = false;
  probe_addr = ":38081";
  addon_agent_image_name = "quay.io/open-cluster-management/managed-serviceaccount:latest";
  image_pull_secret_name = "";
  deploy_mode = "Deployment";
  feature_gates_flags = [];
  enable_network_policies = false;
}

-- What is set going, in the order of the code.
pub data Action : Type 0 where
  -- the agent's add-on, with the arguments of GetDefaultValues
  agent_addon : (name image : String) → Option Secret → Bool → Action
  ephemeral_controller : Action
  cred_syncer : Action
  addon_manager : Action
  manager : Action

-- The options that the manager gives ctrl.NewManager.
pub record ManagerOptions : Type 0 where
  pub metrics_addr : String
  pub probe_addr : String
  pub leader_election : Bool
  pub leader_election_id : String

-- The libraries that the start-up calls, and the process around it.
pub record Host : Type 1 where
  pub set_from_map : Dict Bool → Result (Dict Bool)
  pub new_manager : ManagerOptions → Result (Unit {0})
  -- GetRESTMapper().ResourceFor, for the ManagedServiceAccounts
  pub resource_for : Result (Unit {0})
  -- addonmanager.New, and the clients of Kubernetes and of the add-ons for the manager's config
  pub new_addon_manager : Result (Unit {0})
  pub new_native_client : Result (Unit {0})
  pub new_addon_client : Result (Unit {0})
  pub getenv : String → String
  pub stat : String → Stat
  pub read_file : String → Result String
  -- Get of a Secret by the native client
  pub get_secret : Key → Result Secret
  -- BuildHelmAgentAddon, AddAgent, SetupWithManager of the controllers, and the starts
  pub build_agent_addon : String → Option Secret → Bool → Result (Unit {0})
  pub add_agent : Result (Unit {0})
  pub setup_ephemeral : Result (Unit {0})
  pub setup_cred_syncer : Result (Unit {0})
  pub start_addon_manager : Result (Unit {0})
  pub start_manager : Result (Unit {0})

docker_secret : Result Secret → Result (Option Secret)
docker_secret (err e) = err (wrap "fail to get agent image pull secret" e)
docker_secret (ok secret) =
    if secret.secret_type == "kubernetes.io/dockerconfigjson"
    then ok (some secret)
    else err (message "incorrect type for agent image pull secret")

-- getAgentImagePullSecret
unfoldable pub get_agent_image_pull_secret :
    (Key → Result Secret) → String → String → Result (Option Secret)
unfolding docker_secret
get_agent_image_pull_secret get_secret hub_namespace name =
    if name == ""
    then ok none
    else docker_secret (get_secret (record { namespace = hub_namespace; name = name }))

module _ (host : Host) where
  open host use {getenv}

  abbrev pub runs_addon_manager : HubManagerOptions → Bool
  runs_addon_manager o = not (o.deploy_mode == "AddOnTemplate")

  unfoldable pub hub_namespace : Result String
  unfolding own_namespace get_in_cluster_namespace
  hub_namespace =
      own_namespace (getenv "NAMESPACE") (get_in_cluster_namespace host.stat host.read_file)
        "the manager should be either running in a container or specify NAMESPACE environment"

  -- o.ImagePullSecretName, or else the environment's
  unfoldable pub pull_secret_name : HubManagerOptions → String
  pull_secret_name o =
      if o.image_pull_secret_name == ""
      then getenv "AGENT_IMAGE_PULL_SECRET"
      else o.image_pull_secret_name

  set_up_ephemeral : Dict Bool → Call (List Action) (Unit {0})
  unfolding required begin
  set_up_ephemeral gates =
      if is_on gates ephemeral_identity
      then (do
        required "unable to register EphemeralIdentityReconciler" host.setup_ephemeral
        begin ephemeral_controller)
      else pure tt

  -- the part of Run for all deployment modes but AddOnTemplate, up to the image pull secret
  prepare_addon : HubManagerOptions → Call (List Action) (Option Secret)
  unfolding required hub_namespace pull_secret_name get_agent_image_pull_secret
  prepare_addon o = do
    required "unable to set up addon manager" host.new_addon_manager
    required "unable to instantiate kubernetes native client" host.new_native_client
    required "unable to instantiate ocm addon client" host.new_addon_client
    namespace ← λ s. (hub_namespace, s)
    required "unable to get agent image pull secret"
        (get_agent_image_pull_secret host.get_secret namespace (pull_secret_name o))

  -- and from there on
  register_addon : HubManagerOptions → Dict Bool → Option Secret → Call (List Action) (Unit {0})
  unfolding required begin set_up_ephemeral
  register_addon o gates pull_secret = do
    required "failed to build agent"
        (host.build_agent_addon o.addon_agent_image_name pull_secret o.enable_network_policies)
    required "unable to register addon agent" host.add_agent
    begin (agent_addon addon_name o.addon_agent_image_name pull_secret o.enable_network_policies)
    set_up_ephemeral gates

  set_up_addon : HubManagerOptions → Dict Bool → Call (List Action) (Unit {0})
  unfolding prepare_addon register_addon
  set_up_addon o gates =
      if runs_addon_manager o
      then (do pull_secret ← prepare_addon o; register_addon o gates pull_secret)
      else pure tt

  set_up_syncer : Dict Bool → Call (List Action) (Unit {0})
  unfolding required begin
  set_up_syncer gates =
      if is_on gates cluster_profile
      then (do
        required "unable to register ClusterProfileCredSyncer" host.setup_cred_syncer
        begin cred_syncer)
      else pure tt

  start_addons : HubManagerOptions → Call (List Action) (Unit {0})
  unfolding required begin
  start_addons o =
      if runs_addon_manager o
      then (do begin addon_manager; required "unable to start addon agent" host.start_addon_manager)
      else pure tt

  -- Run up to the deployment mode
  prepare : HubManagerOptions → Call (List Action) (Dict Bool)
  unfolding required
  prepare o = do
    gates ← required "unable to set featuregates map" (host.set_from_map o.feature_gates_flags)
    required "unable to start manager" (
        host.new_manager (record {
          metrics_addr = o.metrics_addr;
          probe_addr = o.probe_addr;
          leader_election = o.enable_leader_election;
          leader_election_id = "managed-serviceaccount-addon-manager";
        }))
    required
        "no \"managedserviceaccounts\" resource found in the hub cluster, is the CRD installed?"
        host.resource_for
    pure gates

  unfoldable pub run : HubManagerOptions → Call (List Action) (Unit {0})
  unfolding required begin prepare set_up_addon set_up_syncer start_addons
  run o = do
    gates ← prepare o
    set_up_addon o gates
    set_up_syncer gates
    start_addons o
    begin manager
    required "problem running manager" host.start_manager
