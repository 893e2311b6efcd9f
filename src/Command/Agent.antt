-- ===== src/Command/Agent.antt =====
-- cmd/agent/agent.go: the start-up of the agent; and pkg/addon/agent/health/lease.go.
pub mod Plan
mod Samples
use managed_serviceaccount.Prelude.{
  String, ◌==◌, ◌||◌, Bool, true, false, not, Option, none, some, List, [], ◌∷◌, ◌++◌,
  if◌then◌else◌,
}
use managed_serviceaccount.Prelude.Dict.{Dict}
use managed_serviceaccount.Errors.{Error, Result, ok, err, message}
use managed_serviceaccount.Effect.{Call, pure, raise, ◌>>=◌, ◌>>◌}
use managed_serviceaccount.Api.{label_key_is_managed_service_account, addon_name}
use managed_serviceaccount.Command.{
  Stat, get_in_cluster_namespace, own_namespace, required, begin, is_on, ephemeral_identity,
}

pub record AgentOptions : Type 0 where
  pub metrics_addr : String
  pub enable_leader_election : Bool
  pub probe_addr : String
  pub feature_gates_flags : Dict Bool
  pub cluster_name : String
  pub spoke_kubeconfig : String
  pub lease_health_check : Bool

-- the options that AddFlags sets where no flag is given
abbrev pub default_agent_options : AgentOptions
default_agent_options = record {
  metrics_addr = ":38080";
  enable_leader_election = false;
  probe_addr = ":38081";
  feature_gates_flags = [];
  cluster_name = "";
  spoke_kubeconfig = "";
  lease_health_check = false;
}

-- What is set going, in the order of the code.
pub data Action : Type 0 where
  -- a cache of the service accounts with a label in a namespace, added to the manager
  spoke_cache : (namespace label value : String) → Action
  ephemeral_controller : Action
  token_controller : (spoke_namespace cluster_name : String) → Action
  lease_updates : (addon cluster_name spoke_namespace : String) → Action
  -- the health probes at an address, with a checker of files
  probes : String → List String → Action
  manager : Action

-- The options that the agent gives ctrl.NewManager.
pub record ManagerOptions (Config : Type 0) : Type 0 where
  pub metrics_addr : String
  pub probe_addr : String
  pub leader_election : Bool
  pub leader_election_id : String
  pub leader_election_config : Config
  pub namespaces : List String

-- The libraries that the start-up calls, and the process around it.
pub record Host : Type 1 where
  pub Config : Type 0
  -- FeatureGates.SetFromMap, with the gates that result
  pub set_from_map : Dict Bool → Result (Dict Bool)
  pub config_from_flags : String → String → Result Config
  pub in_cluster_config : Result Config
  -- ctrl.NewManager, with the manager's config; kubernetes.NewForConfig
  pub new_manager : ManagerOptions Config → Result Config
  pub new_client : Config → Result (Unit {0})
  -- the kinds of ServerResourcesForGroupVersion("v1")
  pub server_kinds : Config → Result (List String)
  pub getenv : String → String
  pub stat : String → Stat
  pub read_file : String → Result String
  -- cache.New and mgr.Add, SetupWithManager of the controllers, NewConfigChecker, and mgr.Start
  pub new_cache : Config → String → Result (Unit {0})
  pub add_cache : Result (Unit {0})
  pub setup_ephemeral : Result (Unit {0})
  pub setup_token : String → String → Result (Unit {0})
  pub config_checker : List String → Result (Unit {0})
  pub start_manager : Result (Unit {0})

-- the loop over the resources that looks for TokenRequest
abbrev pub has_token_request : List String → Bool
has_token_request [] = false
has_token_request (kind ∷ kinds) = has_token_request kinds || kind == "TokenRequest"

module _ (host : Host) where
  open host use {Config, getenv}

  unfoldable pub get_hub_kubeconfig_path : String
  get_hub_kubeconfig_path =
      if getenv "HUB_KUBECONFIG" == "" then "/etc/hub/kubeconfig" else getenv "HUB_KUBECONFIG"

  unfoldable pub config_checker_paths : AgentOptions → List String
  unfolding get_hub_kubeconfig_path
  config_checker_paths o =
      get_hub_kubeconfig_path ∷ (if o.spoke_kubeconfig == "" then [] else o.spoke_kubeconfig ∷ [])

  spoke_config : String → Call (List Action) Config
  unfolding required
  spoke_config kubeconfig =
      if kubeconfig == ""
      then required "failed build a in-cluster spoke cluster client config" host.in_cluster_config
      else required "failed to build a spoke cluster client config from --spoke-kubeconfig"
          (host.config_from_flags "" kubeconfig)

  unfoldable pub spoke_namespace : Result String
  unfolding own_namespace get_in_cluster_namespace
  spoke_namespace =
      own_namespace (getenv "NAMESPACE") (get_in_cluster_namespace host.stat host.read_file)
        "the agent should be either running in a container or specify NAMESPACE environment"

  discover : List String → Call (List Action) (Unit {0})
  discover kinds =
      if not (has_token_request kinds)
      then raise (
          message
            "No \"serviceaccounts/token\" resource discovered in the managed cluster,is --service-account-signing-key-file configured for the kube-apiserver?")
      else pure tt

  -- Run up to the namespace of the agent, which sets nothing going: the gates, the config of the
  -- managed cluster and the namespace
  prepare : AgentOptions → Call (List Action) (Dict Bool × Config × String)
  unfolding required spoke_config discover spoke_namespace
  prepare o = do
    gates ← required "unable to set featuregates map" (host.set_from_map o.feature_gates_flags)
    if o.cluster_name == "" then raise (message "missing --cluster-name") else pure tt
    spoke ← spoke_config o.spoke_kubeconfig
    hub ← required "unable to start manager" (
        host.new_manager (record {
          metrics_addr = o.metrics_addr;
          probe_addr = o.probe_addr;
          leader_election = o.enable_leader_election;
          leader_election_id = "managed-serviceaccount-addon-agent";
          leader_election_config = spoke;
          namespaces = o.cluster_name ∷ [];
        }))
    required "unable to instantiate a kubernetes native client" (host.new_client hub)
    required "unable to build a spoke kubernetes client" (host.new_client spoke)
    kinds ← required "Failed api discovery in the spoke cluster" (host.server_kinds spoke)
    discover kinds
    namespace ← λ s. (spoke_namespace, s)
    pure (gates, spoke, namespace)

  -- NewAddonHealthUpdater: a client of the managed cluster, and a lease for the hub
  unfoldable pub new_addon_health_updater : Config → Result (Unit {0})
  new_addon_health_updater spoke = host.new_client spoke

  set_up_lease : AgentOptions → Config → String → Call (List Action) (Unit {0})
  unfolding required begin new_addon_health_updater
  set_up_lease o spoke namespace =
      if o.lease_health_check
      then (do
        required "unable to create healthiness lease updater" (new_addon_health_updater spoke)
        begin (lease_updates addon_name o.cluster_name namespace))
      else pure tt

  set_up_ephemeral : Dict Bool → Call (List Action) (Unit {0})
  unfolding required begin
  set_up_ephemeral gates =
      if is_on gates ephemeral_identity
      then (do
        required "unable to register EphemeralIdentityReconciler" host.setup_ephemeral
        begin ephemeral_controller)
      else pure tt

  -- Run from the cache of service accounts on
  launch : AgentOptions → Dict Bool → Config → String → Call (List Action) (Unit {0})
  unfolding required begin set_up_ephemeral set_up_lease config_checker_paths
  launch o gates spoke namespace = do
    required "unable to instantiate a spoke serviceaccount cache" (host.new_cache spoke namespace)
    required "unable to add spoke cache to manager" host.add_cache
    begin (spoke_cache namespace label_key_is_managed_service_account "true")
    set_up_ephemeral gates
    required "unable to create controller" (host.setup_token namespace o.cluster_name)
    begin (token_controller namespace o.cluster_name)
    set_up_lease o spoke namespace
    required "unable to create config checker" (host.config_checker (config_checker_paths o))
    begin (probes ":8000" (config_checker_paths o))
    begin manager
    required "unable to start controller manager" host.start_manager

  unfoldable pub run : AgentOptions → Call (List Action) (Unit {0})
  unfolding prepare launch
  run o = do (gates, spoke, namespace) ← prepare o; launch o gates spoke namespace
