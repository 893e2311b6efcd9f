-- ===== src/Command/Agent/Samples.antt =====
-- A start-up of the agent, and one that the managed cluster stops.
use managed_serviceaccount.Prelude.{
  String, ◌==◌, Bool, true, false, List, [], ◌∷◌, ◌≡◌, ◌⊎◌, refl, if◌then◌else◌,
}
use managed_serviceaccount.Prelude.Dict.{Dict}
use managed_serviceaccount.Errors.{ok, err, message}
use managed_serviceaccount.Effect.{next}
use managed_serviceaccount.Effect.Triple.{Ends}
use managed_serviceaccount.Api.{label_key_is_managed_service_account, addon_name}
use managed_serviceaccount.Command.{not_exists, is_on, ephemeral_identity}
use managed_serviceaccount.Command.Trace.{IsPart}
use managed_serviceaccount.Command.Agent.{
  AgentOptions, default_agent_options, spoke_cache, ephemeral_controller, token_controller,
  lease_updates, probes, manager, Host, run,
}
use managed_serviceaccount.Command.Agent.Plan.{plan, IsReady, agent_run-plan}

-- A host whose calls succeed, with a managed cluster that serves some kinds.
abbrev host_with : List String → Host
host_with kinds = record {
  Config = String;
  set_from_map = λ flags. ok flags;
  config_from_flags = λ _ path. ok path;
  in_cluster_config = ok "pod";
  new_manager = λ _. ok "hub";
  new_client = λ _. ok tt;
  server_kinds = λ _. ok kinds;
  getenv = λ name. if name == "NAMESPACE" then "addon" else "";
  stat = λ _. not_exists;
  read_file = λ _. err (message "no such file");
  new_cache = λ _ _. ok tt;
  add_cache = ok tt;
  setup_ephemeral = ok tt;
  setup_token = λ _ _. ok tt;
  config_checker = λ _. ok tt;
  start_manager = ok tt;
}

abbrev host : Host
host = host_with ("Pod" ∷ "TokenRequest" ∷ [])

abbrev options : AgentOptions
options = record {
  metrics_addr = ":38080";
  enable_leader_election = false;
  probe_addr = ":38081";
  feature_gates_flags = (ephemeral_identity, true) ∷ [];
  cluster_name = "c1";
  spoke_kubeconfig = "";
  lease_health_check = true;
}

all_set_going : run host options [] ≡ (
  ok tt,
  spoke_cache "addon" label_key_is_managed_service_account "true"
      ∷ ephemeral_controller
      ∷ token_controller "addon" "c1"
      ∷ lease_updates addon_name "c1" "addon"
      ∷ probes ":8000" ("/etc/hub/kubeconfig" ∷ [])
      ∷ manager
      ∷ [],
)
unfolding run next is_on
all_set_going = refl

no_tokens : (run (host_with ("Pod" ∷ [])) options []).1 ≡ []
unfolding run next
no_tokens = refl

no_cluster_name : run host default_agent_options [] ≡ (err (message "missing --cluster-name"), [])
unfolding run next
no_cluster_name = refl

agent_run-plan_example :
    Ends
      (λ _ t.
        (gates : Dict Bool) × (namespace : String) × IsReady host options gates namespace
        × (t ≡ plan host options gates namespace))
      (λ _ t.
        (t ≡ [])
        ⊎ ((gates : Dict Bool) × (namespace : String) × IsReady host options gates namespace
            × IsPart (plan host options gates namespace) [] t))
      (run host options [])
agent_run-plan_example = agent_run-plan host options []
