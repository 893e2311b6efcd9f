-- ===== src/Command/Manager/Samples.antt =====
-- A start-up of the manager with a pull secret, and one without an add-on manager.
use managed_serviceaccount.Prelude.{
  String, ◌==◌, Bool, true, false, Option, some, [], ◌∷◌, ◌≡◌, ◌≢◌, ◌↔◌, ◌⊎◌, refl, if◌then◌else◌,
}
use managed_serviceaccount.Prelude.Dict.{Dict}
use managed_serviceaccount.Prelude.Int.{pos}
use managed_serviceaccount.Errors.{Result, ok, err, not_found}
use managed_serviceaccount.Effect.{next}
use managed_serviceaccount.Effect.Triple.{Ends}
use managed_serviceaccount.Kube.{Key, Secret}
use managed_serviceaccount.Api.{addon_name}
use managed_serviceaccount.Command.{exists, is_on, ephemeral_identity, cluster_profile}
use managed_serviceaccount.Command.Trace.{IsPart}
use managed_serviceaccount.Command.Manager.{
  HubManagerOptions, default_hub_manager_options, agent_addon, ephemeral_controller, cred_syncer,
  addon_manager, manager, Host, get_agent_image_pull_secret, run,
}
use managed_serviceaccount.Command.Manager.PullSecret.{get_agent_image_pull_secret_iff}
use managed_serviceaccount.Command.Manager.Plan.{plan, IsReady, manager_run-plan}

abbrev docker : Secret
docker = record {
  metadata = record {
    namespace = "addon";
    name = "pull";
    uid = "";
    labels = [];
    owner_references = [];
    creation_timestamp = pos 0;
  };
  secret_type = "kubernetes.io/dockerconfigjson";
  content = [];
}

abbrev stored : Key → Result Secret
stored key = if key.name == "pull" then ok docker else err (not_found "no such secret")

-- A host whose calls succeed, with the name of the pull secret in the environment.
abbrev host : Host
host = record {
  set_from_map = λ flags. ok flags;
  new_manager = λ _. ok tt;
  resource_for = ok tt;
  new_addon_manager = ok tt;
  new_native_client = ok tt;
  new_addon_client = ok tt;
  getenv = λ name. if name == "AGENT_IMAGE_PULL_SECRET" then "pull" else "";
  stat = λ _. exists;
  read_file = λ _. ok "addon";
  get_secret = stored;
  build_agent_addon = λ _ _ _. ok tt;
  add_agent = ok tt;
  setup_ephemeral = ok tt;
  setup_cred_syncer = ok tt;
  start_addon_manager = ok tt;
  start_manager = ok tt;
}

abbrev options : String → HubManagerOptions
options mode = record {
  metrics_addr = ":38080";
  enable_leader_election = false;
  probe_addr = ":38081";
  addon_agent_image_name = "agent";
  image_pull_secret_name = "";
  deploy_mode = mode;
  feature_gates_flags = (ephemeral_identity, true) ∷ (cluster_profile, true) ∷ [];
  enable_network_policies = false;
}

all_set_going : run host (options "Deployment") [] ≡ (
  ok tt,
  agent_addon addon_name "agent" (some docker) false
      ∷ ephemeral_controller
      ∷ cred_syncer
      ∷ addon_manager
      ∷ manager
      ∷ [],
)
unfolding run next is_on
all_set_going = refl

template_set_going : run host (options "AddOnTemplate") [] ≡ (ok tt, cred_syncer ∷ manager ∷ [])
unfolding run next is_on
template_set_going = refl

defaults_set_going :
    (run host default_hub_manager_options []).1
    ≡ agent_addon addon_name default_hub_manager_options.addon_agent_image_name (some docker) false
      ∷ addon_manager
      ∷ manager
      ∷ []
unfolding run next is_on
defaults_set_going = refl

get_agent_image_pull_secret_iff_example :
    (get_agent_image_pull_secret stored "addon" "pull" ≡ ok (some docker)) ↔ (
      (◌≢◌ {A = String} "pull" "")
      × (stored (record { namespace = "addon"; name = "pull" }) ≡ ok docker)
      × (docker.secret_type ≡ "kubernetes.io/dockerconfigjson"))
get_agent_image_pull_secret_iff_example =
    get_agent_image_pull_secret_iff stored "addon" "pull" docker

manager_run-plan_example :
    Ends
      (λ _ t.
        (gates : Dict Bool) × (pull_secret : Option Secret) × IsReady host
          (options "Deployment")
          gates
          pull_secret
        × (t ≡ plan host (options "Deployment") gates pull_secret))
      (λ _ t.
        (t ≡ [])
        ⊎ ((gates : Dict Bool) × (pull_secret : Option Secret) × IsReady host
              (options "Deployment")
              gates
              pull_secret
            × IsPart (plan host (options "Deployment") gates pull_secret) [] t))
      (run host (options "Deployment") [])
manager_run-plan_example = manager_run-plan host (options "Deployment") []
