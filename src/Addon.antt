-- ===== src/Addon.antt =====
-- pkg/addon/manager/addon.go: the values of the agent's chart, and the agent's registration and
-- permissions on the hub.
pub mod Base64
pub mod Prometheus
pub mod Values
pub mod Permission
mod Samples
use managed_serviceaccount.Prelude.{
  String, ◌<>◌, ◌==◌, ◌||◌, ◌&&◌, Bool, true, false, not, Option, none, some, List, [], ◌∷◌,
  if◌then◌else◌,
}
use managed_serviceaccount.Prelude.Dict.{Dict, lookup}
use managed_serviceaccount.Errors.{Error, Result, ok, err, message, wrap}
use managed_serviceaccount.Kube.{Bytes, Secret}
use managed_serviceaccount.Api.{addon_name, agent_name}
use managed_serviceaccount.Addon.Base64.{encode_std}

abbrev pub permission_name : String
permission_name = "managed-serviceaccount-addon-agent"

abbrev pub prometheus_enabled_variable_name : String
prometheus_enabled_variable_name = "prometheusEnabled"

abbrev pub prometheus_service_monitor_labels_variable_name : String
prometheus_service_monitor_labels_variable_name = "prometheusServiceMonitorLabels"

-- The values of GetDefaultValues: Image, networkPolicies.enabled, and imagePullSecretData if it is set.
pub record DefaultValues : Type 0 where
  pub image : String
  pub network_policies_enabled : Bool
  pub image_pull_secret_data : Option Bytes

with_docker_config : String → Bool → Secret → Option Bytes → Result DefaultValues
unfolding encode_std
with_docker_config image policies secret (some (b ∷ config)) = ok (record {
  image = image;
  network_policies_enabled = policies;
  image_pull_secret_data = some (encode_std (b ∷ config));
})
with_docker_config image policies secret _ = err (
    message (
      "image pull secret " <> secret.metadata.namespace <> "/" <> secret.metadata.name
      <> " missing \".dockerconfigjson\""))

-- GetDefaultValues; the cluster and the add-on are not read
unfoldable pub get_default_values : String → Option Secret → Bool → Result DefaultValues
unfolding with_docker_config lookup
get_default_values image none policies =
    ok
      (record { image = image; network_policies_enabled = policies; image_pull_secret_data = none })
get_default_values image (some secret) policies =
    with_docker_config image policies secret (lookup ".dockerconfigjson" secret.content)

-- prometheusValues; no labels are the nil map
pub record PrometheusValues : Type 0 where
  pub enabled : Bool
  pub labels : Dict String

-- A customized variable of an AddOnDeploymentConfig.
pub record Variable : Type 0 where
  pub name : String
  pub value : String

-- strconv.ParseBool
unfoldable pub parse_bool : String → Result Bool
parse_bool s =
    if s == "1" || s == "t" || s == "T" || s == "true" || s == "TRUE" || s == "True"
    then ok true
    else if s == "0" || s == "f" || s == "F" || s == "false" || s == "FALSE" || s == "False"
    then ok false
    else err (message "strconv.ParseBool: parsing: invalid syntax")

abbrev no_labels : Dict String → Bool
no_labels [] = true
no_labels (l ∷ ls) = false

-- `unmarshal` is json.Unmarshal of a text into a map that may have entries already.
module _ (unmarshal : String → Dict String → Result (Dict String)) where
  with_enabled : PrometheusValues → Result Bool → Result PrometheusValues
  with_enabled prometheus (ok enabled) = ok (record prometheus { enabled = enabled })
  with_enabled prometheus (err e) = err (wrap "invalid prometheusEnabled" e)

  with_labels : PrometheusValues → Result (Dict String) → Result PrometheusValues
  with_labels prometheus (ok labels) = ok (record prometheus { labels = labels })
  with_labels prometheus (err e) = err (wrap "invalid prometheusServiceMonitorLabels" e)

  -- the switch on the name of a variable
  assign : Variable → PrometheusValues → Result PrometheusValues
  unfolding with_enabled with_labels parse_bool
  assign variable prometheus =
      if variable.name == prometheus_enabled_variable_name
      then with_enabled prometheus (parse_bool variable.value)
      else if variable.name == prometheus_service_monitor_labels_variable_name
      then with_labels prometheus (unmarshal variable.value prometheus.labels)
      else ok prometheus

  -- the loop over the variables
  assign_all : List Variable → PrometheusValues → Result PrometheusValues
  unfolding assign
  assign_all [] prometheus = ok prometheus
  assign_all (variable ∷ variables) prometheus = elim (assign variable prometheus) [
    | ok next ↦ assign_all variables next
    | err e ↦ err e
  ]

  -- the values of the result: none if there is nothing to set
  nested : Result PrometheusValues → Result (Option PrometheusValues)
  nested (err e) = err e
  nested (ok prometheus) =
      if not prometheus.enabled && no_labels prometheus.labels
      then ok none
      else ok (some prometheus)

  -- ToAddOnPrometheusValues
  unfoldable pub to_add_on_prometheus_values : List Variable → Result (Option PrometheusValues)
  unfolding assign_all nested
  to_add_on_prometheus_values variables =
      nested (assign_all variables (record { enabled = false; labels = [] }))

-- A rule of an RBAC role.
pub record PolicyRule : Type 0 where
  pub api_groups : List String
  pub verbs : List String
  pub resources : List String

pub record Role : Type 0 where
  pub name : String
  pub rules : List PolicyRule

-- the role of setupPermission
abbrev pub agent_role : Role
agent_role = record {
  name = permission_name;
  rules =
      record {
        api_groups = "" ∷ [];
        verbs = "get" ∷ "list" ∷ "watch" ∷ "create" ∷ "update" ∷ "delete" ∷ [];
        resources = "secrets" ∷ [];
      }
      ∷ record {
        api_groups = "authentication.open-cluster-management.io" ∷ [];
        verbs = "get" ∷ "list" ∷ "watch" ∷ [];
        resources = "managedserviceaccounts" ∷ [];
      }
      ∷ record {
        api_groups = "authentication.open-cluster-management.io" ∷ [];
        verbs = "get" ∷ "update" ∷ "patch" ∷ [];
        resources = "managedserviceaccounts/status" ∷ [];
      }
      ∷ [];
}

-- What of agent.RegistrationOption depends on this code; `configurations` are those of
-- KubeClientSignerConfigurations for two names, and `bind_role` is the permission builder's binding of
-- a role.
pub record RegistrationOption (C P : Type 0) : Type 0 where
  pub configurations : C
  pub approve_check : Bool
  pub permission_config : P

-- approveAllCSRs
abbrev pub approve_all_csrs : Bool
approve_all_csrs = true

unfoldable pub new_registration_option :
    {C P : Type 0} → (String → String → C) → (Role → P) → RegistrationOption C P
new_registration_option signer bind_role = record {
  configurations = signer addon_name agent_name;
  approve_check = approve_all_csrs;
  permission_config = bind_role agent_role;
}
