-- ===== src/Addon/Samples.antt =====
-- The add-on at concrete configurations, and the theorems there.
use managed_serviceaccount.Prelude.{
  String, true, false, Option, none, some, List, [], ◌∷◌, ◌≡◌, refl, arith,
}
use managed_serviceaccount.Prelude.Dict.{Dict, lookup}
use managed_serviceaccount.Prelude.Int.{pos}
use managed_serviceaccount.Errors.{Error, Result, ok, err, message}
use managed_serviceaccount.Kube.{Secret}
use managed_serviceaccount.Addon.{
  Variable, PrometheusValues, DefaultValues, parse_bool, prometheus_enabled_variable_name,
  get_default_values, to_add_on_prometheus_values, permission_name, new_registration_option,
}
use managed_serviceaccount.Addon.Base64.{encode_std}
use managed_serviceaccount.Addon.Prometheus.{last_value, to_add_on_prometheus_values-enabled}
use managed_serviceaccount.Addon.Values.{Carries, get_default_values-Carries}

abbrev set : String → String → Variable
set name value = record { name = name; value = value }

abbrev one_label : String → Dict String → Result (Dict String)
one_label text labels = ok (("team", text) ∷ labels)

abbrev variables : List Variable
variables =
    set "prometheusEnabled" "0"
    ∷ set "other" "x"
    ∷ set "prometheusServiceMonitorLabels" "a"
    ∷ set "prometheusEnabled" "True"
    ∷ []

abbrev outcome : Option PrometheusValues
outcome = some (record { enabled = true; labels = ("team", "a") ∷ [] })

last_wins : to_add_on_prometheus_values one_label variables ≡ ok outcome
unfolding to_add_on_prometheus_values
last_wins = refl

nothing_set : to_add_on_prometheus_values one_label (set "prometheusEnabled" "f" ∷ []) ≡ ok none
unfolding to_add_on_prometheus_values
nothing_set = refl

to_add_on_prometheus_values-enabled_example :
    ((s : String)
      → last_value prometheus_enabled_variable_name variables ≡ some s
      → parse_bool s ≡ ok true)
    × (last_value prometheus_enabled_variable_name variables ≡ none → true ≡ false)
to_add_on_prometheus_values-enabled_example =
    to_add_on_prometheus_values-enabled one_label variables outcome last_wins

abbrev bad : Error
bad = message "strconv.ParseBool: parsing: invalid syntax"

yes_is_no_truth : parse_bool "yes" ≡ err bad
unfolding parse_bool
yes_is_no_truth = refl

abbrev pull_secret : Secret
pull_secret = record {
  metadata = record {
    namespace = "hub";
    name = "pull";
    uid = "";
    labels = [];
    owner_references = [];
    creation_timestamp = pos 0;
  };
  secret_type = "kubernetes.io/dockerconfigjson";
  content = (".dockerconfigjson", 123 ∷ 125 ∷ []) ∷ [];
}

encoded_braces : encode_std (123 ∷ 125 ∷ []) ≡ 101 ∷ 51 ∷ 48 ∷ 61 ∷ []
unfolding encode_std
encoded_braces = refl

pull_config : lookup ".dockerconfigjson" pull_secret.content ≡ some (123 ∷ 125 ∷ [])
unfolding lookup
pull_config = refl

get_default_values-Carries_example :
    (values : DefaultValues) × (get_default_values "image" (some pull_secret) true ≡ ok values)
    × Carries "image" true (123 ∷ 125 ∷ []) values
get_default_values-Carries_example =
    get_default_values-Carries "image" true pull_secret (123 ∷ 125 ∷ []) (omega arith) pull_config
      (λ h. cc (h))

registers_agent :
    (new_registration_option {C = String × String} {P = String}
      (λ addon agent. (addon, agent))
      (λ role. role.name)).permission_config
    ≡ permission_name
unfolding new_registration_option
registers_agent = refl
