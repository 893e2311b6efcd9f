-- ===== src/Plugin.antt =====
-- cmd/clusterprofile-credentials-plugin/main.go: the exec plugin that reads the synced copy of a token.
pub mod Token
pub mod Namespace
pub mod Synced
pub mod Delivered
pub mod Mirrored
mod Samples
use managed_serviceaccount.Prelude.{
  ℕ, String, ◌<>◌, ◌==◌, ◌||◌, ◌&&◌, Bool, true, false, not, Option, none, some, List, [], ◌∷◌,
  if◌then◌else◌,
}
use managed_serviceaccount.Prelude.Dict.{lookup}
use managed_serviceaccount.Errors.{Error, Result, ok, err, message, wrap}
use managed_serviceaccount.Effect.{Call, pure, raise, attempt, ◌>>=◌}
use managed_serviceaccount.Kube.{Bytes, Key, Secret}
use managed_serviceaccount.Gotext.{trim_space}
use managed_serviceaccount.Profile.Cred.{cluster_profile_manager_name}

-- What the process finds around it: its environment and files, and the client libraries. A Config is a
-- rest.Config, and a Client a kubernetes.Interface.
pub record Host (S : Type 0) : Type 1 where
  pub Config : Type 0
  -- os.Getenv, with "" for a variable that is not set; os.ReadFile
  pub getenv : String → String
  pub read_file : String → Result String
  -- rest.InClusterConfig, clientcmd.BuildConfigFromFlags and kubernetes.NewForConfig; a client reads secrets
  pub in_cluster_config : Result Config
  pub config_from_flags : String → String → Result Config
  pub new_client : Config → Result (Key → Call S Secret)
  -- Namespace() of the deferred loading client config, for an explicit path or none
  pub context_namespace : Option String → Result String
  -- json.Unmarshal into execClusterConfig: the clusterName
  pub unmarshal_cluster_name : Bytes → Result String

-- An ExecCredential: the raw bytes of spec.cluster.config, where there is a cluster.
pub record ExecCredential : Type 0 where
  pub cluster_config : Option Bytes

pub record Provider (S : Type 0) : Type 0 where
  -- none is the nil client
  pub kube_client : Option (Key → Call S Secret)
  pub managed_service_account : String

-- Provider.Name
abbrev pub provider_name : String
provider_name = cluster_profile_manager_name

abbrev pub namespace_file : String
namespace_file = "/var/run/secrets/kubernetes.io/serviceaccount/namespace"

module _ {S : Type 0} (host : Host S) where
  open host use {getenv}

  -- the kubeconfig that NewDefault falls back to
  unfoldable pub fallback_path : String
  fallback_path =
      if getenv "KUBECONFIG" == "" then getenv "HOME" <> "/.kube/config" else getenv "KUBECONFIG"

  fallback_config : Result host.Config → Result host.Config
  unfolding fallback_path
  fallback_config (ok cfg) = ok cfg
  fallback_config (err _) = elim (host.config_from_flags "" fallback_path) [
    | ok cfg ↦ ok cfg
    | err e ↦ err (wrap "failed to build kube client config" e)
  ]

  provider_from : String → Result host.Config → Result (Provider S)
  provider_from msa_name (err e) = err e
  provider_from msa_name (ok cfg) = elim (host.new_client cfg) [
    | ok client ↦ ok (record { kube_client = some client; managed_service_account = msa_name })
    | err e ↦ err (wrap "failed to create kubernetes clientset" e)
  ]

  -- NewDefault
  unfoldable pub new_default : String → Result (Provider S)
  unfolding fallback_config provider_from
  new_default msa_name =
      if msa_name == ""
      then err (message "managed-serviceaccount name is required")
      else provider_from msa_name (fallback_config host.in_cluster_config)

  -- the third way of inferNamespace: the current context of a kubeconfig
  from_context : Result String → String
  unfolding trim_space
  from_context (err _) = "default"
  from_context (ok n) = if trim_space n == "" then "default" else n

  explicit_path : String → Option String
  unfolding trim_space
  explicit_path path = if trim_space path == "" then none else some path

  -- the second way: the namespace file of the pod
  from_file : Result String → String
  unfolding from_context explicit_path
  from_file (err _) = from_context (host.context_namespace (explicit_path (getenv "KUBECONFIG")))
  from_file (ok text) =
      if text == ""
      then from_context (host.context_namespace (explicit_path (getenv "KUBECONFIG")))
      else trim_space text

  unfoldable pub infer_namespace : String
  unfolding from_file
  infer_namespace =
      if trim_space (getenv "NAMESPACE") == ""
      then from_file (host.read_file namespace_file)
      else trim_space (getenv "NAMESPACE")

  -- GetToken, from the reply to the read of the secret on
  secret_text : Key → String
  secret_text k = k.namespace <> "/" <> k.name

  token_in : Key → Option Bytes → Result Bytes
  unfolding secret_text
  token_in k (some (b ∷ token)) = ok (b ∷ token)
  token_in k _ = err (message ("secret " <> secret_text k <> " missing or empty \"token\" key"))

  extract : Key → Result Secret → Call S Bytes
  unfolding token_in secret_text
  extract k (err e) s =
      raise (wrap ("failed to get synced credential secret " <> secret_text k) e) s
  extract k (ok secret) s = (token_in k (lookup "token" secret.content), s)

  -- GetToken, from a cluster name on
  read_token : (Key → Call S Secret) → String → String → Call S Bytes
  unfolding infer_namespace extract
  read_token client msa_name cluster_name =
      let k : Key = record {
        namespace = infer_namespace;
        name = cluster_name <> "-" <> msa_name;
      } in
      attempt (client k) >>= extract k

  with_cluster : (Key → Call S Secret) → String → Result String → Call S Bytes
  unfolding read_token
  with_cluster client msa_name (err e) = raise (wrap "invalid ExecCredential.Spec.Cluster.Config" e)
  with_cluster client msa_name (ok cluster_name) =
      if cluster_name == ""
      then raise (message "missing clusterName in ExecCredential.Spec.Cluster.Config")
      else read_token client msa_name cluster_name

  with_config : (Key → Call S Secret) → String → Option Bytes → Call S Bytes
  unfolding with_cluster
  with_config client msa_name (some (b ∷ raw)) =
      with_cluster client msa_name (host.unmarshal_cluster_name (b ∷ raw))
  with_config client msa_name _ = raise (message "missing ExecCredential.Spec.Cluster.Config")

  with_client : Option (Key → Call S Secret) → String → Option Bytes → Call S Bytes
  unfolding with_config
  with_client none msa_name raw = raise (message "provider clients are not initialized")
  with_client (some client) msa_name raw = with_config client msa_name raw

  -- GetToken: the token of the status
  unfoldable pub get_token : Provider S → ExecCredential → Call S Bytes
  unfolding with_client
  get_token p info = with_client p.kube_client p.managed_service_account info.cluster_config

  -- what main does: it ends the process with a code, or serves a provider
  pub data Ending : Type 0 where
    exits : ℕ → Ending
    serves : Provider S → Ending

  served : Result (Provider S) → Ending
  served (ok p) = serves p
  served (err e) = exits 1

  -- main, for the value of --managed-serviceaccount
  unfoldable pub main : String → Ending
  unfolding new_default served
  main msa_name = if msa_name == "" then exits 1 else served (new_default msa_name)
