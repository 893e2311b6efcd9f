-- ===== src/Plugin/Samples.antt =====
-- A process in a pod, runs of the plugin in it, and the theorems at concrete data.
use managed_serviceaccount.Prelude.{
  ◌*◌, String, ◌==◌, false, Option, none, some, [], ◌∷◌, ◌≡◌, ◌≢◌, ◌↔◌, ◌⊎◌, inl, inr, refl, arith,
  eq_iff, Bool-cases, if◌then◌else◌,
}
use managed_serviceaccount.Prelude.Dict.{lookup}
use managed_serviceaccount.Errors.{Result, ok, err, message, is_not_found, is_already_exists}
use managed_serviceaccount.Effect.{next, attempted, wrapped}
use managed_serviceaccount.Effect.Triple.{Ends}
use managed_serviceaccount.Kube.{Bytes, Key, Secret, key_of, same_key}
use managed_serviceaccount.Prelude.Int.{pos, ◌+ℤ◌, ◌-ℤ◌, wrap64, scale, quo, saturate64}
use managed_serviceaccount.Gotime.{second}
use managed_serviceaccount.Api.{Status-discrete}
use managed_serviceaccount.Profile.Cred.Compare.{NodupKeys}
use managed_serviceaccount.Token.Cluster.{Cluster}
use managed_serviceaccount.Token.Cluster.Laws.{IsKeyed}
use managed_serviceaccount.Token.Jwt.{check_user_in_token, username}
use managed_serviceaccount.Token.Memory.{Memory, put_condition, memory, memory-IsLawful}
use managed_serviceaccount.Token.Reconcile.{reconcile}
use managed_serviceaccount.Token.Samples.{config, request, recorded, only}
use managed_serviceaccount.Gotext.{is_space}
use managed_serviceaccount.Gotext.Trim.{IsBlank}
use managed_serviceaccount.Profile.Cred.{synced_name}
use managed_serviceaccount.Profile.Sync
use managed_serviceaccount.Profile.Sync.{sync_creds}
use managed_serviceaccount.Profile.Memory.{good_token, source, account, profile, held_at, hub}
use managed_serviceaccount.Profile.Memory.Lawful.{hub-IsLawful, absent, ref, source-NodupKeys}
use managed_serviceaccount.Plugin.{
  Host, ExecCredential, Provider, exits, new_default, infer_namespace, get_token, main,
}
use managed_serviceaccount.Plugin.Token.{Answers, get_token_iff}
use managed_serviceaccount.Plugin.Namespace.{infer_namespace-blank_file}
use managed_serviceaccount.Plugin.Delivered.{AreMaps, Delivered, reconcile-Delivered}
use managed_serviceaccount.Plugin.Synced.{IsSetFor, Unread, sync_creds-get_token}

-- a pod with a value of NAMESPACE and a namespace file; the config is the name of cluster c1
abbrev pod : String → String → Host (Option Secret)
pod namespace file = record {
  Config = Unit;
  getenv = λ n. if n == "NAMESPACE" then namespace else "";
  read_file = λ _. ok file;
  in_cluster_config = ok tt;
  config_from_flags = λ _ _. err (message "no kubeconfig");
  new_client = λ _. ok hub.get_secret;
  context_namespace = λ _. ok "other";
  unmarshal_cluster_name = λ _. ok "c1";
}

abbrev provider : Provider (Option Secret)
provider = record { kube_client = some hub.get_secret; managed_service_account = "m" }

abbrev credential : ExecCredential
credential = record { cluster_config = some (123 ∷ []) }

run : String → String → Option Secret → Result Bytes
unfolding sync_creds get_token next attempted wrapped synced_name lookup is_not_found
run namespace file s =
    (next (sync_creds hub account profile s)
      (λ _. get_token (pod namespace file) provider credential)).0

run_synced : run " fleet " "" none ≡ ok good_token
unfolding run
run_synced = refl

main_unnamed : main (pod "fleet" "") "" ≡ exits 1
unfolding main
main_unnamed = refl

provider_named : new_default (pod "fleet" "") "m" ≡ ok provider
unfolding new_default
provider_named = refl

get_token_iff_example :
    ((get_token (pod "fleet" "") provider credential none).0 ≡ ok good_token)
    ↔ Answers (pod "fleet" "") provider credential none good_token
get_token_iff_example = get_token_iff (pod "fleet" "") provider credential none good_token

abbrev spaces : String
spaces = " "

some_spaces : spaces ≢ ""
some_spaces h = cc (h)

spaces-IsBlank : IsBlank spaces
unfolding is_space
spaces-IsBlank = (refl, tt)

infer_namespace-blank_file_example : infer_namespace (pod "" spaces) ≡ ""
infer_namespace-blank_file_example =
    infer_namespace-blank_file (pod "" spaces) spaces tt refl some_spaces spaces-IsBlank

source_token : lookup "token" source.content ≡ some good_token
unfolding lookup
source_token = refl

set_for : IsSetFor hub (pod "fleet" "") account profile provider credential
unfolding infer_namespace
set_for = record {
  raw = 123 ∷ [];
  has_client = refl;
  has_config = refl;
  config_there = λ h. cc (h);
  has_cluster = refl;
  cluster_there = refl;
  account = refl;
  namespace = refl;
}

sync_creds-get_token_example :
    Ends
      (λ b _. b ≡ good_token)
      (λ e t.
        (held_at t ≡ held_at none)
        ⊎ Unread hub hub-IsLawful (pod "fleet" "") account profile source good_token e)
      (next
        (sync_creds hub account profile none)
        (λ _. get_token (pod "fleet" "") provider credential))
sync_creds-get_token_example =
    sync_creds-get_token hub hub-IsLawful (pod "fleet" "") account profile source good_token
      provider credential none ref set_for refl refl source-NodupKeys absent source_token
      (λ h. cc (h))

-- The hub's secrets are those of the sample of the syncer, with a token that the agent keeps.
no_secret : (x : Secret) → Path (Option Secret) none (some x) → ⊥
no_secret x h = cc (h)

abbrev world : Memory
world = record {
  held = record {
    accounts = only request recorded;
    secrets = held_at none;
    spoke_accounts = λ _. none;
  };
  clock = pos (10 * second);
}

abbrev cluster : Cluster
cluster = memory (username "agent" "m") []

world-IsKeyed : IsKeyed world.held
world-IsKeyed = record {
  accounts = λ k x h. ground (arith, eq_iff k.namespace "c1", eq_iff k.name "m", h);
  secrets = λ k x h. hub-IsLawful.keyed k x none h;
}

world-AreMaps : AreMaps world.held.secrets
world-AreMaps k x h = elim (Bool-cases (same_key (key_of source.metadata) k)) [
  | inl same ↦
      let e : source ≡ x = cc (rw same at h) in
      coe 0 1 (i. NodupKeys (e i).content) source-NodupKeys
  | inr differ ↦ absurd (no_secret x (rw differ at h))
]

kept_token : reconcile cluster config request world ≡ (
  ok (record { requeue = false; requeue_after = pos (75 * second) }),
  (reconcile cluster config request world).1,
)
unfolding reconcile Status-discrete next attempted wrapped is_not_found is_already_exists
    check_user_in_token ◌+ℤ◌ ◌-ℤ◌ wrap64 scale quo saturate64 put_condition
kept_token = refl

kept_secrets : held_at none ≡ (reconcile cluster config request world).1.held.secrets
unfolding reconcile Status-discrete next attempted wrapped is_not_found is_already_exists
    check_user_in_token ◌+ℤ◌ ◌-ℤ◌ wrap64 scale quo saturate64 put_condition
kept_secrets = refl

recorded-IsSetFor : IsSetFor hub (pod "fleet" "") recorded profile provider credential
unfolding infer_namespace
recorded-IsSetFor = record {
  raw = 123 ∷ [];
  has_client = refl;
  has_config = refl;
  config_there = λ h. cc (h);
  has_cluster = refl;
  cluster_there = refl;
  account = refl;
  namespace = refl;
}

reconcile-Delivered_example :
    Delivered request
      (reconcile cluster config request world).1.held
      recorded
      hub
      hub-IsLawful
      none
      profile
      (pod "fleet" "")
      provider
      credential
reconcile-Delivered_example =
    reconcile-Delivered cluster config (memory-IsLawful (username "agent" "m") []) request recorded
      world (reconcile cluster config request world).1
      (record { requeue = false; requeue_after = pos (75 * second) }) hub hub-IsLawful none profile
      (pod "fleet" "") provider credential world-IsKeyed world-AreMaps refl kept_token kept_secrets
      recorded-IsSetFor

-- The request for the profile that the plugin is set up for.
abbrev profile_request : Key
profile_request = record { namespace = "fleet"; name = "c1" }
