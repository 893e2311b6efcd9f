-- ===== src/Token/Sync.antt =====
-- createToken, ensureServiceAccount and sync of pkg/addon/agent/controller/token.go.
pub mod Effects
pub mod Malformed
use managed_serviceaccount.Prelude.{String, Bool, not, Option, none, some, [], ◌∷◌, if◌then◌else◌}
use managed_serviceaccount.Gotime.{Time}
use managed_serviceaccount.Errors.{Result, ok, err, is_not_found, is_already_exists, wrap}
use managed_serviceaccount.Effect.{Call, pure, raise, lift, attempt, wrapf, ◌>>=◌, ◌>>◌}
use managed_serviceaccount.Kube.{Bytes, Key, key_of, Secret, ServiceAccount}
use managed_serviceaccount.Api.{ManagedServiceAccount, label_key_is_managed_service_account}
use managed_serviceaccount.Prelude.Int.{pos}
use managed_serviceaccount.Token.Cluster.{Cluster}
use managed_serviceaccount.Token.Rotation.{should_create_update_token_secret}
use managed_serviceaccount.Token.Build.{build_secret}

-- The fields of TokenReconciler that are no clients.
pub record Config : Type 0 where
  pub spoke_namespace : String
  pub cluster_name : String
  -- SpokeClientConfig.CAData and CAFile
  pub ca_data : Bytes
  pub ca_file : String

-- The key of the service account of a ManagedServiceAccount on the managed cluster.
abbrev pub spoke_key : Config → String → Key
spoke_key config name = record { namespace = config.spoke_namespace; name = name }

abbrev pub managed_account : Config → String → ServiceAccount
managed_account config name = record {
  metadata = record {
    namespace = config.spoke_namespace;
    name = name;
    uid = "";
    labels = (label_key_is_managed_service_account, "true") ∷ [];
    owner_references = [];
    creation_timestamp = pos 0;
  };
}

-- the current token secret, from the reply to its read: none if it is not there
current_secret : Result Secret → Result (Option Secret)
current_secret (ok secret) = ok (some secret)
current_secret (err e) =
    if is_not_found e
    then ok none
    else err (wrap "failed to read current token secret from hub cluster" e)

module _ (C : Cluster) (config : Config) where
  open C use {State}

  ensured : Result (Unit {0}) → Call State (Unit {0})
  ensured (ok _) = pure tt
  ensured (err e) =
      if is_already_exists e then pure tt else raise (wrap "failed ensuring service account" e)

  unfoldable pub ensure_service_account : ManagedServiceAccount → Call State (Unit {0})
  unfolding ensured
  ensure_service_account managed = do
    reply ← attempt (C.create_spoke_account (managed_account config managed.metadata.name))
    ensured reply

  unfoldable pub create_token : ManagedServiceAccount → Call State (Bytes × Time)
  create_token managed =
      C.create_token (spoke_key config managed.metadata.name)
        (C.whole_seconds managed.spec.rotation.validity)

  -- SpokeClientConfig.CAData, or else the file that it names
  abbrev pub read_ca : Bytes → Call State Bytes
  read_ca [] = wrapf "failed to read CA data from file" (C.read_file config.ca_file)
  read_ca (b ∷ data_left) = pure (b ∷ data_left)

  abbrev write_secret : Option Secret → Secret → Call State (Unit {0})
  write_secret (some current) secret =
      wrapf "failed to update the token secret" (C.update_secret secret)
  write_secret none secret = wrapf "failed to create the token secret" (C.create_secret secret)

  -- the second half of sync: a new token, and its secret
  refresh : ManagedServiceAccount → Option Secret → Call State (Option Time)
  unfolding create_token build_secret
  refresh managed current = do
    (token, expiring) ← wrapf "failed to request token for service-account" (create_token managed)
    ca_data ← read_ca config.ca_data
    write_secret current (build_secret managed current ca_data token)
    pure (some expiring)

  settle : ManagedServiceAccount → Option Secret → Bool → Call State (Option Time)
  unfolding refresh
  settle managed none should = refresh managed none
  settle managed (some secret) should =
      if not should then pure none else refresh managed (some secret)

  unfoldable pub sync : ManagedServiceAccount → Call State (Option Time)
  unfolding current_secret settle should_create_update_token_secret
  sync managed = do
    reply ← attempt (C.get_secret (key_of managed.metadata))
    current ← lift (current_secret reply)
    should ←
        wrapf "failed to make a decision on token creation"
          (should_create_update_token_secret C config.spoke_namespace managed current)
    settle managed current should
