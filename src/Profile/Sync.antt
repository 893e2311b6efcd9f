-- ===== src/Profile/Sync.antt =====
-- The syncer of clusterprofile_cred_syncer.go: which ClusterProfiles an event is about, the copy of one
-- token secret, the removal of orphaned copies, and the reconcile that does both.
pub mod Accounts
pub mod Cleanup
pub mod Confined
pub mod Copy
pub mod Mirror
pub mod Requests
pub mod Settled
pub mod Watch
use managed_serviceaccount.Prelude.{
  String, ◌<>◌, ◌==◌, Bool, true, false, not, ◌||◌, Option, none, some, List, [], ◌∷◌, ◌++◌,
  if◌then◌else◌,
}
use managed_serviceaccount.Prelude.Dict.{value_at}
use managed_serviceaccount.Prelude.Int.{pos}
use managed_serviceaccount.Errors.{Error, Result, ok, err, is_not_found, wrap}
use managed_serviceaccount.Effect.{Call, pure, raise, attempt, wrapf, ◌>>=◌, ◌>>◌}
use managed_serviceaccount.Kube.{Key, Secret, Outcome}
use managed_serviceaccount.Api.{ManagedServiceAccount, SecretRef}
use managed_serviceaccount.Profile.Hub.{Hub, ClusterProfile}
use managed_serviceaccount.Profile.Cred.{
  label_key_synced_from, label_key_cluster_profile_sync, synced_name, build_synced_cred,
  secret_needs_update, is_owned_by_cluster_profile,
}

-- types.NamespacedName.String()
abbrev key_text : Key → String
key_text k = k.namespace <> "/" <> k.name

-- The loop over the ClusterProfiles: the requests for those that bear the name of a cluster namespace.
unfoldable pub requests_for : String → List ClusterProfile → List Key
requests_for namespace [] = []
requests_for namespace (cp ∷ cps) =
    let rest = requests_for namespace cps in
    if cp.metadata.name == namespace
    then record { namespace = cp.metadata.namespace; name = cp.metadata.name } ∷ rest
    else rest

-- The valid identifiers: the names of the synced secrets of the accounts.
unfoldable pub is_valid : List ManagedServiceAccount → String → Bool
unfolding synced_name
is_valid [] from = false
is_valid (msa ∷ msas) from =
    synced_name msa.metadata.namespace msa.metadata.name == from || is_valid msas from

-- A deletion that failed, unless the secret was gone, is an error beside those of the rest.
unfoldable pub collected : String → Result (Unit {0}) → List Error → List Error
collected t (ok _) errs = errs
collected t (err e) errs = if is_not_found e then errs else wrap t e ∷ errs

unfoldable pub sync_collected : String → Result (Unit {0}) → List Error → List Error
sync_collected t (ok _) errs = errs
sync_collected t (err e) errs = wrap t e ∷ errs

module _ (H : Hub) where
  open H use {State}

  -- utilerrors.NewAggregate(errs), as the result of a function
  unfoldable pub aggregate : {A : Type 0} → A → List Error → Call State A
  aggregate a errs = elim (H.new_aggregate errs) [ none ↦ pure a | some e ↦ raise e ]

  requests_of : String → Result (List ClusterProfile) → Call State (List Key)
  unfolding requests_for
  requests_of namespace (ok cps) s = pure (requests_for namespace cps) s
  requests_of namespace (err _) s = pure [] s

  -- mapManagedServiceAccountToClusterProfile; none is an object of another type
  unfoldable pub map_account : Option ManagedServiceAccount → Call State (List Key)
  unfolding requests_of
  map_account none s = pure [] s
  map_account (some msa) s =
      (attempt H.list_profiles >>= λ reply. requests_of msa.metadata.namespace reply) s

  -- mapTokenSecretToClusterProfile; none is an object of another type
  unfoldable pub map_secret : Option Secret → Call State (List Key)
  unfolding requests_of
  map_secret none s = pure [] s
  map_secret (some secret) s =
      (attempt H.list_profiles >>= λ reply. requests_of secret.metadata.namespace reply) s

  -- syncCreds, from the reply to the read of the synced credential on
  write_cred :
      ManagedServiceAccount
      → ClusterProfile
      → Secret
      → String
      → Result Secret
      → Call State (Unit {0})
  unfolding build_synced_cred secret_needs_update
  write_cred msa cp source name (err e) =
      if not (is_not_found e)
      then raise
          (wrap ("failed to get synced credential " <> cp.metadata.namespace <> "/" <> name) e)
      else wrapf ("failed to create synced credential " <> cp.metadata.namespace <> "/" <> name)
          (H.create_secret (build_synced_cred H msa cp name source))
  write_cred msa cp source name (ok synced) =
      let updated = build_synced_cred H msa cp name source in
      if secret_needs_update synced updated
      then wrapf ("failed to update synced credential " <> cp.metadata.namespace <> "/" <> name) (
          H.update_secret (record {
            metadata = record synced.metadata {
              labels = updated.metadata.labels;
              owner_references = updated.metadata.owner_references;
            };
            secret_type = synced.secret_type;
            content = updated.content;
          }))
      else pure tt

  -- syncCreds, from the reply to the read of the source secret on
  copy_cred : ManagedServiceAccount → ClusterProfile → Key → Result Secret → Call State (Unit {0})
  unfolding write_cred synced_name
  copy_cred msa cp source_key (err e) =
      if is_not_found e
      then pure tt
      else raise (wrap ("failed to get source secret " <> key_text source_key) e)
  copy_cred msa cp source_key (ok source) = do
    reply ← attempt (
        H.get_secret (record {
          namespace = cp.metadata.namespace;
          name = synced_name msa.metadata.namespace msa.metadata.name;
        }))
    write_cred msa cp source (synced_name msa.metadata.namespace msa.metadata.name) reply

  -- syncCreds, from status.tokenSecretRef on
  pub sync_ref : ManagedServiceAccount → ClusterProfile → Option SecretRef → Call State (Unit {0})
  unfolding copy_cred
  sync_ref msa cp none s = pure tt s
  sync_ref msa cp (some ref) s =
      let source_key : Key = record { namespace = msa.metadata.namespace; name = ref.name } in
      (attempt (H.get_secret source_key) >>= λ reply. copy_cred msa cp source_key reply) s

  unfoldable pub sync_creds : ManagedServiceAccount → ClusterProfile → Call State (Unit {0})
  unfolding sync_ref
  sync_creds msa cp = sync_ref msa cp msa.status.token_secret_ref

  -- the loop of cleanupOrphanedCreds over the secrets: the errors that it collects
  delete_orphans :
      ClusterProfile → List ManagedServiceAccount → List Secret → Call State (List Error)
  unfolding is_owned_by_cluster_profile is_valid collected
  delete_orphans cp msas [] s = pure [] s
  delete_orphans cp msas (secret ∷ secrets) s =
      (if not (is_owned_by_cluster_profile secret cp)
          then delete_orphans cp msas secrets
          else if not (is_valid msas (value_at label_key_synced_from secret.metadata.labels))
          then (do
            reply ← attempt (H.delete_secret secret)
            errs ← delete_orphans cp msas secrets
            pure (
                collected ("failed to delete orphaned secret " <> secret.metadata.name) reply errs))
          else delete_orphans cp msas secrets)
        s

  unfoldable pub cleanup_orphaned_creds :
      ClusterProfile → List ManagedServiceAccount → Call State (Unit {0})
  unfolding delete_orphans aggregate
  cleanup_orphaned_creds cp msas = do
    secrets ←
        wrapf ("failed to list secrets in namespace " <> cp.metadata.namespace)
          (H.list_secrets cp.metadata.namespace label_key_synced_from)
    errs ← delete_orphans cp msas secrets
    aggregate tt errs

  -- the loop of Reconcile over the accounts: the errors that it collects
  pub sync_all : ClusterProfile → List ManagedServiceAccount → Call State (List Error)
  unfolding sync_creds sync_collected
  sync_all cp [] s = pure [] s
  sync_all cp (msa ∷ msas) s =
      (do
        reply ← attempt (sync_creds msa cp)
        errs ← sync_all cp msas
        pure (
            sync_collected
              ("failed to sync credential for msa " <> msa.metadata.namespace <> "/"
                <> msa.metadata.name)
              reply errs))
        s

  -- errs = append(errs, err), for the reply of the cleanup
  with_cleanup : List Error → Result (Unit {0}) → List Error
  with_cleanup errs (ok _) = errs
  with_cleanup errs (err e) = errs ++ wrap "failed to cleanup orphaned credentials" e ∷ []

  sync_profile : Result ClusterProfile → Call State Outcome
  unfolding sync_all cleanup_orphaned_creds with_cleanup aggregate
  sync_profile (err e) =
      if is_not_found e
      then pure (record { requeue = false; requeue_after = pos 0 })
      else raise (wrap "failed to get clusterprofile" e)
  sync_profile (ok cp) = do
    msas ←
        wrapf ("failed to list managedserviceaccounts in namespace " <> cp.metadata.name)
          (H.list_accounts cp.metadata.name label_key_cluster_profile_sync "true")
    errs ← sync_all cp msas
    reply ← attempt (cleanup_orphaned_creds cp msas)
    aggregate (record { requeue = false; requeue_after = pos 0 }) (with_cleanup errs reply)

  unfoldable pub reconcile : Key → Call State Outcome
  unfolding sync_profile
  reconcile request = do reply ← attempt (H.get_profile request); sync_profile reply
