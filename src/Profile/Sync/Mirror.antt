-- ===== src/Profile/Sync/Mirror.antt =====
-- What a successful reconcile leaves of the accounts' token secrets.
use managed_serviceaccount.Prelude.{Has, none, some, List, ◌≡◌, ◌⊎◌}
use managed_serviceaccount.Kube.{Key, Secret}
use managed_serviceaccount.Api.{ManagedServiceAccount, SecretRef}
use managed_serviceaccount.Profile.Hub.{Hub, ClusterProfile}
use managed_serviceaccount.Profile.Sync.Accounts.{source_key, HasCopy}
use managed_serviceaccount.Profile.Sync.Cleanup.{IsOrphan}
use managed_serviceaccount.Profile.Sync.Copy.{copy_key}
use managed_serviceaccount.Profile.Sync.Settled.{Settled}

module _ (H : Hub) where
  open H use {State, secrets}

  -- The cache showed the cleanup an orphan under the key of an account's copy, where there is no secret
  -- now.
  pub record IsStale (cp : ClusterProfile) (msas : List ManagedServiceAccount)
      (m : ManagedServiceAccount) (u t : State) : Type 0 where
    pub shown : Secret
    pub held : H.cached u (copy_key m cp) ≡ some shown
    pub orphan : IsOrphan cp msas shown
    pub gone : secrets t (copy_key m cp) ≡ none

  -- Each token secret of the accounts is copied, unless the cache was stale in the place of the copy.
  pub record Mirrors (request : Key) (s t : State) : Type 0 where
    pub settled : Settled H request s t
    pub mirrored :
        (m : ManagedServiceAccount) (ref : SecretRef) (source : Secret)
        → Has m settled.msas
        → m.status.token_secret_ref ≡ some ref
        → secrets s (source_key m ref) ≡ some source
        → HasCopy H settled.cp m source t ⊎ IsStale settled.cp settled.msas m settled.at_cleanup t
