-- ===== src/Plugin/Mirrored.antt =====
-- Reconcile of the syncer and GetToken of the plugin, one after the other.
use managed_serviceaccount.Kube.{Bytes, Key, Secret}
use managed_serviceaccount.Api.{ManagedServiceAccount}
use managed_serviceaccount.Profile.Hub.{Hub, ClusterProfile}
use managed_serviceaccount.Profile.Hub.Laws.{IsLawful}
use managed_serviceaccount.Profile.Sync.Mirror.{IsStale}
use managed_serviceaccount.Profile.Sync.Settled.{Settled}
use managed_serviceaccount.Plugin.{Host, ExecCredential, Provider}

module _ (H : Hub) (L : IsLawful H) (host : Host H.State) (request : Key) (cp : ClusterProfile)
    (msa : ManagedServiceAccount) (source : Secret) (token : Bytes) (p : Provider H.State)
    (info : ExecCredential) where
  open H use {State, secrets}

  -- The cache showed the cleanup of a run an orphan in the place of the copy.
  abbrev pub ShownOrphan : State → State → Type 0
  ShownOrphan s t = (run : Settled H request s t) × IsStale H cp run.msas msa run.at_cleanup t
