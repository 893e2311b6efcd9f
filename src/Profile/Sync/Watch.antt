-- ===== src/Profile/Sync/Watch.antt =====
-- SetupWithManager of clusterprofile_cred_syncer.go: the events that the syncer is told of, and the
-- requests that they enqueue.
pub mod Notices
mod Samples
use managed_serviceaccount.Prelude.{
  Bool, true, false, Option, some, List, [], ◌∷◌, ◌++◌, if◌then◌else◌,
}
use managed_serviceaccount.Effect.{Call, pure, ◌>>=◌}
use managed_serviceaccount.Kube.{Key, Secret}
use managed_serviceaccount.Api.{ManagedServiceAccount}
use managed_serviceaccount.Event.{Event}
use managed_serviceaccount.Profile.Hub.{Hub, ClusterProfile}
use managed_serviceaccount.Profile.Cred.{cp_filter, msa_filter, secret_filter}
use managed_serviceaccount.Profile.Sync.{map_account, map_secret}

-- controller-runtime: predicate.NewPredicateFuncs; the objects that EnqueueRequestsFromMapFunc maps, one
-- after the other; and the requests of the handler that For sets.
pub record Wiring : Type 1 where
  pub passes : {A : Type 0} → (A → Bool) → Event A → Bool
  pub mapped : {A : Type 0} → Event A → List A
  pub for_object : Event ClusterProfile → List Key

module _ (W : Wiring) (H : Hub) where
  open H use {State}

  abbrev map_all :
      {A : Type 0} → (Option A → Call State (List Key)) → List A → Call State (List Key)
  map_all map_func [] = pure []
  map_all map_func (x ∷ xs) = do
    keys ← map_func (some x)
    rest ← map_all map_func xs
    pure (keys ++ rest)

  -- Watches with EnqueueRequestsFromMapFunc and WithPredicates
  abbrev watch :
      {A : Type 0}
      → (A → Bool)
      → (Option A → Call State (List Key))
      → Event A
      → Call State (List Key)
  watch filter map_func e = if W.passes filter e then map_all map_func (W.mapped e) else pure []

  unfoldable pub watch_accounts : Event ManagedServiceAccount → Call State (List Key)
  unfolding msa_filter map_account
  watch_accounts = watch msa_filter (map_account H)

  unfoldable pub watch_secrets : Event Secret → Call State (List Key)
  unfolding secret_filter map_secret
  watch_secrets = watch secret_filter (map_secret H)

  unfoldable pub watch_profiles : Event ClusterProfile → Call State (List Key)
  unfolding cp_filter
  watch_profiles e = if W.passes (cp_filter H) e then pure (W.for_object e) else pure []
