-- ===== src/Profile/Sync/Settled.antt =====
-- What a successful reconcile of a ClusterProfile has gone through.
use managed_serviceaccount.Prelude.{true, none, some, List, [], ◌∷◌, ◌++◌, ◌≡◌}
use managed_serviceaccount.Errors.{Error, ok, err, is_not_found}
use managed_serviceaccount.Kube.{Key, Secret, key_of}
use managed_serviceaccount.Api.{ManagedServiceAccount}
use managed_serviceaccount.Profile.Hub.{Hub, ClusterProfile}
use managed_serviceaccount.Profile.Hub.Laws.{IsListed}
use managed_serviceaccount.Profile.Cred.{label_key_synced_from, label_key_cluster_profile_sync}
use managed_serviceaccount.Profile.Sync.{sync_all}
use managed_serviceaccount.Profile.Sync.Cleanup.{IsOrphan}

pub some_left : (errs : List Error) (e : Error) → errs ++ e ∷ [] ≡ [] → ⊥
some_left [] e h = cc (h)
some_left (x ∷ errs) e h = cc (h)

module _ (H : Hub) where
  open H use {State, secrets}

  -- In `t` there is no secret under the key of an orphan that the cache shows in `u`.
  abbrev pub IsSwept : ClusterProfile → List ManagedServiceAccount → State → State → Type 0
  IsSwept cp msas u t =
      (x : Secret)
      → H.cached u (key_of x.metadata) ≡ some x
      → IsListed cp.metadata.namespace label_key_synced_from x
      → IsOrphan cp msas x
      → secrets t (key_of x.metadata) ≡ none

  -- The ClusterProfile that the hub answered the request with, the accounts that it listed for that
  -- one next, and the sync of all of them without an error, on which the cleanup followed.
  pub record Settled (request : Key) (s t : State) : Type 0 where
    pub cp : ClusterProfile
    pub msas : List ManagedServiceAccount
    pub before : State
    pub after_list : State
    pub at_cleanup : State
    pub answered : H.get_profile request s ≡ (ok cp, before)
    pub listed :
        H.list_accounts cp.metadata.name label_key_cluster_profile_sync "true" before
        ≡ (ok msas, after_list)
    pub synced : sync_all H cp msas after_list ≡ (ok [], at_cleanup)
    pub swept : IsSwept cp msas at_cleanup t

  -- The hub answered that there is no ClusterProfile of a request, and no secret changed.
  pub record IsGone (request : Key) (s t : State) : Type 0 where
    pub e : Error
    pub not_there : is_not_found e ≡ true
    pub answered : (H.get_profile request s).0 ≡ err e
    pub same : secrets t ≡ secrets s
