-- ===== src/Profile/Hub/Laws.antt =====
-- What the syncer relies on: a read answers what the hub holds and changes no secret, a write that
-- succeeds has the documented effect and one that fails has none, and nobody else writes meanwhile. A
-- list of secrets answers what the cache shows, which need not have the writes of the same run: it
-- holds exactly the objects asked for among those. Any call may fail.
-- A read by key answers what the hub holds. A reconcile of a ClusterProfile outside of the namespace of
-- its cluster reads each key before it writes there, so for it this asks only that the cache is not
-- behind when the run begins.
use managed_serviceaccount.Prelude.{Has, String, true, none, some, List, [], ◌∷◌, ◌≡◌, ◌≢◌}
use managed_serviceaccount.Prelude.Dict.{lookup}
use managed_serviceaccount.Errors.{Error, is_not_found}
use managed_serviceaccount.Effect.Triple.{Ends}
use managed_serviceaccount.Kube.{Key, Secret, key_of, put_at}
use managed_serviceaccount.Api.{ManagedServiceAccount}
use managed_serviceaccount.Profile.Hub.{Hub}

-- The object that the hub stores for one that it is sent: the hub sets the uid and the time.
pub record IsStored (sent held : Secret) : Type 0 where
  pub same_key : key_of held.metadata ≡ key_of sent.metadata
  pub labels : held.metadata.labels ≡ sent.metadata.labels
  pub owner_references : held.metadata.owner_references ≡ sent.metadata.owner_references
  pub content : held.content ≡ sent.content

-- Whether a secret stands in a namespace and bears a label.
pub record IsListed (namespace label : String) (x : Secret) : Type 0 where
  pub in_namespace : x.metadata.namespace ≡ namespace
  pub labelled : lookup label x.metadata.labels ≢ none

-- Accounts of one namespace, each name once.
abbrev pub AreDistinct : List ManagedServiceAccount → Type 0
AreDistinct [] = Unit
AreDistinct (m ∷ ms) =
    ((n : ManagedServiceAccount) → Has n ms → m.metadata.name ≢ n.metadata.name) × AreDistinct ms

pub record AreListed (namespace : String) (msas : List ManagedServiceAccount) : Type 0 where
  pub in_namespace : (m : ManagedServiceAccount) → Has m msas → m.metadata.namespace ≡ namespace
  pub distinct : AreDistinct msas

module _ (H : Hub) where
  open H use {State, secrets}

  -- A write that succeeded put an object for the one sent.
  pub record Put (x : Secret) (s t : State) : Type 0 where
    pub held : Secret
    pub stored : IsStored x held
    pub written : secrets t ≡ put_at (secrets s) (key_of x.metadata) (some held)

  pub record IsLawful : Type 0 where
    pub keyed : (k : Key) (x : Secret) (s : State) → secrets s k ≡ some x → key_of x.metadata ≡ k
    pub keyed_cached :
        (k : Key) (x : Secret) (s : State) → H.cached s k ≡ some x → key_of x.metadata ≡ k
    pub reads_profile :
        (k : Key) (s : State)
        → Ends
            (λ cp t. (key_of cp.metadata ≡ k) × (secrets t ≡ secrets s))
            (λ _ t. secrets t ≡ secrets s)
            (H.get_profile k s)
    pub lists_accounts :
        (namespace label value : String) (s : State)
        → Ends
            (λ msas t. AreListed namespace msas × (secrets t ≡ secrets s))
            (λ _ t. secrets t ≡ secrets s)
            (H.list_accounts namespace label value s)
    pub reads_secret :
        (k : Key) (s : State)
        → Ends
            (λ x t. (secrets s k ≡ some x) × (secrets t ≡ secrets s))
            (λ e t. (is_not_found e ≡ true → secrets s k ≡ none) × (secrets t ≡ secrets s))
            (H.get_secret k s)
    pub lists_secrets :
        (namespace label : String) (s : State)
        → Ends
            (λ xs t.
              ((x : Secret)
                → Has x xs
                → (H.cached s (key_of x.metadata) ≡ some x) × IsListed namespace label x)
              × ((x : Secret)
                  → H.cached s (key_of x.metadata) ≡ some x
                  → IsListed namespace label x
                  → Has x xs)
              × (secrets t ≡ secrets s))
            (λ _ t. secrets t ≡ secrets s)
            (H.list_secrets namespace label s)
    pub creates_secret :
        (x : Secret) (s : State)
        → Ends (λ _ t. Put x s t) (λ _ t. secrets t ≡ secrets s) (H.create_secret x s)
    pub updates_secret :
        (x : Secret) (s : State)
        → Ends (λ _ t. Put x s t) (λ _ t. secrets t ≡ secrets s) (H.update_secret x s)
    pub deletes_secret :
        (x : Secret) (s : State)
        → Ends
            (λ _ t. secrets t ≡ put_at (secrets s) (key_of x.metadata) none)
            (λ e t.
              (is_not_found e ≡ true → secrets s (key_of x.metadata) ≡ none)
              × (secrets t ≡ secrets s))
            (H.delete_secret x s)
    -- the aggregate of no errors is nil, and that of some errors is not
    pub aggregates_none : H.new_aggregate [] ≡ none
    pub aggregates_some : (e : Error) (es : List Error) → H.new_aggregate (e ∷ es) ≢ none
