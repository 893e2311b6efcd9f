-- ===== src/Profile/Hub.antt =====
-- What the syncer calls and this repository does not implement: the API server of the hub behind the
-- manager's cache and client, and the error aggregates of k8s.io/apimachinery.
pub mod Laws
use managed_serviceaccount.Prelude.{String, Option, List}
use managed_serviceaccount.Prelude.Dict.{Dict}
use managed_serviceaccount.Errors.{Error}
use managed_serviceaccount.Effect.{Call}
use managed_serviceaccount.Kube.{Key, ObjectMeta, Secret, Shelf}
use managed_serviceaccount.Api.{ManagedServiceAccount}

-- A ClusterProfile of sigs.k8s.io/cluster-inventory-api.
pub record ClusterProfile : Type 0 where
  pub metadata : ObjectMeta

pub record Hub : Type 1 where
  pub State : Type 0
  -- the secrets that the hub holds in a state
  pub secrets : State → Shelf Secret
  -- the secrets that a list of the cache shows in a state; it may be behind what the hub holds
  pub cached : State → Shelf Secret
  -- r.Get and r.List, the cache: profiles and secrets by key, profiles of all namespaces,
  -- ManagedServiceAccounts of a namespace with a value of a label, secrets of a namespace with a label
  pub get_profile : Key → Call State ClusterProfile
  pub get_secret : Key → Call State Secret
  pub list_profiles : Call State (List ClusterProfile)
  pub list_accounts : String → String → String → Call State (List ManagedServiceAccount)
  pub list_secrets : String → String → Call State (List Secret)
  -- r.HubClient
  pub create_secret : Secret → Call State (Unit {0})
  pub update_secret : Secret → Call State (Unit {0})
  pub delete_secret : Secret → Call State (Unit {0})
  -- utilerrors.NewAggregate; none is the nil error
  pub new_aggregate : List Error → Option Error
  -- labels and names of sigs.k8s.io/cluster-inventory-api and open-cluster-management.io/api:
  -- LabelClusterManagerKey, ClusterNameLabelKey, GroupVersion.String() and Kind
  pub label_cluster_manager_key : String
  pub cluster_name_label_key : String
  pub profile_group_version : String
  pub profile_kind : String
