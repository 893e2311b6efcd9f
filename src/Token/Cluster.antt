-- ===== src/Token/Cluster.antt =====
-- What the token controller calls and this repository does not implement: the API servers of the hub
-- and of the managed cluster behind their clients, the clock, the file system, and the helpers of
-- k8s.io/apimachinery for conditions.
pub mod Laws
use managed_serviceaccount.Prelude.{ℕ, String, Bool, List}
use managed_serviceaccount.Prelude.Int.{ℤ}
use managed_serviceaccount.Gotime.{Time, Duration}
use managed_serviceaccount.Errors.{Result}
use managed_serviceaccount.Effect.{Call}
use managed_serviceaccount.Kube.{Bytes, Key, Secret, ServiceAccount, Condition, Shelf}
use managed_serviceaccount.Api.{ManagedServiceAccount}
use managed_serviceaccount.Token.Jwt.{Library}

-- The objects that the two API servers hold.
pub record Objects : Type 0 where
  pub accounts : Shelf ManagedServiceAccount
  pub secrets : Shelf Secret
  pub spoke_accounts : Shelf ServiceAccount

pub record Cluster : Type 1 where
  pub State : Type 0
  -- what the servers hold in a state
  pub objects : State → Objects
  -- r.Get, the cache of the hub
  pub get_account : Key → Call State ManagedServiceAccount
  -- r.HubClient: Get, Create and Update of a Secret, Status().Update of a ManagedServiceAccount
  pub get_secret : Key → Call State Secret
  pub create_secret : Secret → Call State (Unit {0})
  pub update_secret : Secret → Call State (Unit {0})
  pub update_status : ManagedServiceAccount → Call State (Unit {0})
  -- r.SpokeNativeClient: Get, Create and Delete of a ServiceAccount, CreateToken, TokenReviews
  pub get_spoke_account : Key → Call State ServiceAccount
  pub create_spoke_account : ServiceAccount → Call State (Unit {0})
  pub delete_spoke_account : Key → Call State (Unit {0})
  pub create_token : Key → ℤ → Call State (Bytes × Time)
  pub review_token : Bytes → Call State Bool
  -- os.ReadFile, metav1.Now, meta.SetStatusCondition (which may read the clock)
  pub read_file : String → Call State Bytes
  pub now : State → Time
  pub set_status_condition : State → List Condition → Condition → List Condition
  -- int64(d.Seconds()), a conversion through float64
  pub whole_seconds : Duration → ℤ
  pub jwt : Library
