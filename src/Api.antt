-- ===== src/Api.antt =====
-- apis/authentication/v1beta1/managedserviceaccount_types.go: the ManagedServiceAccount resource;
-- and the labels of pkg/common/constants.go.
use managed_serviceaccount.Prelude.{String, Bool, Option, List}
use native.Mathlib.Decide.{ℕ_discrete}
use managed_serviceaccount.Prelude.Int.{ℤ}
use managed_serviceaccount.Gotime.{Time, Duration}
use managed_serviceaccount.Kube.{ObjectMeta, Condition, String-discrete}

pub record ManagedServiceAccountRotation : Type 0 where
  pub enabled : Bool
  pub validity : Duration

pub record ManagedServiceAccountSpec : Type 0 where
  pub rotation : ManagedServiceAccountRotation
  -- a 32-bit count of seconds
  pub ttl_seconds_after_creation : Option ℤ

pub record SecretRef : Type 0 where
  pub name : String
  pub last_refresh_timestamp : Time

pub record ManagedServiceAccountStatus : Type 0 where
  pub conditions : List Condition
  pub expiration_timestamp : Option Time
  pub token_secret_ref : Option SecretRef

pub record ManagedServiceAccount : Type 0 where
  pub metadata : ObjectMeta
  pub spec : ManagedServiceAccountSpec
  pub status : ManagedServiceAccountStatus

abbrev pub condition_type_secret_created : String
condition_type_secret_created = "SecretCreated"

abbrev pub condition_type_token_reported : String
condition_type_token_reported = "TokenReported"

abbrev pub label_key_is_managed_service_account : String
label_key_is_managed_service_account =
    "authentication.open-cluster-management.io/is-managed-serviceaccount"

abbrev pub addon_name : String
addon_name = "managed-serviceaccount"

abbrev pub agent_name : String
agent_name = "addon-agent"

-- GroupVersion.String()
abbrev pub group_version : String
group_version = "authentication.open-cluster-management.io/v1beta1"

-- reflect.DeepEqual of two statuses
unfoldable pub Status-discrete : Discrete ManagedServiceAccountStatus
unfolding String-discrete ℕ_discrete
Status-discrete = hlevel (String-discrete, ℕ_discrete)
