-- ===== src/Command.antt =====
-- cmd and what it starts from: pkg/util/namespace.go and pkg/features/features.go. A start-up
-- is a call over the list of what it has set going; klog.Fatal and os.Exit end it with an
-- error.
pub mod Agent
pub mod Manager
pub mod Trace
use managed_serviceaccount.Prelude.{
  ℕ, String, ◌==◌, Bool, true, false, Option, none, some, List, [], ◌∷◌, ◌++◌, if◌then◌else◌,
}
use managed_serviceaccount.Prelude.Dict.{Dict, lookup}
use managed_serviceaccount.Errors.{Error, Result, ok, err, message, wrap}
use managed_serviceaccount.Effect.{Call}

-- EphemeralIdentity and ClusterProfile of pkg/features
abbrev pub ephemeral_identity : String
ephemeral_identity = "EphemeralIdentity"

abbrev pub cluster_profile : String
cluster_profile = "ClusterProfile"

-- DefaultManagedServiceAccountFeatureGates, the defaults
abbrev pub default_feature_gates : Dict Bool
default_feature_gates = (ephemeral_identity, false) ∷ (cluster_profile, false) ∷ []

-- FeatureGates.Enabled
abbrev pub is_on : Dict Bool → String → Bool
unfolding lookup
is_on gates feature = elim (lookup feature gates) [ none ↦ false | some b ↦ b ]

abbrev pub in_cluster_namespace_path : String
in_cluster_namespace_path = "/var/run/secrets/kubernetes.io/serviceaccount/namespace"

-- os.Stat: the file is there, it does not exist, or the call failed otherwise.
pub data Stat : Type 0 where
  exists : Stat
  not_exists : Stat
  fails : Error → Stat

read_namespace : Result String → Result String
read_namespace (ok text) = ok text
read_namespace (err e) = err (wrap "error reading namespace file" e)

in_cluster_namespace_of : Stat → Result String → Result String
unfolding read_namespace
in_cluster_namespace_of not_exists file =
    err (message "not running in-cluster, please specify LeaderElectionNamespace")
in_cluster_namespace_of (fails e) file = err (wrap "error checking namespace file" e)
in_cluster_namespace_of exists file = read_namespace file

-- GetInClusterNamespace
unfoldable pub get_in_cluster_namespace : (String → Stat) → (String → Result String) → Result String
unfolding in_cluster_namespace_of
get_in_cluster_namespace stat read_file =
    in_cluster_namespace_of (stat in_cluster_namespace_path) (read_file in_cluster_namespace_path)

-- the namespace of the process: NAMESPACE, or else that of the pod
unfoldable pub own_namespace : String → Result String → String → Result String
own_namespace variable in_cluster problem =
    if variable == ""
    then elim in_cluster [ ok n ↦ ok n | err _ ↦ err (message problem) ]
    else ok variable

module _ {A : Type 0} where
  -- if err != nil { the process ends with a text }
  unfoldable pub required : {B : Type 0} → String → Result B → Call (List A) B
  required problem (ok b) s = (ok b, s)
  required problem (err e) s = (err (message problem), s)

  -- something is set going
  unfoldable pub begin : A → Call (List A) (Unit {0})
  begin a s = (ok tt, s ++ a ∷ [])
