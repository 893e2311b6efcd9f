-- ===== src/Profile/Cred.antt =====
-- The pure parts of clusterprofile_cred_syncer.go: the secret to sync, its comparison with the one
-- that is there, the owner test, and the filters of the watches.
pub mod Compare
pub mod Names
pub mod Update
use managed_serviceaccount.Prelude.{
  ℕ, String, ◌<>◌, ◌==◌, Bool, true, false, not, ◌&&◌, ◌||◌, Option, none, some, List, [], ◌∷◌, eqb,
  if◌then◌else◌,
}
use managed_serviceaccount.Prelude.Dict.{Dict, lookup, value_at}
use managed_serviceaccount.Prelude.Int.{pos}
use managed_serviceaccount.Kube.{Bytes, ObjectMeta, OwnerReference, Secret}
use managed_serviceaccount.Api.{ManagedServiceAccount, label_key_is_managed_service_account}
use managed_serviceaccount.Profile.Hub.{Hub, ClusterProfile}

abbrev pub label_key_synced_from : String
label_key_synced_from = "authentication.open-cluster-management.io/synced-from"

abbrev pub label_key_cluster_profile_sync : String
label_key_cluster_profile_sync = "authentication.open-cluster-management.io/sync-to-clusterprofile"

abbrev pub cluster_profile_manager_name : String
cluster_profile_manager_name = "open-cluster-management"

-- fmt.Sprintf("%s-%s", namespace, name)
unfoldable pub synced_name : String → String → String
synced_name namespace name = namespace <> "-" <> name

-- cpFilter, msaFilter and secretFilter of SetupWithManager
abbrev pub has_label {ℓ} : {V : Type ℓ} → String → Dict V → Bool
has_label k m = elim (lookup k m) [ none ↦ false | some _ ↦ true ]

unfoldable pub cp_filter : Hub → ClusterProfile → Bool
unfolding value_at lookup
cp_filter H cp =
    if value_at H.label_cluster_manager_key cp.metadata.labels == cluster_profile_manager_name
    then has_label H.cluster_name_label_key cp.metadata.labels
    else false

unfoldable pub msa_filter : ManagedServiceAccount → Bool
unfolding value_at
msa_filter msa = value_at label_key_cluster_profile_sync msa.metadata.labels == "true"

unfoldable pub secret_filter : Secret → Bool
unfolding value_at
secret_filter secret =
    value_at label_key_is_managed_service_account secret.metadata.labels == "true"

-- The loop that copies a map; the copy holds the same entries.
copy_data : Dict Bytes → Dict Bytes
copy_data [] = []
copy_data ((k, v) ∷ m) = (k, v) ∷ copy_data m

unfoldable pub build_synced_cred :
    Hub → ManagedServiceAccount → ClusterProfile → String → Secret → Secret
unfolding copy_data synced_name
build_synced_cred H msa cp synced_cred_name source = record {
  metadata = record {
    namespace = cp.metadata.namespace;
    name = synced_cred_name;
    uid = "";
    labels = (label_key_synced_from, synced_name msa.metadata.namespace msa.metadata.name) ∷ [];
    owner_references =
        record {
          api_version = H.profile_group_version;
          kind = H.profile_kind;
          name = cp.metadata.name;
          uid = cp.metadata.uid;
          is_controller = true;
        }
        ∷ [];
    creation_timestamp = pos 0;
  };
  secret_type = "Opaque";
  content = copy_data source.content;
}

-- len of a map or a slice
abbrev pub length {ℓ} : {A : Type ℓ} → List A → ℕ
length [] = 0
length (x ∷ xs) = ℕ.suc (length xs)

-- string(v) == string(w)
abbrev pub same_bytes : Bytes → Bytes → Bool
same_bytes [] [] = true
same_bytes (c ∷ s) (d ∷ t) = eqb c d && same_bytes s t
same_bytes _ _ = false

abbrev same_at : Option Bytes → Bytes → Bool
same_at none v = false
same_at (some w) v = same_bytes v w

-- the loop of dataEqual over the first map
all_in : Dict Bytes → Dict Bytes → Bool
unfolding lookup
all_in [] b = true
all_in ((k, v) ∷ a) b = same_at (lookup k b) v && all_in a b

unfoldable pub data_equal : Dict Bytes → Dict Bytes → Bool
unfolding all_in
data_equal a b = if not (eqb (length a) (length b)) then false else all_in a b

-- the loop of secretNeedsUpdate over the desired labels: whether one is missing or differs
labels_differ : Dict String → Dict String → Bool
unfolding value_at
labels_differ current [] = false
labels_differ current ((k, v) ∷ desired) =
    not (value_at k current == v) || labels_differ current desired

unfoldable pub secret_needs_update : Secret → Secret → Bool
unfolding data_equal labels_differ
secret_needs_update current desired =
    if not (data_equal current.content desired.content)
    then true
    else if eqb (length current.metadata.labels) 0
    then not (eqb (length desired.metadata.labels) 0)
    else labels_differ current.metadata.labels desired.metadata.labels

-- isOwnedByClusterProfile
owned_by : String → List OwnerReference → Bool
owned_by uid [] = false
owned_by uid (owner ∷ owners) = owner.uid == uid || owned_by uid owners

unfoldable pub is_owned_by_cluster_profile : Secret → ClusterProfile → Bool
unfolding owned_by
is_owned_by_cluster_profile secret cp = owned_by cp.metadata.uid secret.metadata.owner_references
