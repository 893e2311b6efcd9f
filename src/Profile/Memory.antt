-- ===== src/Profile/Memory.antt =====
-- A hub in memory that holds one source secret and at most one copy.
pub mod Lawful
mod Listed
use managed_serviceaccount.Prelude.{
  Has, String, ◌==◌, ◌&&◌, eq_iff, Bool, true, false, Option, none, some, List, [], ◌∷◌, ◌≡◌, ◌↔◌,
  inl, inr, refl, ◌∙◌, sym, ap, arith, if◌then◌else◌, Bool-cases, Option-cases,
}
use mathlib.Core.Path.{fun_ext}
use managed_serviceaccount.Prelude.Dict.{Dict, lookup}
use managed_serviceaccount.Prelude.Int.{pos}
use managed_serviceaccount.Errors.{Result, ok, err, not_found, refused, is_not_found}
use managed_serviceaccount.Effect.{Call}
use managed_serviceaccount.Effect.Triple.{Ends, Ends-ok, Ends-err}
use managed_serviceaccount.Kube.{
  Bytes, Key, key_of, same_key, same_key_eq, same_key_refl, ObjectMeta, Secret, put_at,
}
use managed_serviceaccount.Api.{ManagedServiceAccount}
use managed_serviceaccount.Profile.Hub.{Hub, ClusterProfile}
use managed_serviceaccount.Profile.Hub.Laws.{IsListed, Put, IsLawful}
use managed_serviceaccount.Profile.Cred.{label_key_synced_from}

abbrev pub meta : String → String → Dict String → ObjectMeta
meta namespace name labels = record {
  namespace = namespace;
  name = name;
  uid = "u";
  labels = labels;
  owner_references = [];
  creation_timestamp = pos 0;
}

-- "h.e30.s", whose payload is "{}"
abbrev pub good_token : Bytes
good_token = b'h' ∷ b'.' ∷ b'e' ∷ b'3' ∷ b'0' ∷ b'.' ∷ b's' ∷ []

abbrev pub source : Secret
source = record {
  metadata = meta "c1" "m" [];
  secret_type = "Opaque";
  content = ("token", good_token) ∷ ("ca.crt", 99 ∷ []) ∷ [];
}

-- the copy, with its entries in another order
abbrev pub copy : Secret
copy = record {
  metadata = meta "fleet" "c1-m" ((label_key_synced_from, "c1-m") ∷ []);
  secret_type = "Opaque";
  content = ("ca.crt", 99 ∷ []) ∷ ("token", good_token) ∷ [];
}

abbrev pub account : ManagedServiceAccount
account = record {
  metadata = meta "c1" "m" [];
  spec = record {
    rotation = record { enabled = true; validity = pos 3600 };
    ttl_seconds_after_creation = none;
  };
  status = record {
    conditions = [];
    expiration_timestamp = none;
    token_secret_ref = some (record { name = "m"; last_refresh_timestamp = pos 0 });
  };
}

abbrev pub profile : ClusterProfile
profile = record { metadata = meta "fleet" "c1" [] }

abbrev pub fetch : Option Secret → Call (Option Secret) Secret
fetch none s = (err (not_found "not found"), s)
fetch (some x) s = (ok x, s)

-- the state is the copy
abbrev pub held_at : Option Secret → Key → Option Secret
held_at s k =
    if same_key (key_of source.metadata) k
    then some source
    else elim s [ none ↦ none | some x ↦ if same_key (key_of x.metadata) k then some x else none ]

-- the source cannot be written, and there is room for one other secret
abbrev store_free : Secret → Option Secret → Result (Unit {0}) × Option Secret
store_free x none = (ok tt, some x)
store_free x (some y) =
    if same_key (key_of y.metadata) (key_of x.metadata)
    then (ok tt, some x)
    else (err (refused "quota"), some y)

abbrev pub store : Secret → Call (Option Secret) (Unit {0})
store x s =
    if same_key (key_of source.metadata) (key_of x.metadata)
    then (err (refused "source"), s)
    else store_free x s

abbrev drop_free : Secret → Option Secret → Result (Unit {0}) × Option Secret
drop_free x none = (err (not_found "not found"), none)
drop_free x (some y) =
    if same_key (key_of y.metadata) (key_of x.metadata)
    then (ok tt, none)
    else (err (not_found "not found"), some y)

abbrev pub drop : Secret → Call (Option Secret) (Unit {0})
drop x s =
    if same_key (key_of source.metadata) (key_of x.metadata)
    then (err (refused "source"), s)
    else drop_free x s

unfoldable pub listed : String → String → Secret → Bool
unfolding lookup
listed namespace label x =
    x.metadata.namespace == namespace
    && elim (lookup label x.metadata.labels) [ none ↦ false | some _ ↦ true ]

unfoldable pub keep : String → String → List Secret → List Secret
unfolding listed
keep namespace label [] = []
keep namespace label (x ∷ xs) =
    let rest = keep namespace label xs in if listed namespace label x then x ∷ rest else rest

abbrev pub entries : Option Secret → List Secret
entries none = source ∷ []
entries (some x) =
    if same_key (key_of source.metadata) (key_of x.metadata) then source ∷ [] else source ∷ x ∷ []

abbrev pub hub : Hub
hub = record {
  State = Option Secret;
  secrets = held_at;
  cached = held_at;
  get_profile = λ k s.
      if same_key (key_of profile.metadata) k
      then (ok profile, s)
      else (err (not_found "not found"), s);
  get_secret = λ k s. fetch (held_at s k) s;
  list_profiles = λ s. (ok (profile ∷ []), s);
  list_accounts = λ namespace _ _ s. (ok (if "c1" == namespace then account ∷ [] else []), s);
  list_secrets = λ namespace label s. (ok (keep namespace label (entries s)), s);
  create_secret = store;
  update_secret = store;
  delete_secret = drop;
  new_aggregate = λ errs. elim errs [ [] ↦ none | ◌∷◌ e es ↦ some e ];
  label_cluster_manager_key = "x-k8s.io/cluster-manager";
  cluster_name_label_key = "open-cluster-management.io/cluster-name";
  profile_group_version = "multicluster.x-k8s.io/v1alpha1";
  profile_kind = "ClusterProfile";
}
