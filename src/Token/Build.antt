-- ===== src/Token/Build.antt =====
-- buildSecret and setManagedServiceAccountSuccessStatus of pkg/addon/agent/controller/token.go.
use managed_serviceaccount.Prelude.{String, false, Option, none, some, List, [], ◌∷◌}
use managed_serviceaccount.Prelude.Dict.{insert}
use managed_serviceaccount.Prelude.Int.{pos}
use managed_serviceaccount.Gotime.{Time}
use managed_serviceaccount.Kube.{Bytes, OwnerReference, Secret, Condition}
use managed_serviceaccount.Api.{
  ManagedServiceAccount, condition_type_secret_created, condition_type_token_reported,
  label_key_is_managed_service_account, group_version,
}
use managed_serviceaccount.Token.Cluster.{Cluster}

abbrev owner_of : ManagedServiceAccount → OwnerReference
owner_of managed = record {
  api_version = group_version;
  kind = "ManagedServiceAccount";
  name = managed.metadata.name;
  uid = managed.metadata.uid;
  is_controller = false;
}

-- the secret to start from: a copy of the current one, or a new one
abbrev secret_to_fill : ManagedServiceAccount → Option Secret → Secret
secret_to_fill managed (some current) = current
secret_to_fill managed none = record {
  metadata = record {
    namespace = managed.metadata.namespace;
    name = managed.metadata.name;
    uid = "";
    labels = [];
    owner_references = [];
    creation_timestamp = pos 0;
  };
  secret_type = "Opaque";
  content = [];
}

unfoldable pub build_secret : ManagedServiceAccount → Option Secret → Bytes → Bytes → Secret
unfolding insert
build_secret managed current ca_data token_data =
    let copy = secret_to_fill managed current in
    record copy {
      metadata = record copy.metadata {
        labels = insert label_key_is_managed_service_account "true" copy.metadata.labels;
        owner_references = owner_of managed ∷ [];
      };
      content = ("ca.crt", ca_data) ∷ ("token", token_data) ∷ [];
    }

module _ (C : Cluster) where
  open C use {State}

  abbrev report : State → String → Time → List Condition → List Condition
  report s t time conditions = C.set_status_condition s conditions (record {
    condition_type = t;
    status = "True";
    reason = t;
    text = "";
    last_transition_time = some time;
  })

  unfoldable pub set_success_status :
      State → ManagedServiceAccount → Option Time → Time → Time → ManagedServiceAccount
  set_success_status s msa expiring last_transition_time last_refresh_timestamp =
      let created =
        report s condition_type_secret_created last_transition_time msa.status.conditions in
      record msa {
        status = record {
          conditions = report s condition_type_token_reported last_transition_time created;
          expiration_timestamp = expiring;
          token_secret_ref = some (record {
            name = msa.metadata.name;
            last_refresh_timestamp = last_refresh_timestamp;
          });
        };
      }
