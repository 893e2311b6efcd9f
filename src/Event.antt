-- ===== src/Event.antt =====
-- pkg/controllers/event: which work items the watches of the token controller enqueue.
pub mod Requests
mod Samples
use managed_serviceaccount.Prelude.{String, ◌==◌, List, [], ◌∷◌, ◌++◌, if◌then◌else◌}
use managed_serviceaccount.Prelude.Dict.{Dict, value_at}
use managed_serviceaccount.Kube.{ObjectMeta, Secret, ServiceAccount, Key}
use managed_serviceaccount.Api.{label_key_is_managed_service_account}

-- A client.Object: a Secret, or an object of another type.
pub data Object : Type 0 where
  a_secret : Secret → Object
  another : Object

-- The events of sigs.k8s.io/controller-runtime/pkg/event: an update has the old and the new object.
pub data Event (A : Type 0) : Type 0 where
  create : A → Event A
  update : A → A → Event A
  delete : A → Event A
  generic : A → Event A

-- The queue of requests, as q.Add leaves it before the queue merges equal ones.
abbrev pub Queue : Type 0
Queue = List Key

abbrev managed_label : Dict String → String
managed_label labels = value_at label_key_is_managed_service_account labels

-- secretEventHandler.process
unfoldable pub process_secret : Secret → Queue → Queue
process_secret secret q =
    if managed_label secret.metadata.labels == "true"
    then q ++ record { namespace = secret.metadata.namespace; name = secret.metadata.name } ∷ []
    else q

abbrev process_object : Object → Queue → Queue
process_object (a_secret secret) q = process_secret secret q
process_object another q = q

-- Create, Update, Delete and Generic of secretEventHandler
unfoldable pub handle_secret : Event Object → Queue → Queue
unfolding process_secret
handle_secret (create o) q = process_object o q
handle_secret (update old new) q = process_object new q
handle_secret (delete o) q = process_object o q
handle_secret (generic o) q = process_object o q

-- serviceAccountEventHandler.process
unfoldable pub process_account : String → Dict String → String → Queue → Queue
process_account cluster_name labels name q =
    if managed_label labels == "true"
    then q ++ record { namespace = cluster_name; name = name } ∷ []
    else q

-- Create, Update, Delete and Generic of serviceAccountEventHandler
unfoldable pub handle_account : String → Event ServiceAccount → Queue → Queue
unfolding process_account
handle_account cluster_name (create o) q =
    process_account cluster_name o.metadata.labels o.metadata.name q
handle_account cluster_name (update old new) q = q
handle_account cluster_name (delete o) q =
    process_account cluster_name o.metadata.labels o.metadata.name q
handle_account cluster_name (generic o) q =
    process_account cluster_name o.metadata.labels o.metadata.name q
