-- ===== src/Lib.antt =====
-- A verification library for the controllers of managed service accounts: identities on a managed
-- cluster that are requested on a hub, with their tokens projected to the hub as secrets.
--
-- The parts. A ManagedServiceAccount (Api) stands on the hub in the namespace of a cluster. The
-- agent of that cluster reconciles it (Token): it creates the service account on the managed
-- cluster, requests a token, writes it to a secret on the hub, and renews it in time. Watches of
-- secrets and service accounts enqueue its requests (Event). On the hub, one controller deletes a
-- ManagedServiceAccount when its time to live is over (Ephemeral), and one copies the token secrets
-- to the namespaces of the ClusterProfiles that stand for the cluster (Profile), where a credential
-- plugin reads them (Plugin). The manager deploys the agent as an add-on with chart values and a
-- role (Addon). Two commands start all this (Command). The API objects are copied (DeepCopy), and
-- watched by informers that a factory shares (Informer), over a typed client (Client) of a client
-- set (Clientset).
--
-- Files and sources:
--   Api: apis/authentication/v1beta1/managedserviceaccount_types.go, groupversion_info.go and
--     pkg/common/constants.go, each type as a record and each pointer as an Option.
--   Token/Jwt, Token/Rotation, Token/Build, Token/Sync, Token/Reconcile:
--     pkg/addon/agent/controller/token.go, from CheckUserInToken (check_user_in_token) over
--     exceedThreshold, isSoonExpiring and shouldCreateUpdateTokenSecret, buildSecret and
--     setManagedServiceAccountSuccessStatus, and sync, to Reconcile (reconcile).
--   Event: pkg/controllers/event/secret.go and serviceaccount.go.
--   Ephemeral: pkg/addon/commoncontroller/ephemeral_identity_controller.go; Ephemeral/Worker on its
--     runs one after the other, queued as the vendored controller-runtime queues them.
--   Profile/Cred, Profile/Sync: pkg/addon/manager/controller/clusterprofile_cred_syncer.go;
--     Profile/Sync/Copy on one account, Profile/Sync/Accounts on the loop over all,
--     Profile/Sync/Mirror on Reconcile, Profile/Sync/Watch on SetupWithManager, with Wiring for
--     what it uses of controller-runtime.
--   Plugin: cmd/clusterprofile-credentials-plugin/main.go; Plugin/Token on GetToken (get_token),
--     Plugin/Namespace on inferNamespace (infer_namespace), Plugin/Synced and Plugin/Mirrored on the
--     syncer and the plugin, Plugin/Delivered on the agent, the syncer and the plugin one after the
--     other.
--   Addon: pkg/addon/manager/addon.go; Addon/Base64 is encoding/base64 in its standard form, with
--     the reading back that RFC 4648 describes.
--   Command: pkg/util/namespace.go and pkg/features/features.go; Command/Agent: cmd/agent/agent.go
--     and pkg/addon/agent/health/lease.go; Command/Manager: cmd/manager/manager.go. Run keeps a
--     list of what it has set going; klog.Fatal and os.Exit end it with an error. The Plan modules
--     have the whole list, and Command/Trace the rules by which a run performs a plan.
--   Informer: pkg/generated/informers/externalversions/factory.go, each method one step under the
--     lock, and Informer of authentication/v1beta1/managedserviceaccount.go (msa_informer).
--     `launched` records the goroutines that run informers. Informer/Source: what such an informer
--     lists and watches, in the same file (list_watch); Informer/Generic: generic.go;
--     Informer/Lister: pkg/generated/listers/authentication/v1beta1/managedserviceaccount.go.
--   Client:
--     pkg/generated/clientset/versioned/typed/authentication/v1beta1/managedserviceaccount.go, each
--     method as the request it builds (get_request) and the call that sends it (get);
--     Client/Requests on what the requests say. Client/Fake:
--     the client for tests in fake/fake_managedserviceaccount.go beside it.
--   Clientset: pkg/generated/clientset/versioned/clientset.go, with authentication_client.go of
--     v1alpha1 (Clientset/Alpha) and of v1beta1 (Clientset/Beta); Clientset/Rest is what they use
--     of client-go.
--   DeepCopy: apis/authentication/v1beta1/zz_generated.deepcopy.go, over a store of cells with
--     addresses; the names of types and versions, which are texts, are left out.
--   Gotext, Gotime, Errors, Effect, Kube: what the sources use of Go's strings, time and errors, of
--     calls that may fail, and of the Kubernetes objects. Prelude: shared names, signed integers,
--     maps.
--   Samples under a part: runs and the theorems at concrete data.
--
-- A function that talks to a server is a Call: it takes a world and returns a result and a world,
-- and what it wrote before a failure stays written. Effect/Triple has the rules by which `Ends Q E`
-- follows: Q holds after a success and E after a failure.
--
-- Outside of the sources, hence parameters: the API servers, the token review, the clock and files
-- (Token/Cluster with the laws of Token/Cluster/Laws; Ephemeral.Hub; Profile/Hub with its Laws),
-- JSON and the user name test of the API server (Token/Jwt.Library). The laws say that a read
-- answers what a server holds, that a write that succeeds has the documented effect and one that
-- fails has none, and that nobody else writes during a run; any call may fail. The list of secrets
-- of the syncer's cleanup answers what the cache shows instead (Hub.cached), which need not have the
-- writes of the same run. So the interleaving of two controllers is not covered, nor a single read
-- of the cache that is behind.
--
-- Integers: an instant is an integer of nanoseconds; a duration is one in a signed 64-bit word,
-- whose sums and products wrap, and whose differences of instants saturate, as in Go. The theorems
-- on times state the bounds under which neither happens. All loops recur on a list or a text.
-- Ephemeral/Worker takes the number of runs as fuel, and two are enough.
--
-- The plugin and the commands take the process and the libraries they call as a Host: environment,
-- files, configs and clients, JSON, the feature gates, and the set-ups and starts of controller-
-- runtime and of the add-on framework; the typed client takes the requests of client-go as
-- Client.Rest, with IsBuilder for what its builder does with segments of paths; the fake client takes the actions of
-- client-go's testing package (Client/Fake.Testing), the client set its configs and REST clients
-- (Clientset/Rest), and the lister an indexer (Informer/Lister.Indexer). A start of something that
-- runs on beside the process is in the list when it begins; its later failures are not covered.
--
-- Not modelled: the set-up of the other controllers' watches, logging, contexts, the charts, the
-- health probe server, cobra and the exit codes, the registration of types in schemes, the fake
-- client set, which hands an object tracker of client-go to its reactors, and the resource, the
-- client and the fake of the older API version, which are those of v1beta1 but for comments and
-- the package of the types.
pub mod Prelude
pub mod Gotime
pub mod Errors
pub mod Effect
pub mod Gotext
pub mod Kube
pub mod Api
pub mod Token
pub mod Event
pub mod Ephemeral
pub mod Profile
pub mod Plugin
pub mod Addon
pub mod Client
pub mod Clientset
pub mod Informer
pub mod DeepCopy
pub mod Command
