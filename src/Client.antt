-- ===== src/Client.antt =====
-- pkg/generated/clientset/versioned/typed/authentication/v1beta1/managedserviceaccount.go: the client of
-- the ManagedServiceAccounts in a namespace, over the requests of k8s.io/client-go/rest.
pub mod Granted
pub mod Requests
pub mod Fake
pub mod Samples
use managed_serviceaccount.Prelude.{String, Bool, true, Option, none, some, List, [], ◌∷◌}
use managed_serviceaccount.Prelude.Int.{ℤ, pos}
use managed_serviceaccount.Gotime.{Duration, second, times}
use managed_serviceaccount.Effect.{Call}
use managed_serviceaccount.Kube.{Bytes}
use managed_serviceaccount.Api.{ManagedServiceAccount}

-- What the client reads or sets of the options of a list, and the selectors.
pub record ListOptions : Type 0 where
  pub label_selector : String
  pub field_selector : String
  pub watch : Bool
  pub timeout_seconds : Option ℤ

-- Parameters and bodies of requests; `Options` are the other options.
pub data Params (Options : Type 0) : Type 0 where
  other_options : Options → Params Options
  list_options : ListOptions → Params Options

pub data Body (Options : Type 0) : Type 0 where
  account : ManagedServiceAccount → Body Options
  delete_options : Options → Body Options
  patch_data : Bytes → Body Options

-- rest.Interface and rest.Request: requests are made by verb, refined, and sent.
pub record Rest (S : Type 0) : Type 1 where
  pub Request : Type 0
  pub Options : Type 0
  pub Watcher : Type 0
  pub get_verb : Request
  pub post_verb : Request
  pub put_verb : Request
  pub delete_verb : Request
  -- of a type of patch
  pub patch_verb : String → Request
  pub namespace : String → Request → Request
  pub resource : String → Request → Request
  pub name : String → Request → Request
  pub sub_resource : List String → Request → Request
  pub versioned_params : Params Options → Request → Request
  pub timeout : Duration → Request → Request
  pub body : Body Options → Request → Request
  -- Do(ctx).Into, for an account and for a list, Do(ctx).Error and Watch(ctx)
  pub do_account : Request → Call S ManagedServiceAccount
  pub do_list : Request → Call S (List ManagedServiceAccount)
  pub do_error : Request → Call S (Unit {0})
  pub do_watch : Request → Call S Watcher

-- time.Duration(*opts.TimeoutSeconds) * time.Second, or zero
abbrev pub timeout_of : Option ℤ → Duration
unfolding times
timeout_of none = pos 0
timeout_of (some seconds) = times seconds second

-- ns is the namespace of the client
module _ {S : Type 0} (R : Rest S) (ns : String) where
  open R use {Request, Options}

  -- Namespace(c.ns).Resource("managedserviceaccounts")
  abbrev pub on_accounts : Request → Request
  on_accounts r = R.resource "managedserviceaccounts" (R.namespace ns r)

  unfoldable pub get_request : String → Options → Request
  get_request name options =
      R.versioned_params (other_options options) (R.name name (on_accounts R.get_verb))

  unfoldable pub list_request : ListOptions → Request
  unfolding timeout_of
  list_request opts =
      R.timeout (timeout_of opts.timeout_seconds)
        (R.versioned_params (list_options opts) (on_accounts R.get_verb))

  unfoldable pub watch_request : ListOptions → Request
  unfolding timeout_of
  watch_request opts =
      R.timeout (timeout_of opts.timeout_seconds)
        (R.versioned_params (list_options (record opts { watch = true })) (on_accounts R.get_verb))

  unfoldable pub create_request : ManagedServiceAccount → Options → Request
  create_request msa opts =
      R.body (account msa) (R.versioned_params (other_options opts) (on_accounts R.post_verb))

  unfoldable pub update_request : ManagedServiceAccount → Options → Request
  update_request msa opts =
      R.body (account msa) (
        R.versioned_params (other_options opts) (R.name msa.metadata.name (on_accounts R.put_verb)))

  unfoldable pub update_status_request : ManagedServiceAccount → Options → Request
  update_status_request msa opts = R.body (account msa) (
      R.versioned_params (other_options opts)
        (R.sub_resource ("status" ∷ []) (R.name msa.metadata.name (on_accounts R.put_verb))))

  unfoldable pub delete_request : String → Options → Request
  delete_request name opts = R.body (delete_options opts) (R.name name (on_accounts R.delete_verb))

  unfoldable pub delete_collection_request : Options → ListOptions → Request
  unfolding timeout_of
  delete_collection_request opts list_opts = R.body (delete_options opts) (
      R.timeout (timeout_of list_opts.timeout_seconds)
        (R.versioned_params (list_options list_opts) (on_accounts R.delete_verb)))

  unfoldable pub patch_request : String → String → Bytes → Options → List String → Request
  patch_request name patch_type patch opts subresources = R.body (patch_data patch) (
      R.versioned_params (other_options opts)
        (R.sub_resource subresources (R.name name (on_accounts (R.patch_verb patch_type)))))

  -- The methods of ManagedServiceAccountInterface.
  unfoldable pub get : String → Options → Call S ManagedServiceAccount
  unfolding get_request
  get name options = R.do_account (get_request name options)

  unfoldable pub list : ListOptions → Call S (List ManagedServiceAccount)
  unfolding list_request
  list opts = R.do_list (list_request opts)

  unfoldable pub watch : ListOptions → Call S R.Watcher
  unfolding watch_request
  watch opts = R.do_watch (watch_request opts)

  unfoldable pub create : ManagedServiceAccount → Options → Call S ManagedServiceAccount
  unfolding create_request
  create msa opts = R.do_account (create_request msa opts)

  unfoldable pub update : ManagedServiceAccount → Options → Call S ManagedServiceAccount
  unfolding update_request
  update msa opts = R.do_account (update_request msa opts)

  unfoldable pub update_status : ManagedServiceAccount → Options → Call S ManagedServiceAccount
  unfolding update_status_request
  update_status msa opts = R.do_account (update_status_request msa opts)

  unfoldable pub delete : String → Options → Call S (Unit {0})
  unfolding delete_request
  delete name opts = R.do_error (delete_request name opts)

  unfoldable pub delete_collection : Options → ListOptions → Call S (Unit {0})
  unfolding delete_collection_request
  delete_collection opts list_opts = R.do_error (delete_collection_request opts list_opts)

  unfoldable pub patch :
      String → String → Bytes → Options → List String → Call S ManagedServiceAccount
  unfolding patch_request
  patch name patch_type content opts subresources =
      R.do_account (patch_request name patch_type content opts subresources)
