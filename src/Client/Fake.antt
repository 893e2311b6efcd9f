-- ===== src/Client/Fake.antt =====
-- pkg/generated/clientset/versioned/typed/authentication/v1beta1/fake/fake_managedserviceaccount.go: the
-- client that tests use in place of the typed client, over the actions of k8s.io/client-go/testing.
pub mod Agrees
mod Samples
use managed_serviceaccount.Prelude.{
  String, Bool, true, false, Option, none, some, List, [], ◌∷◌, if◌then◌else◌,
}
use managed_serviceaccount.Prelude.Dict.{Dict}
use managed_serviceaccount.Errors.{Error, Result}
use managed_serviceaccount.Kube.{Bytes}
use managed_serviceaccount.Api.{ManagedServiceAccount, group_version}
use managed_serviceaccount.Client.{ListOptions}

-- schema.GroupVersionResource, with the group and the version as one text
pub record Resource : Type 0 where
  pub group_version : String
  pub resource : String

-- managedserviceaccountsResource
abbrev pub accounts : Resource
accounts = record { group_version = group_version; resource = "managedserviceaccounts" }

-- A runtime.Object of the types that the client asserts; a list has a ListMeta beside its items.
pub data Object (Meta : Type 0) : Type 0 where
  an_account : ManagedServiceAccount → Object Meta
  a_list : Meta → List ManagedServiceAccount → Object Meta

-- testing.Fake with the constructors of its actions, and labels.Selector
pub record Testing (S : Type 0) : Type 1 where
  pub Action : Type 0
  pub Options : Type 0
  pub Meta : Type 0
  pub Selector : Type 0
  pub Watcher : Type 0
  pub new_get_action : Resource → String → String → Action
  -- of a resource and a kind
  pub new_list_action : Resource → String → String → ListOptions → Action
  pub new_watch_action : Resource → String → ListOptions → Action
  pub new_create_action : Resource → String → ManagedServiceAccount → Action
  pub new_update_action : Resource → String → ManagedServiceAccount → Action
  pub new_update_subresource_action : Resource → String → String → ManagedServiceAccount → Action
  pub new_delete_action_with_options : Resource → String → String → Options → Action
  pub new_delete_collection_action : Resource → String → ListOptions → Action
  pub new_patch_subresource_action :
      Resource → String → String → String → Bytes → List String → Action
  -- Invokes with a default of an account and with one of a list, and InvokesWatch; an object and an
  -- error may both be none, that is nil
  pub invokes_account : Action → S → (Option (Object Meta) × Option Error) × S
  pub invokes_list : Action → S → (Option (Object Meta) × Option Error) × S
  pub invokes_watch : Action → S → Result Watcher × S
  -- the label of ExtractFromListOptions, labels.Everything() and Matches
  pub label_of : ListOptions → Option Selector
  pub everything : Selector
  pub matches : Selector → Dict String → Bool

-- What a method returns: a result that may be nil beside an error that may be nil, or a panic where
-- the object is not of the asserted type.
pub data Reply (A : Type 0) : Type 0 where
  replied : Option A → Option Error → Reply A
  panicked : Reply A

-- ns is the namespace of the client
module _ {S : Type 0} (T : Testing S) (ns : String) where
  open T use {Action, Options, Meta, Selector}

  -- obj.(*v1beta1.ManagedServiceAccount)
  abbrev pub as_account : Option (Object Meta) × Option Error → Reply ManagedServiceAccount
  as_account (none, e) = replied none e
  as_account (some (an_account m), e) = replied (some m) e
  as_account (some (a_list meta items), e) = panicked

  abbrev pub selector_or : Option Selector → Selector
  selector_or none = T.everything
  selector_or (some label) = label

  -- the loop of List
  abbrev pub matching : Selector → List ManagedServiceAccount → List ManagedServiceAccount
  matching label [] = []
  matching label (item ∷ items) =
      let rest = matching label items in
      if T.matches label item.metadata.labels then item ∷ rest else rest

  abbrev pub as_list :
      Selector → Option (Object Meta) × Option Error → Reply (Meta × List ManagedServiceAccount)
  as_list label (none, e) = replied none e
  as_list label (some (a_list meta items), e) = replied (some (meta, matching label items)) e
  as_list label (some (an_account m), e) = panicked

  unfoldable pub get : String → Options → S → Reply ManagedServiceAccount × S
  get name options s =
      let (reply, t) = T.invokes_account (T.new_get_action accounts ns name) s in
      (as_account reply, t)

  unfoldable pub list : ListOptions → S → Reply (Meta × List ManagedServiceAccount) × S
  list opts s =
      let (reply, t) =
        T.invokes_list (T.new_list_action accounts "ManagedServiceAccount" ns opts) s in
      (as_list (selector_or (T.label_of opts)) reply, t)

  unfoldable pub watch : ListOptions → S → Result T.Watcher × S
  watch opts = T.invokes_watch (T.new_watch_action accounts ns opts)

  unfoldable pub create : ManagedServiceAccount → Options → S → Reply ManagedServiceAccount × S
  create msa opts s =
      let (reply, t) = T.invokes_account (T.new_create_action accounts ns msa) s in
      (as_account reply, t)

  unfoldable pub update : ManagedServiceAccount → Options → S → Reply ManagedServiceAccount × S
  update msa opts s =
      let (reply, t) = T.invokes_account (T.new_update_action accounts ns msa) s in
      (as_account reply, t)

  unfoldable pub update_status :
      ManagedServiceAccount → Options → S → Reply ManagedServiceAccount × S
  update_status msa opts s =
      let (reply, t) =
        T.invokes_account (T.new_update_subresource_action accounts "status" ns msa) s in
      (as_account reply, t)

  -- the error
  unfoldable pub delete : String → Options → S → Option Error × S
  delete name opts s =
      let (reply, t) =
        T.invokes_account (T.new_delete_action_with_options accounts ns name opts) s in
      (reply.1, t)

  unfoldable pub delete_collection : Options → ListOptions → S → Option Error × S
  delete_collection opts list_opts s =
      let (reply, t) = T.invokes_list (T.new_delete_collection_action accounts ns list_opts) s in
      (reply.1, t)

  unfoldable pub patch :
      String → String → Bytes → Options → List String → S → Reply ManagedServiceAccount × S
  patch name patch_type content opts subresources s =
      let (reply, t) =
        T.invokes_account
          (T.new_patch_subresource_action accounts ns name patch_type content subresources) s in
      (as_account reply, t)
