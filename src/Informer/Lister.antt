-- ===== src/Informer/Lister.antt =====
-- pkg/generated/listers/authentication/v1beta1/managedserviceaccount.go: reads of the cache that an
-- informer fills.
pub mod Reads
mod Samples
use managed_serviceaccount.Prelude.{String, ◌<>◌, Option, none, some, List, [], ◌∷◌, ◌++◌}
use managed_serviceaccount.Errors.{Error, Result, ok, err, not_found}
use managed_serviceaccount.Api.{ManagedServiceAccount}

-- cache.Indexer, which holds ManagedServiceAccounts, with ListAll and ListAllByNamespace of
-- k8s.io/client-go/tools/cache: they call a function on each object, here on what it has made so far,
-- and return an error or none.
pub record Indexer : Type 1 where
  pub Selector : Type 0
  pub list_all :
      Selector
      → (List ManagedServiceAccount → ManagedServiceAccount → List ManagedServiceAccount)
      → List ManagedServiceAccount
      → List ManagedServiceAccount × Option Error
  pub list_all_by_namespace :
      String
      → Selector
      → (List ManagedServiceAccount → ManagedServiceAccount → List ManagedServiceAccount)
      → List ManagedServiceAccount
      → List ManagedServiceAccount × Option Error
  -- none is an object that does not exist
  pub get_by_key : String → Result (Option ManagedServiceAccount)
  -- the text of errors.NewNotFound for a resource and a name
  pub not_found_text : String → String → String

-- ret = append(ret, m)
abbrev pub append : List ManagedServiceAccount → ManagedServiceAccount → List ManagedServiceAccount
append ret m = ret ++ (m ∷ [])

module _ (I : Indexer) where
  -- List of managedServiceAccountLister
  unfoldable pub list : I.Selector → List ManagedServiceAccount × Option Error
  list selector = I.list_all selector append []

  -- List of managedServiceAccountNamespaceLister
  unfoldable pub namespace_list : String → I.Selector → List ManagedServiceAccount × Option Error
  namespace_list namespace selector = I.list_all_by_namespace namespace selector append []

  -- the reply of GetByKey
  abbrev found : String → Result (Option ManagedServiceAccount) → Result ManagedServiceAccount
  found name (err e) = err e
  found name (ok none) = err (not_found (I.not_found_text "managedserviceaccount" name))
  found name (ok (some m)) = ok m

  -- Get of managedServiceAccountNamespaceLister
  unfoldable pub get : String → String → Result ManagedServiceAccount
  get namespace name = found name (I.get_by_key (namespace <> "/" <> name))
