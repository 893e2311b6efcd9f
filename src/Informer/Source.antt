-- ===== src/Informer/Source.antt =====
-- pkg/generated/informers/externalversions/authentication/v1beta1/managedserviceaccount.go: what an
-- informer of ManagedServiceAccounts lists and watches.
pub mod Granted
mod Samples
use managed_serviceaccount.Prelude.{String, Option, none, some, List}
use managed_serviceaccount.Gotime.{Duration}
use managed_serviceaccount.Effect.{Call}
use managed_serviceaccount.Api.{ManagedServiceAccount}
use managed_serviceaccount.Client.{ListOptions, Rest, list, watch}

-- TweakListOptionsFunc, which writes the options that it is given; none is nil
abbrev pub Tweak : Type 0
Tweak = ListOptions → ListOptions

abbrev pub tweaked : Option Tweak → ListOptions → ListOptions
tweaked none options = options
tweaked (some tweak) options = tweak options

module _ {S : Type 0} (R : Rest S) where
  -- cache.ListWatch, and NewSharedIndexInformer and cache.Indexers of k8s.io/client-go/tools/cache
  pub record ListWatch : Type 0 where
    pub list_func : ListOptions → Call S (List ManagedServiceAccount)
    pub watch_func : ListOptions → Call S R.Watcher

  pub record Cache : Type 1 where
    pub Indexers : Type 0
    pub SharedIndexInformer : Type 0
    pub new_shared_index_informer : ListWatch → String → Duration → Indexers → SharedIndexInformer
    -- cache.Indexers{cache.NamespaceIndex: cache.MetaNamespaceIndexFunc}
    pub by_namespace : Indexers

  -- the ListWatch of NewFilteredManagedServiceAccountInformer; the client is that of the namespace
  unfoldable pub list_watch : String → Option Tweak → ListWatch
  unfolding list watch
  list_watch namespace tweak = record {
    list_func = λ options. list R namespace (tweaked tweak options);
    watch_func = λ options. watch R namespace (tweaked tweak options);
  }

  module _ (C : Cache) where
    open C use {Indexers, SharedIndexInformer}

    unfoldable pub new_filtered_informer :
        String → Duration → Indexers → Option Tweak → SharedIndexInformer
    unfolding list_watch
    new_filtered_informer namespace resync_period indexers tweak =
        C.new_shared_index_informer (list_watch namespace tweak) "v1beta1.ManagedServiceAccount"
          resync_period indexers

    unfoldable pub new_informer : String → Duration → Indexers → SharedIndexInformer
    unfolding new_filtered_informer
    new_informer namespace resync_period indexers =
        new_filtered_informer namespace resync_period indexers none

    -- defaultInformer
    unfoldable pub default_informer : String → Option Tweak → Duration → SharedIndexInformer
    unfolding new_filtered_informer
    default_informer namespace tweak resync_period =
        new_filtered_informer namespace resync_period C.by_namespace tweak
