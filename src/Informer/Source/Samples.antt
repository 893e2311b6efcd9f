-- ===== src/Informer/Source/Samples.antt =====
-- An informer over requests that are their attributes.
use managed_serviceaccount.Prelude.{some, none, ◌≡◌, refl}
use managed_serviceaccount.Gotime.{Duration}
use managed_serviceaccount.Prelude.Int.{pos}
use managed_serviceaccount.Client.Samples.{rest, builder, options}
use managed_serviceaccount.Informer.Source.{
  Tweak, ListWatch, Cache, list_watch, new_informer, default_informer,
}
use managed_serviceaccount.Informer.Source.Granted.{Sends, list_watch-Sends}

-- An informer that is its functions and its period.
abbrev cache : Cache rest
cache = record {
  Indexers = Unit;
  SharedIndexInformer = ListWatch rest × Duration;
  new_shared_index_informer = λ w _ resync _. (w, resync);
  by_namespace = tt;
}

abbrev labelled : Tweak
labelled o = record o { label_selector = "a=b" }

without_tweak :
    new_informer rest cache "c1" (pos 5) tt ≡ default_informer rest cache "c1" none (pos 5)
unfolding new_informer default_informer
without_tweak = refl

list_watch-Sends_example : Sends rest builder "c1" (list_watch rest "c1" (some labelled)) options
list_watch-Sends_example =
    list_watch-Sends rest builder "c1" (some labelled) options (λ e. cc (e)) refl
