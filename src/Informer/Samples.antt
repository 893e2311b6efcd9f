-- ===== src/Informer/Samples.antt =====
-- A run of a factory, and the theorems at it.
use managed_serviceaccount.Prelude.{◌≤◌, String, true, none, some, [], ◌∷◌, ◌≡◌, refl}
use managed_serviceaccount.Prelude.Dict.{lookup}
use managed_serviceaccount.Prelude.Int.{pos}
use managed_serviceaccount.Gotime.{Duration}
use managed_serviceaccount.Informer.{
  Kinds, Informer, Factory, is_started, start, informer_for, with_custom_resync_config,
  with_namespace, new_shared_informer_factory_with_options, wait_for_cache_sync, Reach, requested,
  begun, here, next,
}
use managed_serviceaccount.Informer.Runs.{count, length, runs_once, start_runs}

abbrev pub kinds : Kinds
kinds = record { Client = Unit; Tweak = Unit {0}; Transform = Unit }

abbrev pub made : String → Unit {0} → Duration → Informer kinds
made origin client resync = record { origin = origin; resync = resync; transform = none }

pub fresh : Factory kinds
unfolding new_shared_informer_factory_with_options with_custom_resync_config with_namespace
fresh =
    new_shared_informer_factory_with_options kinds tt (pos 600)
      (with_namespace kinds "c1" ∷ with_custom_resync_config kinds (("Account", pos 30) ∷ []) ∷ [])

-- the factory after a request for an informer
asked : Factory kinds
unfolding fresh informer_for
asked = (informer_for kinds "Account" (made "first") fresh).1

to_asked : Reach kinds fresh asked
unfolding asked
to_asked = next here (requested "Account" (made "first") fresh)

-- and after it was started
started : Factory kinds
unfolding asked start is_started
started = start kinds asked

to_started : Reach kinds fresh started
unfolding started
to_started = next to_asked (begun asked)

started_twice : (start kinds started).launched ≡ "Account" ∷ []
unfolding started start is_started
started_twice = refl

custom_resync : lookup "Account" asked.informers ≡ some (made "first" tt (pos 30))
unfolding asked lookup
custom_resync = refl

synced_account : wait_for_cache_sync kinds (λ _. true) started ≡ ("Account", true) ∷ []
unfolding wait_for_cache_sync started is_started
synced_account = refl

runs_once_example :
    ((t : String) → count t started.launched ≤ 1)
    × ((t : String)
        → is_started kinds t started.started_informers ≡ true
        → count t started.launched ≡ 1)
    × (started.wg ≤ length started.launched)
runs_once_example = unfold fresh in runs_once kinds fresh started refl refl refl to_started

start_runs_example : count "Account" (start kinds asked).launched ≡ 1
unfolding asked
start_runs_example =
    start_runs kinds fresh asked "Account" (made "first" tt (pos 30)) refl refl refl to_asked refl
      custom_resync
