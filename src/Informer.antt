-- ===== src/Informer.antt =====
-- pkg/generated/informers/externalversions/factory.go: the factory of shared informers. Its methods
-- hold the lock from beginning to end, so each is one step on the state.
pub mod Runs
pub mod Source
pub mod Lister
pub mod Generic
pub mod Sharing
pub mod Samples
use managed_serviceaccount.Prelude.{
  ℕ, ◌+◌, ◌≡◌, String, Bool, true, false, Option, none, some, List, [], ◌∷◌, if◌then◌else◌,
}
use managed_serviceaccount.Prelude.Dict.{Dict, lookup, insert}
use managed_serviceaccount.Gotime.{Duration}

-- The types of a client set, of the functions that tweak list options, and of transforms.
pub record Kinds : Type 1 where
  pub Client : Type 0
  pub Tweak : Type 0
  pub Transform : Type 0

module _ (K : Kinds) where
  open K use {Client, Tweak, Transform}

  -- A cache.SharedIndexInformer, as far as the factory sets it up: what `origin` tells where its
  -- newFunc made it.
  pub record Informer : Type 0 where
    pub origin : String
    pub resync : Duration
    pub transform : Option Transform

  -- sharedInformerFactory; a reflect.Type is the name of a type
  pub record Factory : Type 0 where
    pub client : Client
    pub namespace : String
    pub tweak_list_options : Option Tweak
    pub default_resync : Duration
    pub custom_resync : Dict Duration
    pub transform : Option Transform
    pub informers : Dict Informer
    pub started_informers : Dict Bool
    -- the counter of wg
    pub wg : ℕ
    pub shutting_down : Bool
    -- the types whose informers were run, the last one first
    pub launched : List String

  -- SharedInformerOption
  abbrev pub FactoryOption : Type 0
  FactoryOption = Factory → Factory

  with_resyncs : List (String × Duration) → Dict Duration → Dict Duration
  unfolding insert
  with_resyncs [] resyncs = resyncs
  with_resyncs ((t, d) ∷ rest) resyncs = with_resyncs rest (insert t d resyncs)

  unfoldable pub with_custom_resync_config : List (String × Duration) → FactoryOption
  unfolding with_resyncs
  with_custom_resync_config config f = record f {
    custom_resync = with_resyncs config f.custom_resync;
  }

  unfoldable pub with_tweak_list_options : Option Tweak → FactoryOption
  with_tweak_list_options tweak f = record f { tweak_list_options = tweak }

  unfoldable pub with_namespace : String → FactoryOption
  with_namespace namespace f = record f { namespace = namespace }

  unfoldable pub with_transform : Option Transform → FactoryOption
  with_transform transform f = record f { transform = transform }

  abbrev apply_all : List FactoryOption → Factory → Factory
  apply_all [] f = f
  apply_all (option ∷ options) f = apply_all options (option f)

  unfoldable pub new_shared_informer_factory_with_options :
      Client → Duration → List FactoryOption → Factory
  new_shared_informer_factory_with_options client default_resync options =
      apply_all options (record {
        client = client;
        namespace = "";
        tweak_list_options = none;
        default_resync = default_resync;
        custom_resync = [];
        transform = none;
        informers = [];
        started_informers = [];
        wg = 0;
        shutting_down = false;
        launched = [];
      })

  unfoldable pub new_shared_informer_factory : Client → Duration → Factory
  unfolding new_shared_informer_factory_with_options
  new_shared_informer_factory client default_resync =
      new_shared_informer_factory_with_options client default_resync []

  unfoldable pub new_filtered_shared_informer_factory :
      Client → Duration → String → Option Tweak → Factory
  unfolding new_shared_informer_factory_with_options with_namespace with_tweak_list_options
  new_filtered_shared_informer_factory client default_resync namespace tweak =
      new_shared_informer_factory_with_options client default_resync
        (with_namespace namespace ∷ with_tweak_list_options tweak ∷ [])

  -- f.startedInformers[t]
  unfoldable pub is_started : String → Dict Bool → Bool
  unfolding lookup
  is_started t started = elim (lookup t started) [ none ↦ false | some b ↦ b ]

  -- the loop of Start; the goroutine that it launches runs the informer and then calls wg.Done
  start_all : List (String × Informer) → Factory → Factory
  unfolding insert is_started
  start_all [] f = f
  start_all ((t, informer) ∷ rest) f = start_all rest (
      if is_started t f.started_informers then f else record f {
        wg = f.wg + 1;
        launched = t ∷ f.launched;
        started_informers = insert t true f.started_informers;
      })

  unfoldable pub start : Factory → Factory
  unfolding start_all
  start f = if f.shutting_down then f else start_all f.informers f

  -- Shutdown up to its wait for wg
  unfoldable pub shutdown : Factory → Factory
  shutdown f = record f { shutting_down = true }

  -- the result of WaitForCacheSync, where `synced` is what cache.WaitForCacheSync answers for an informer
  sync_all : (Informer → Bool) → Dict Bool → List (String × Informer) → Dict Bool → Dict Bool
  unfolding insert is_started
  sync_all synced started [] res = res
  sync_all synced started ((t, informer) ∷ rest) res =
      sync_all synced started rest
        (if is_started t started then insert t (synced informer) res else res)

  unfoldable pub wait_for_cache_sync : (Informer → Bool) → Factory → Dict Bool
  unfolding sync_all
  wait_for_cache_sync synced f = sync_all synced f.started_informers f.informers []

  -- the resync period of a new informer
  resync_period : String → Factory → Duration
  unfolding lookup
  resync_period t f = elim (lookup t f.custom_resync) [ some d ↦ d | none ↦ f.default_resync ]

  added : String → (Client → Duration → Informer) → Factory → Option Informer → Informer × Factory
  unfolding resync_period insert
  added t new_func f (some informer) = (informer, f)
  added t new_func f none =
      let informer = record (new_func f.client (resync_period t f)) { transform = f.transform } in
      (informer, record f { informers = insert t informer f.informers })

  -- InformerFor
  unfoldable pub informer_for :
      String → (Client → Duration → Informer) → Factory → Informer × Factory
  unfolding added lookup
  informer_for t new_func f = added t new_func f (lookup t f.informers)

  -- Authentication().V1beta1().ManagedServiceAccounts().Informer(), for the newFunc that
  -- defaultInformer makes of a namespace and list options
  unfoldable pub msa_informer :
      (String → Option Tweak → Client → Duration → Informer) → Factory → Informer × Factory
  unfolding informer_for
  msa_informer default_informer f =
      informer_for "v1beta1.ManagedServiceAccount"
        (default_informer f.namespace f.tweak_list_options) f

  -- A step of the callers and of the goroutines that were launched.
  pub data Step : Factory → Factory → Type 0 where
    requested :
        (t : String) (new_func : Client → Duration → Informer) (f : Factory)
        → Step f (informer_for t new_func f).1
    begun : (f : Factory) → Step f (start f)
    ended : (f : Factory) → Step f (shutdown f)
    finished : (f : Factory) (n : ℕ) → f.wg ≡ n + 1 → Step f (record f { wg = n })

  pub data Reach (f : Factory) : Factory → Type 0 where
    here : Reach f f
    next : {g h : Factory} → Reach f g → Step g h → Reach f h
