-- ===== src/Informer/Sharing.antt =====
-- Informers are shared: one for each type.
use managed_serviceaccount.Prelude.{
  String, eq_iff, Option, none, some, List, [], ◌∷◌, ◌≡◌, refl, ◌∙◌, ap, arith, on_if,
}
use managed_serviceaccount.Prelude.Dict.{lookup, lookup-insert}
use managed_serviceaccount.Gotime.{Duration}
use managed_serviceaccount.Informer.{
  Kinds, Informer, Factory, is_started, start_all, start, shutdown, added, informer_for, Step,
  requested, begun, ended, finished, Reach, here, next,
}

module _ (K : Kinds) where
  start_all-informers :
      (entries : List (String × Informer K)) (f : Factory K)
      → (start_all K entries f).informers ≡ f.informers
  unfolding start_all
  start_all-informers [] f = refl
  start_all-informers ((t, informer) ∷ rest) f =
      on_if (λ g. (start_all K rest g).informers ≡ f.informers) (is_started K t f.started_informers)
        f _ (λ _. start_all-informers rest f) (λ _. start_all-informers rest _)

  start-informers : (f : Factory K) → (start K f).informers ≡ f.informers
  unfolding start
  start-informers f =
      on_if (λ g. g.informers ≡ f.informers) f.shutting_down f (start_all K f.informers f)
        (λ _. refl) (λ _. start_all-informers f.informers f)

  added-lookup :
      (u t : String) (new_func : K.Client → Duration → Informer K) (f : Factory K)
      (o : Option (Informer K)) (informer : Informer K)
      → lookup u f.informers ≡ o
      → lookup t f.informers ≡ some informer
      → lookup t (added K u new_func f o).1.informers ≡ some informer
  unfolding added
  added-lookup u t new_func f (some x) informer e h = h
  added-lookup u t new_func f none informer e h = ground (
    arith,
    e,
    h,
    eq_iff u t,
    lookup-insert u t (added K u new_func f none).0 f.informers,
    ap (λ z. lookup z f.informers),
  )

  Step-lookup :
      {f g : Factory K} (t : String) (informer : Informer K)
      → Step K f g
      → lookup t f.informers ≡ some informer
      → lookup t g.informers ≡ some informer
  unfolding informer_for shutdown
  Step-lookup t informer (requested u new_func f) h =
      added-lookup u t new_func f (lookup u f.informers) informer refl h
  Step-lookup t informer (begun f) h = ap (lookup t) (start-informers f) ∙ h
  Step-lookup t informer (ended f) h = h
  Step-lookup t informer (finished f n e) h = h

  Reach-lookup :
      {f g : Factory K} (t : String) (informer : Informer K)
      → lookup t f.informers ≡ some informer
      → Reach K f g
      → lookup t g.informers ≡ some informer
  Reach-lookup t informer h here = h
  Reach-lookup t informer h (next r s) = Step-lookup t informer s (Reach-lookup t informer h r)

  added-found :
      (t : String) (new_func : K.Client → Duration → Informer K) (f : Factory K)
      (o : Option (Informer K))
      → lookup t f.informers ≡ o
      → lookup t (added K t new_func f o).1.informers ≡ some (added K t new_func f o).0
  unfolding added
  added-found t new_func f (some x) e = e
  added-found t new_func f none e = lookup-insert t t _ f.informers ∙ rw ((eq_iff t t).1 refl) refl

  -- An informer that was requested once is the one that every later request for its type gets, however
  -- that request would make it, and whatever was requested, started and shut down in between.
  pub informer_for_shared :
      (t : String) (new_func later : K.Client → Duration → Informer K) (f g : Factory K)
      → Reach K (informer_for K t new_func f).1 g
      → (informer_for K t later g).0 ≡ (informer_for K t new_func f).0
  unfolding informer_for
  informer_for_shared t new_func later f g r =
      let found = added-found t new_func f (lookup t f.informers) refl in
      ap (λ o. (added K t later g o).0)
        (Reach-lookup t (added K t new_func f (lookup t f.informers)).0 found r)
      ∙ unfold added in refl
