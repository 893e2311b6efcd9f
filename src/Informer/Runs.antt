-- ===== src/Informer/Runs.antt =====
-- How often an informer is run.
use managed_serviceaccount.Prelude.{
  ℕ, ◌+◌, ◌≤◌, String, ◌==◌, eq_iff, Bool, true, false, Option, none, some, List, [], ◌∷◌, ◌≡◌,
  refl, ◌∙◌, sym, ap, arith, if◌then◌else◌, Bool-cases, on_if, inl, inr,
}
use managed_serviceaccount.Prelude.Dict.{Dict, lookup, insert, lookup-insert}
use managed_serviceaccount.Gotime.{Duration}
use managed_serviceaccount.Informer.{
  Kinds, Informer, Factory, is_started, start_all, start, shutdown, added, informer_for, Step,
  requested, begun, ended, finished, Reach, here, next,
}

-- How often a name stands in a list.
abbrev pub count : String → List String → ℕ
count t [] = 0
count t (x ∷ xs) = (if x == t then 1 else 0) + count t xs

abbrev pub length : List String → ℕ
length [] = 0
length (x ∷ xs) = 1 + length xs

module _ (K : Kinds) where
  -- Each informer that is marked as started was run once, each other one never, and wg counts no more
  -- than the informers that were run.
  pub record IsValid (f : Factory K) : Type 0 where
    pub once :
        (t : String) → count t f.launched ≡ (if is_started K t f.started_informers then 1 else 0)
    pub counted : f.wg ≤ length f.launched

  pub is_started-insert :
      (t u : String) (started : Dict Bool)
      → is_started K u (insert t true started) ≡ (if t == u then true else is_started K u started)
  unfolding is_started
  is_started-insert t u started = ground (arith, lookup-insert t u true started)

  -- the factory after one round of the loop of Start
  abbrev launch : String → Factory K → Factory K
  launch t f = record f {
    wg = f.wg + 1;
    launched = t ∷ f.launched;
    started_informers = insert t true f.started_informers;
  }

  launch-IsValid :
      (t : String) (f : Factory K)
      → is_started K t f.started_informers ≡ false
      → IsValid f
      → IsValid (launch t f)
  launch-IsValid t f new v = record {
    once = λ u.
        ground
          (arith, v.once u, v.once t, eq_iff t u, is_started-insert t u f.started_informers, new);
    counted = omega (arith, v.counted);
  }

  start_all-IsValid :
      (entries : List (String × Informer K)) (f : Factory K)
      → IsValid f
      → IsValid (start_all K entries f)
  unfolding start_all
  start_all-IsValid [] f v = v
  start_all-IsValid ((t, informer) ∷ rest) f v =
      elim (Bool-cases (is_started K t f.started_informers)) [
        | inl old ↦ rw old (start_all-IsValid rest f v)
        | inr new ↦ rw new (start_all-IsValid rest (launch t f) (launch-IsValid t f new v))
      ]

  start-IsValid : (f : Factory K) → IsValid f → IsValid (start K f)
  unfolding start
  start-IsValid f v =
      on_if IsValid f.shutting_down f (start_all K f.informers f) (λ _. v)
        (λ _. start_all-IsValid f.informers f v)

  added-IsValid :
      (t : String) (new_func : K.Client → Duration → Informer K) (f : Factory K)
      (o : Option (Informer K))
      → IsValid f
      → IsValid (added K t new_func f o).1
  unfolding added
  added-IsValid t new_func f none v = record { once = v.once; counted = v.counted }
  added-IsValid t new_func f (some informer) v = v

  fresh-IsValid :
      (f : Factory K) → f.launched ≡ [] → f.started_informers ≡ [] → f.wg ≡ 0 → IsValid f
  unfolding is_started lookup
  fresh-IsValid f none_run none_marked idle = record {
    once =
        λ t. ap (count t) none_run ∙ sym (ap (λ m. if is_started K t m then 1 else 0) none_marked);
    counted = omega (arith, idle);
  }

  informer_for-IsValid :
      (t : String) (new_func : K.Client → Duration → Informer K) (f : Factory K)
      → IsValid f
      → IsValid (informer_for K t new_func f).1
  unfolding informer_for
  informer_for-IsValid t new_func f v = added-IsValid t new_func f (lookup t f.informers) v

  Step-IsValid : {f g : Factory K} → Step K f g → IsValid f → IsValid g
  Step-IsValid (requested t new_func f) v = informer_for-IsValid t new_func f v
  Step-IsValid (begun f) v = start-IsValid f v
  Step-IsValid (ended f) v = unfold shutdown in record { once = v.once; counted = v.counted }
  Step-IsValid (finished f n e) v = record { once = v.once; counted = omega (arith, v.counted, e) }

  Reach-IsValid : {f g : Factory K} → IsValid f → Reach K f g → IsValid g
  Reach-IsValid v here = v
  Reach-IsValid v (next r s) = Step-IsValid s (Reach-IsValid v r)

  started_once : (b : Bool) → (if b then 1 else 0) ≤ 1
  started_once b = ground arith

  -- Whatever is requested, started, shut down and finished, and in whatever order, from a factory that
  -- has run nothing: no informer is run twice, one that is marked as started was run, and wg never
  -- counts more than the informers that were run.
  pub runs_once :
      (f g : Factory K)
      → f.launched ≡ []
      → f.started_informers ≡ []
      → f.wg ≡ 0
      → Reach K f g
      → ((t : String) → count t g.launched ≤ 1)
        × ((t : String) → is_started K t g.started_informers ≡ true → count t g.launched ≡ 1)
        × (g.wg ≤ length g.launched)
  runs_once f g none_run none_marked idle r =
      let v = Reach-IsValid (fresh-IsValid f none_run none_marked idle) r in
      (
        λ t. omega (arith, v.once t, started_once (is_started K t g.started_informers)),
        λ t h. v.once t ∙ rw h refl,
        v.counted,
      )

  start_all-keeps :
      (entries : List (String × Informer K)) (f : Factory K) (t : String)
      → is_started K t f.started_informers ≡ true
      → is_started K t (start_all K entries f).started_informers ≡ true
  unfolding start_all
  start_all-keeps [] f t h = h
  start_all-keeps ((u, informer) ∷ rest) f t h =
      on_if (λ g. is_started K t (start_all K rest g).started_informers ≡ true)
        (is_started K u f.started_informers) f (launch u f) (λ _. start_all-keeps rest f t h)
        (λ _.
          start_all-keeps rest (launch u f) t
            (ground (arith, h, is_started-insert u t f.started_informers)))

  start_all-marks :
      (entries : List (String × Informer K)) (f : Factory K) (t : String) (informer : Informer K)
      → lookup t entries ≡ some informer
      → is_started K t (start_all K entries f).started_informers ≡ true
  unfolding start_all lookup
  start_all-marks [] f t informer h = absurd (ground (arith, h))
  start_all-marks ((u, x) ∷ rest) f t informer h = elim (Bool-cases (u == t)) [
    | inl same ↦
        on_if (λ g. is_started K t (start_all K rest g).started_informers ≡ true)
          (is_started K u f.started_informers) f (launch u f)
          (λ old.
            start_all-keeps rest f t
              (ap (λ z. is_started K z f.started_informers) (sym ((eq_iff u t).0 same)) ∙ old))
          (λ _.
            start_all-keeps rest (launch u f) t
              (is_started-insert u t f.started_informers ∙ rw same refl))
    | inr other ↦
        on_if (λ g. is_started K t (start_all K rest g).started_informers ≡ true)
          (is_started K u f.started_informers) f (launch u f)
          (λ _. start_all-marks rest f t informer (rw other at h))
          (λ _. start_all-marks rest (launch u f) t informer (rw other at h))
  ]

  start-marks :
      (f : Factory K) (t : String) (informer : Informer K)
      → f.shutting_down ≡ false
      → lookup t f.informers ≡ some informer
      → is_started K t (start K f).started_informers ≡ true
  unfolding start
  start-marks f t informer up h =
      on_if (λ g. is_started K t g.started_informers ≡ true) f.shutting_down f
        (start_all K f.informers f) (λ down. absurd (ground (arith, up, down)))
        (λ _. start_all-marks f.informers f t informer h)

  -- In a factory that grew from one that had run nothing and is not shutting down, each informer that
  -- was requested was run exactly once after a Start, be it by this one or by an earlier one.
  pub start_runs :
      (f g : Factory K) (t : String) (informer : Informer K)
      → f.launched ≡ []
      → f.started_informers ≡ []
      → f.wg ≡ 0
      → Reach K f g
      → g.shutting_down ≡ false
      → lookup t g.informers ≡ some informer
      → count t (start K g).launched ≡ 1
  start_runs f g t informer none_run none_marked idle r up h =
      (runs_once f (start K g) none_run none_marked idle (next r (begun g))).1 t
        (start-marks g t informer up h)

  start-down : (f : Factory K) → f.shutting_down ≡ true → start K f ≡ f
  unfolding start
  start-down f down =
      on_if (λ g. g ≡ f) f.shutting_down f (start_all K f.informers f) (λ _. refl)
        (λ up. absurd (ground (arith, down, up)))

  -- A factory that is shutting down and has launched some list of informers.
  record IsDown (launched : List String) (f : Factory K) : Type 0 where
    down : f.shutting_down ≡ true
    same : f.launched ≡ launched

  added-IsDown :
      (l : List String) (t : String) (new_func : K.Client → Duration → Informer K) (f : Factory K)
      (o : Option (Informer K))
      → IsDown l f
      → IsDown l (added K t new_func f o).1
  unfolding added
  added-IsDown l t new_func f none v = record { down = v.down; same = v.same }
  added-IsDown l t new_func f (some informer) v = v

  Step-IsDown : (l : List String) {f g : Factory K} → Step K f g → IsDown l f → IsDown l g
  unfolding informer_for shutdown
  Step-IsDown l (requested t new_func f) v = added-IsDown l t new_func f (lookup t f.informers) v
  Step-IsDown l (begun f) v = coe 1 0 (i. IsDown l (start-down f v.down i)) v
  Step-IsDown l (ended f) v = record { down = refl; same = v.same }
  Step-IsDown l (finished f n e) v = record { down = v.down; same = v.same }

  Reach-IsDown : (l : List String) {f g : Factory K} → IsDown l f → Reach K f g → IsDown l g
  Reach-IsDown l v here = v
  Reach-IsDown l v (next r s) = Step-IsDown l s (Reach-IsDown l v r)

  -- After a Shutdown no informer is run any more, whatever is requested or started.
  pub shutdown_runs_none : (f g : Factory K) → Reach K (shutdown K f) g → g.launched ≡ f.launched
  unfolding shutdown
  shutdown_runs_none f g r = (Reach-IsDown f.launched (record { down = refl; same = refl }) r).same
