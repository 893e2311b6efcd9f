-- ===== src/Ephemeral/Worker.antt =====
-- pkg/addon/commoncontroller/ephemeral_identity_controller.go: how often Reconcile runs until a
-- ManagedServiceAccount with a time to live is deleted.
use managed_serviceaccount.Prelude.{
  ℕ, zero, suc, Option, none, some, true, ◌≡◌, refl, ◌∙◌, ap, arith, if◌then◌else◌,
}
use managed_serviceaccount.Prelude.Int.{
  ℤ, pos, ltb_ℤ, negsuc, pos_part, neg_part, scale, ◌+ℤ◌, ◌-ℤ◌, ◌≤ℤ◌, ◌<ℤ◌, saturate64,
}
use managed_serviceaccount.Gotime.{Time, Duration, second, after, sub}
use managed_serviceaccount.Errors.{Result, ok, err}
use managed_serviceaccount.Effect.{next, wrapped, pure}
use managed_serviceaccount.Effect.Triple.{
  Ends, Ends-ok, Ends-next, Ends-if, Ends-attempt, Ends-wrapf,
}
use managed_serviceaccount.Kube.{Key, key_of, Outcome, put_at}
use managed_serviceaccount.Api.{ManagedServiceAccount}
use managed_serviceaccount.Ephemeral.{
  Hub, no_requeue, deletion_time, expire, check_ttl, from_reply, reconcile,
}
use managed_serviceaccount.Ephemeral.Expiry.{Fits32, deletion_time_exact, sub_nonneg, not_after}
use managed_serviceaccount.Ephemeral.Wait.{saturated_nonneg, positive, wait_over}

module _ (H : Hub) where
  open H use {State, accounts}

  -- reconcileHandler of controller-runtime, vendor/sigs.k8s.io/controller-runtime: after a run the next
  -- one is queued for when the wait is over that it asked for, or without a wait of its own if it
  -- failed or asked for no wait; a run that asks for no other is the last.
  abbrev pub again : (Duration → State → Option State) → Result Outcome × State → Option State
  again more (err e, t) = more (pos 0) t
  again more (ok out, t) =
      if ltb_ℤ (pos 0) out.requeue_after
      then more out.requeue_after t
      else (if out.requeue then more (pos 0) t else some t)

  unfoldable pub work : (Duration → State → State) → Key → ℕ → State → Option State
  work wait k zero s = none
  work wait k (suc fuel) s = again (λ d t. work wait k fuel (wait d t)) (reconcile H k s)

  -- A hub that answers: a read gives the object that is there, a deletion removes it, and the clock
  -- does not go back during a read.
  pub record IsAvailable : Type 0 where
    pub reads_account :
        (k : Key) (m : ManagedServiceAccount) (s : State)
        → accounts s k ≡ some m
        → Ends
            (λ n t. (n ≡ m) × (accounts t ≡ accounts s) × (H.now s ≤ℤ H.now t))
            (λ _ _. ⊥)
            (H.get_account k s)
    pub deletes_account :
        (m : ManagedServiceAccount) (s : State)
        → Ends
            (λ _ t. accounts t ≡ put_at (accounts s) (key_of m.metadata) none)
            (λ _ _. ⊥)
            (H.delete_account m s)

  -- A queue that hands a request over after the wait, and changes no object.
  pub record IsQueue (wait : Duration → State → State) : Type 0 where
    pub keeps : (d : Duration) (s : State) → accounts (wait d s) ≡ accounts s
    pub waits : (d : Duration) (s : State) → H.now s +ℤ d <ℤ H.now (wait d s)

  -- What a run leaves: the object deleted, or a request to run again when the deletion is due.
  data Ran (k : Key) (s : State) (due : Time) (out : Outcome) (t : State) : Type 0 where
    deleted : out ≡ no_requeue → accounts t ≡ put_at (accounts s) k none → Ran k s due out t
    waiting :
        out.requeue ≡ true
        → out.requeue_after ≡ saturate64 (due -ℤ H.now t)
        → H.now t ≤ℤ due
        → H.now s ≤ℤ H.now t
        → accounts t ≡ accounts s
        → Ran k s due out t

  module _ (A : IsAvailable) (k : Key) (managed : ManagedServiceAccount) (s : State)
      (key : key_of managed.metadata ≡ k) where
    delete_effect :
        (due : Time) (t : State)
        → accounts t ≡ accounts s
        → Ends
            (Ran k s due)
            (λ _ _. ⊥)
            (next
              (wrapped "fail to delete expired ManagedServiceAccount" (H.delete_account managed t))
              (λ _. pure no_requeue))
    delete_effect due t u =
        Ends-next {E = λ _ _. ⊥} _ (Ends-wrapf _ _ (A.deletes_account managed t) (λ _ _ h. h))
          (λ _ _ h. h)
          (λ _ v h. Ends-ok (
            deleted refl (
              h
              ∙ ap (λ f. put_at f (key_of managed.metadata) none) u
              ∙ ap (λ j. put_at (accounts s) j none) key)))

    expire_ran :
        (due : Time) (t : State)
        → accounts t ≡ accounts s
        → H.now s ≤ℤ H.now t
        → Ends (Ran k s due) (λ _ _. ⊥) (expire H managed due (H.now t) t)
    unfolding expire
    expire_ran due t u clock =
        Ends-if (after (H.now t) due) _ _ t (λ _. delete_effect due t u)
          (λ early.
            rw (sub_nonneg due (H.now t) early)
              (Ends-ok (waiting refl (unfold sub in refl) (not_after due (H.now t) early) clock u)))

    check_ttl_ran :
        (ttl : ℤ) (t : State) (o : Option ℤ)
        → o ≡ some ttl
        → Fits32 ttl
        → accounts t ≡ accounts s
        → H.now s ≤ℤ H.now t
        → Ends
            (Ran k s (managed.metadata.creation_timestamp +ℤ scale ttl second))
            (λ _ _. ⊥)
            (check_ttl H managed o t)
    unfolding check_ttl
    check_ttl_ran ttl t none h fits u clock = absurd (ground (arith, h))
    check_ttl_ran ttl t (some ttl') h fits u clock =
        let e : deletion_time managed.metadata.creation_timestamp ttl'
            ≡ managed.metadata.creation_timestamp +ℤ scale ttl second =
          ap (deletion_time managed.metadata.creation_timestamp) (cc (h))
          ∙ deletion_time_exact managed.metadata.creation_timestamp ttl fits in
        rw e (expire_ran _ t u clock)

    reconcile_ran :
        (ttl : ℤ)
        → accounts s k ≡ some managed
        → managed.spec.ttl_seconds_after_creation ≡ some ttl
        → Fits32 ttl
        → Ends
            (Ran k s (managed.metadata.creation_timestamp +ℤ scale ttl second))
            (λ _ _. ⊥)
            (reconcile H k s)
    unfolding reconcile from_reply
    reconcile_ran ttl held has_ttl fits =
        Ends-attempt _ _ (A.reads_account k managed s held) (λ _ _ miss. absurd miss)
          (λ m t (same, kept, clock). rw same (check_ttl_ran ttl t _ has_ttl fits kept clock))

  -- The worker stops, and the request's object is deleted then.
  pub record Deletes (k : Key) (s : State) (o : Option State) : Type 0 where
    pub last : State
    pub stops : o ≡ some last
    pub gone : accounts last ≡ put_at (accounts s) k none

  queued :
      {k : Key} {s : State} (more : Duration → State → Option State) (d : Duration) (t : State)
      → pos 0 ≤ℤ d
      → Deletes k s (more d t)
      → Deletes k s
          (if ltb_ℤ (pos 0) d then more d t else (if true then more (pos 0) t else some t))
  queued more (pos zero) t nonneg h = h
  queued more (pos (suc n)) t nonneg h = rw (positive (suc n) (omega arith)) h
  queued more (negsuc n) t nonneg h = absurd (omega (arith, nonneg))

  Ran-done :
      (k : Key) (s : State) (due : Time) (more : Duration → State → Option State) (out : Outcome)
      (t : State)
      → Ran k s due out t
      → ((d : Duration) (t : State)
          → d ≡ saturate64 (due -ℤ H.now t)
          → H.now t ≤ℤ due
          → H.now s ≤ℤ H.now t
          → accounts t ≡ accounts s
          → Deletes k s (more d t))
      → Deletes k s (again more (ok out, t))
  Ran-done k s due more out t (deleted stop gone) go =
      rw stop (record { last = t; stops = refl; gone = gone })
  Ran-done k s due more out t (waiting retry after early clock kept) go = rw retry (
      queued more out.requeue_after t (saturated_nonneg due (H.now t) out.requeue_after after early)
        (go out.requeue_after t after early clock kept))

  Ran-again :
      {k : Key} {s : State} {due : Time} (more : Duration → State → Option State)
      (r : Result Outcome × State)
      → Ends (Ran k s due) (λ _ _. ⊥) r
      → ((d : Duration) (t : State)
          → d ≡ saturate64 (due -ℤ H.now t)
          → H.now t ≤ℤ due
          → H.now s ≤ℤ H.now t
          → accounts t ≡ accounts s
          → Deletes k s (more d t))
      → Deletes k s (again more r)
  Ran-again more (err e, t) h go = absurd h.holds
  Ran-again {k} {s} {due} more (ok out, t) h go = Ran-done k s due more out t h.holds go

  second_run :
      (A : IsAvailable) (wait : Duration → State → State) (k : Key)
      (managed : ManagedServiceAccount) (ttl : ℤ) (s u : State)
      → key_of managed.metadata ≡ k
      → managed.spec.ttl_seconds_after_creation ≡ some ttl
      → Fits32 ttl
      → accounts s k ≡ some managed
      → accounts u ≡ accounts s
      → managed.metadata.creation_timestamp +ℤ scale ttl second <ℤ H.now u
      → Deletes k s (work wait k 1 u)
  unfolding work
  second_run A wait k managed ttl s u key has_ttl fits held kept late =
      let d : Deletes k u (work wait k 1 u) =
        Ran-again _ _ (reconcile_ran A k managed u key ttl (ap (λ f. f k) kept ∙ held) has_ttl fits)
          (λ _ t _ early clock _. absurd (omega (arith, late, early, clock))) in
      record { last = d.last; stops = d.stops; gone = d.gone ∙ ap (λ f. put_at f k none) kept }

  -- A ManagedServiceAccount with a time to live, in 32 bits of seconds, which was not created in the
  -- future: where the hub answers and the queue keeps the waits, the runs for its request end after
  -- two at most, and the object is deleted then.
  pub work-Deletes :
      (A : IsAvailable) (wait : Duration → State → State) (Q : IsQueue wait) (k : Key)
      (managed : ManagedServiceAccount) (ttl : ℤ) (s : State)
      → accounts s k ≡ some managed
      → key_of managed.metadata ≡ k
      → managed.spec.ttl_seconds_after_creation ≡ some ttl
      → Fits32 ttl
      → managed.metadata.creation_timestamp ≤ℤ H.now s
      → Deletes k s (work wait k 2 s)
  unfolding work
  work-Deletes A wait Q k managed ttl s held key has_ttl fits born =
      Ran-again _ _ (reconcile_ran A k managed s key ttl held has_ttl fits)
        (λ d t after early clock kept.
          let over : H.now t +ℤ d ≡ managed.metadata.creation_timestamp +ℤ scale ttl second =
            ap (λ (x : ℤ). H.now t +ℤ x) after
            ∙ wait_over _ (H.now t) (H.now s) _ ttl refl fits born clock early in
          second_run A wait k managed ttl s (wait d t) key has_ttl fits held (Q.keeps d t ∙ kept)
            (omega (arith, ap pos_part over, ap neg_part over, Q.waits d t)))
