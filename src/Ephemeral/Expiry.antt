-- ===== src/Ephemeral/Expiry.antt =====
-- When a ManagedServiceAccount is deleted, and when it is looked at again.
use managed_serviceaccount.Prelude.{
  ◌≤◌, ◌<◌, ◌^◌, true, false, Option, none, some, ◌≡◌, ◌≢◌, refl, ◌∙◌, sym, ap, arith,
}
use managed_serviceaccount.Prelude.Int.{
  ℤ, pos, negsuc, pos_part, neg_part, ltb_ℤ, scale, ◌+ℤ◌, ◌-ℤ◌, ◌≤ℤ◌, ◌<ℤ◌, wrap64_id, saturate64,
  Fits64, -ℤ_parts,
}
use managed_serviceaccount.Gotime.{Time, second, after, sub, add, times}
use managed_serviceaccount.Errors.{Error, is_not_found, message}
use managed_serviceaccount.Effect.{next, wrapped, pure}
use managed_serviceaccount.Effect.Triple.{
  Ends, Ends-ok, Ends-err, Ends-next, Ends-if, Ends-attempt, Ends-wrapf, Ends-run,
}
use managed_serviceaccount.Kube.{Key, key_of, Outcome, put_at}
use managed_serviceaccount.Api.{ManagedServiceAccount}
use managed_serviceaccount.Ephemeral.{
  Hub, no_requeue, deletion_time, expire, check_ttl, from_reply, reconcile,
}

-- The values of a signed 32-bit word.
abbrev pub Fits32 : ℤ → Type 0
Fits32 a = (pos_part a < 2 ^ 31) × (neg_part a ≤ 2 ^ 31)

scale-Fits64 : (a : ℤ) → Fits32 a → Fits64 (scale a second)
unfolding scale
scale-Fits64 (pos n) h = ground arith
scale-Fits64 (negsuc n) h = ground arith

-- A time to live of 32 bits in seconds is no overflow in nanoseconds.
pub deletion_time_exact :
    (created : Time) (ttl : ℤ)
    → Fits32 ttl
    → deletion_time created ttl ≡ created +ℤ scale ttl second
unfolding deletion_time add times
deletion_time_exact created ttl h =
    ap (λ d. created +ℤ d) (wrap64_id (scale ttl second) (scale-Fits64 ttl h))

-- A difference that is not negative is not negative after saturation.
pub saturate64_nonneg : (a : ℤ) → ltb_ℤ a (pos 0) ≡ false → ltb_ℤ (saturate64 a) (pos 0) ≡ false
unfolding saturate64
saturate64_nonneg (pos n) h = ground arith
saturate64_nonneg (negsuc n) h = ground arith

pub sub_nonneg : (due now : Time) → after now due ≡ false → ltb_ℤ (sub due now) (pos 0) ≡ false
unfolding after sub
sub_nonneg due now h = saturate64_nonneg (due -ℤ now) (ground (arith, -ℤ_parts due now, h))

pub not_after : (due now : Time) → after now due ≡ false → now ≤ℤ due
unfolding after
not_after due now h = ground (arith, h)

module _ (H : Hub) where
  open H use {State, accounts}

  -- What the controller relies on: reads answer what the hub holds, a deletion that succeeds removes
  -- the object and one that fails changes nothing, and nobody else writes meanwhile.
  pub record IsLawful : Type 0 where
    pub reads_account :
        (k : Key) (s : State)
        → Ends
            (λ m t. (accounts s k ≡ some m) × (accounts t ≡ accounts s))
            (λ e t. (is_not_found e ≡ true → accounts s k ≡ none) × (accounts t ≡ accounts s))
            (H.get_account k s)
    pub deletes_account :
        (m : ManagedServiceAccount) (s : State)
        → Ends
            (λ _ t. accounts t ≡ put_at (accounts s) (key_of m.metadata) none)
            (λ _ t. accounts t ≡ accounts s)
            (H.delete_account m s)

  -- The clock of a run on `k` that starts in `s`: it is read once the account is.
  abbrev pub now_of : Key → State → Time
  now_of k s = H.now (H.get_account k s).1

  -- A run that succeeded, with the clock at `now` and the deletion due at `due`: the object is gone if
  -- the deletion is overdue, and otherwise nothing changed and the next run comes when it is due.
  pub data Settled (k : Key) (s : State) (now due : Time) (out : Outcome) (t : State) : Type 0 where
    expired :
        due <ℤ now
        → out ≡ no_requeue
        → accounts t ≡ put_at (accounts s) k none
        → Settled k s now due out t
    waiting :
        now ≤ℤ due
        → out.requeue ≡ true
        → out.requeue_after ≡ saturate64 (due -ℤ now)
        → accounts t ≡ accounts s
        → Settled k s now due out t

  -- A run that failed changed nothing, and not for the reason that the wait came out negative.
  abbrev pub Failed : State → Error → State → Type 0
  Failed s e t = (e ≢ message "unexpected error, requeue") × (accounts t ≡ accounts s)

  module _ (L : IsLawful) (k : Key) (managed : ManagedServiceAccount) (s : State)
      (key : key_of managed.metadata ≡ k) where
    overdue_effect :
        (due now : Time) (t : State)
        → after now due ≡ true
        → accounts t ≡ accounts s
        → Ends (Settled k s now due) (Failed s) (
            next
              (wrapped "fail to delete expired ManagedServiceAccount" (H.delete_account managed t))
              (λ _. pure no_requeue))
    unfolding after
    overdue_effect due now t late u =
        Ends-next {E = Failed s} _
          (Ends-wrapf _ _ (L.deletes_account managed t) (λ _ _ h. (λ p. cc, h ∙ u))) (λ _ _ h. h)
          (λ _ v h. Ends-ok (
            expired (ground (arith, late)) refl (
              h
              ∙ ap (λ f. put_at f (key_of managed.metadata) none) u
              ∙ ap (λ j. put_at (accounts s) j none) key)))

    expire_effect :
        (due now : Time) (t : State)
        → accounts t ≡ accounts s
        → Ends (Settled k s now due) (Failed s) (expire H managed due now t)
    unfolding expire
    expire_effect due now t u =
        Ends-if (after now due) _ _ t (λ late. overdue_effect due now t late u)
          (λ early.
            rw (sub_nonneg due now early)
              (Ends-ok (waiting (not_after due now early) refl (unfold sub in refl) u)))

  with_ttl_effect :
      (L : IsLawful) (k : Key) (managed : ManagedServiceAccount) (ttl : ℤ) (s t : State)
      (o : Option ℤ)
      → key_of managed.metadata ≡ k
      → o ≡ some ttl
      → Fits32 ttl
      → accounts t ≡ accounts s
      → Ends
          (Settled k s (H.now t) (managed.metadata.creation_timestamp +ℤ scale ttl second))
          (Failed s)
          (check_ttl H managed o t)
  unfolding check_ttl
  with_ttl_effect L k managed ttl s t none key h fits u = absurd (ground (arith, h))
  with_ttl_effect L k managed ttl s t (some ttl') key h fits u =
      let e : deletion_time managed.metadata.creation_timestamp ttl'
          ≡ managed.metadata.creation_timestamp +ℤ scale ttl second =
        ap (deletion_time managed.metadata.creation_timestamp) (cc (h))
        ∙ deletion_time_exact managed.metadata.creation_timestamp ttl fits in
      rw e (expire_effect L k managed s key _ (H.now t) t u)

  without_ttl_effect :
      (managed : ManagedServiceAccount) (s t : State) (o : Option ℤ)
      → o ≡ none
      → accounts t ≡ accounts s
      → Ends
          (λ out v. (out ≡ no_requeue) × (accounts v ≡ accounts s))
          (λ _ v. accounts v ≡ accounts s)
          (check_ttl H managed o t)
  unfolding check_ttl
  without_ttl_effect managed s t none h u = Ends-ok (refl, u)
  without_ttl_effect managed s t (some ttl) h u = absurd (ground (arith, h))

  -- A run on a ManagedServiceAccount with a time to live, in 32 bits of seconds: if it succeeds, the
  -- object is deleted if the clock, once the object is read, is past its creation time and its time to
  -- live, and else nothing changes and the next run is asked for after the time that is left; if it
  -- fails, nothing changes, and the test for a negative wait is not what failed.
  pub reconcile-expiry :
      (L : IsLawful) (k : Key) (managed : ManagedServiceAccount) (ttl : ℤ) (s : State)
      → accounts s k ≡ some managed
      → key_of managed.metadata ≡ k
      → managed.spec.ttl_seconds_after_creation ≡ some ttl
      → Fits32 ttl
      → Ends
          (Settled k s (now_of k s) (managed.metadata.creation_timestamp +ℤ scale ttl second))
          (Failed s)
          (reconcile H k s)
  unfolding reconcile from_reply check_ttl
  reconcile-expiry L k managed ttl s held key has_ttl fits =
      Ends-attempt _ _ (Ends-run _ (L.reads_account k s))
        (λ x t (miss, _).
          Ends-if (is_not_found x) _ _ t (λ nf. absurd (ground (arith, miss.0 nf, held)))
            (λ _. Ends-err (λ p. cc, miss.1)))
        (λ m t (found, ran).
          let same : m ≡ managed = cc (found.0, held) in
          let clock : H.now t ≡ now_of k s = ap (λ r. H.now r.1) (sym ran) in
          let due = managed.metadata.creation_timestamp +ℤ scale ttl second in
          coe 0 1
            (i.
              Ends (Settled k s (clock i) due) (Failed s)
                (check_ttl H (sym same i) (sym same i).spec.ttl_seconds_after_creation t))
            (with_ttl_effect L k managed ttl s t _ key has_ttl fits found.1))

  -- A ManagedServiceAccount without a time to live, and a request for one that is gone, change nothing.
  pub reconcile-unlimited :
      (L : IsLawful) (k : Key) (s : State)
      → ((m : ManagedServiceAccount)
          → accounts s k ≡ some m
          → m.spec.ttl_seconds_after_creation ≡ none)
      → Ends
          (λ out t. (out ≡ no_requeue) × (accounts t ≡ accounts s))
          (λ _ t. accounts t ≡ accounts s)
          (reconcile H k s)
  unfolding reconcile from_reply check_ttl
  reconcile-unlimited L k s unlimited =
      Ends-attempt _ _ (L.reads_account k s)
        (λ x t miss.
          Ends-if (is_not_found x) _ _ t (λ _. Ends-ok (refl, miss.1)) (λ _. Ends-err miss.1))
        (λ m t found. without_ttl_effect m s t _ (unlimited m found.0) found.1)
