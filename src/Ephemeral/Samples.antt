-- ===== src/Ephemeral/Samples.antt =====
-- A hub in memory that meets the assumptions, runs over it, and the theorems at concrete data.
use managed_serviceaccount.Prelude.{
  true, Option, none, some, [], ◌≡◌, refl, ◌==◌, arith, ◌+◌, ◌*◌, if◌then◌else◌,
}
use managed_serviceaccount.Prelude.Int.{
  ℤ, pos, scale, ◌+ℤ◌, ◌-ℤ◌, ◌≤ℤ◌, +ℤ_parts, wrap64, saturate64,
}
use managed_serviceaccount.Gotime.{Time, Duration, second, after, sub}
use managed_serviceaccount.Errors.{Result, ok, err, not_found, is_not_found}
use managed_serviceaccount.Effect.{Call, next, attempted, wrapped}
use managed_serviceaccount.Effect.Triple.{Ends, Ends-ok, Ends-err}
use managed_serviceaccount.Kube.{Key, key_of, Shelf, Outcome, put_at}
use managed_serviceaccount.Api.{ManagedServiceAccount}
use managed_serviceaccount.Ephemeral.{Hub, no_requeue, deletion_time, reconcile}
use managed_serviceaccount.Ephemeral.Worker.{IsAvailable, IsQueue, Deletes, work, work-Deletes}
use managed_serviceaccount.Ephemeral.Expiry.{
  IsLawful, Settled, Failed, reconcile-expiry, reconcile-unlimited,
}

record Memory : Type 0 where
  held : Shelf ManagedServiceAccount
  clock : Time

abbrev fetch : Option ManagedServiceAccount → Call Memory ManagedServiceAccount
fetch none s = (err (not_found "not found"), s)
fetch (some m) s = (ok m, s)

abbrev memory : Hub
memory = record {
  State = Memory;
  accounts = λ s. s.held;
  get_account = λ k s. fetch (s.held k) s;
  delete_account = λ m s. (ok tt, record s { held = put_at s.held (key_of m.metadata) none });
  now = λ s. s.clock;
}

fetch_lem :
    (v : Option ManagedServiceAccount) (s : Memory)
    → Ends
        (λ m t. (v ≡ some m) × (t.held ≡ s.held))
        (λ e t. (is_not_found e ≡ true → v ≡ none) × (t.held ≡ s.held))
        (fetch v s)
fetch_lem none s = Ends-err (λ _. refl, refl)
fetch_lem (some a) s = Ends-ok (refl, refl)

memory-IsLawful : IsLawful memory
memory-IsLawful = record {
  reads_account = λ k s. fetch_lem (s.held k) s;
  deletes_account = λ m s. Ends-ok refl;
}

abbrev request : Key
request = record { namespace = "c1"; name = "m" }

-- created at 100 seconds, to live for 60 seconds
abbrev short_lived : Option ℤ → ManagedServiceAccount
short_lived ttl = record {
  metadata = record {
    namespace = "c1";
    name = "m";
    uid = "u";
    labels = [];
    owner_references = [];
    creation_timestamp = pos (100 * second);
  };
  spec = record {
    rotation = record { enabled = true; validity = pos (3600 * second) };
    ttl_seconds_after_creation = ttl;
  };
  status = record { conditions = []; expiration_timestamp = none; token_secret_ref = none };
}

abbrev at_time : Time → Option ℤ → Memory
at_time clock ttl = record {
  held = λ k.
      if k.namespace == "c1"
      then (if k.name == "m" then some (short_lived ttl) else none)
      else none;
  clock = clock;
}

run : Memory → Result Outcome × Memory
unfolding reconcile next attempted wrapped is_not_found after sub deletion_time ◌+ℤ◌ ◌-ℤ◌ scale
    wrap64 saturate64
run = reconcile memory request

run_early :
    (run (at_time (pos (130 * second)) (some (pos 60)))).0
    ≡ ok (record { requeue = true; requeue_after = pos (30 * second) })
unfolding run
run_early = refl

run_late : (run (at_time (pos (161 * second)) (some (pos 60)))).1.held request ≡ none
unfolding run
run_late = refl

reconcile-expiry_example :
    Ends
      (Settled memory request
        (at_time (pos (161 * second)) (some (pos 60)))
        (pos (161 * second))
        (pos (100 * second) +ℤ scale (pos 60) second))
      (Failed memory (at_time (pos (161 * second)) (some (pos 60))))
      (reconcile memory request (at_time (pos (161 * second)) (some (pos 60))))
reconcile-expiry_example =
    reconcile-expiry memory memory-IsLawful request (short_lived (some (pos 60))) (pos 60)
      (at_time (pos (161 * second)) (some (pos 60))) refl refl refl (omega arith)

unlimited :
    (m : ManagedServiceAccount)
    → (at_time (pos (161 * second)) none).held request ≡ some m
    → m.spec.ttl_seconds_after_creation ≡ none
unlimited m h = ground (arith, h)

reconcile-unlimited_example :
    Ends
      (λ out t. (out ≡ no_requeue) × (t.held ≡ (at_time (pos (161 * second)) none).held))
      (λ _ t. t.held ≡ (at_time (pos (161 * second)) none).held)
      (reconcile memory request (at_time (pos (161 * second)) none))
reconcile-unlimited_example =
    reconcile-unlimited memory memory-IsLawful request (at_time (pos (161 * second)) none) unlimited

fetch-available :
    (v : Option ManagedServiceAccount) (m : ManagedServiceAccount) (s : Memory)
    → v ≡ some m
    → Ends (λ n t. (n ≡ m) × (t.held ≡ s.held) × (s.clock ≤ℤ t.clock)) (λ _ _. ⊥) (fetch v s)
fetch-available none m s h = absurd (ground (arith, h))
fetch-available (some n) m s h = Ends-ok (cc (h), refl, omega arith)

memory-IsAvailable : IsAvailable memory
memory-IsAvailable = record {
  reads_account = λ k m s h. fetch-available (s.held k) m s h;
  deletes_account = λ m s. Ends-ok refl;
}

-- The next run starts one nanosecond after the wait.
abbrev wait : Duration → Memory → Memory
wait d s = record s { clock = s.clock +ℤ d +ℤ pos 1 }

wait-IsQueue : IsQueue memory wait
wait-IsQueue = record {
  keeps = λ d s. refl;
  waits = λ d s. omega (arith, +ℤ_parts (s.clock +ℤ d) (pos 1));
}

abbrev fresh : Memory
fresh = at_time (pos (130 * second)) (some (pos 60))

worked : Option Memory
unfolding work reconcile next attempted wrapped is_not_found after sub deletion_time ◌+ℤ◌ ◌-ℤ◌ scale
    wrap64 saturate64
worked = work memory wait request 2 fresh

clock_of : Option Memory → Option Time
clock_of none = none
clock_of (some s) = some s.clock

worked_clock : clock_of worked ≡ some (pos (160 * second + 1))
unfolding worked clock_of
worked_clock = refl

work-Deletes_example : Deletes memory request fresh (work memory wait request 2 fresh)
work-Deletes_example =
    work-Deletes memory memory-IsAvailable wait wait-IsQueue request (short_lived (some (pos 60)))
      (pos 60) fresh refl refl refl (omega arith) (omega arith)
