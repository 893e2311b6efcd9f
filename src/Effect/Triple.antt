-- ===== src/Effect/Triple.antt =====
-- What a call guarantees: `Ends Q E r` says that the reply and the world of `r` satisfy `Q` if the
-- call succeeded, and `E` if it failed. One rule for each way to build a call.
use managed_serviceaccount.Prelude.{◌≡◌, refl, String, Bool, true, false, if◌then◌else◌}
use managed_serviceaccount.Errors.{Error, Result, ok, err, wrap}
use managed_serviceaccount.Effect.{Call, next, wrapped, attempted}

abbrev pub Ending : {S A : Type 0} → (A → S → Type 0) → (Error → S → Type 0) → Result A × S → Type 0
Ending Q E (ok a, s) = Q a s
Ending Q E (err e, s) = E e s

pub record Ends {S A : Type 0} (Q : A → S → Type 0) (E : Error → S → Type 0) (r : Result A × S)
    : Type 0 where
  pub holds : Ending Q E r

module _ {S A : Type 0} {Q : A → S → Type 0} {E : Error → S → Type 0} where
  pub Ends-ok : {a : A} {s : S} → Q a s → Ends Q E (ok a, s)
  Ends-ok q = record { holds = q }

  pub Ends-err : {e : Error} {s : S} → E e s → Ends Q E (err e, s)
  Ends-err q = record { holds = q }

  pub Ends-if :
      (b : Bool) (x y : Call S A) (s : S)
      → (b ≡ true → Ends Q E (x s))
      → (b ≡ false → Ends Q E (y s))
      → Ends Q E ((if b then x else y) s)
  Ends-if true x y s hx hy = hx refl
  Ends-if false x y s hx hy = hy refl

  pub Ends-weaken :
      {Q' : A → S → Type 0} {E' : Error → S → Type 0} (r : Result A × S)
      → Ends Q E r
      → ((a : A) (s : S) → Q a s → Q' a s)
      → ((e : Error) (s : S) → E e s → E' e s)
      → Ends Q' E' r
  Ends-weaken (ok a, s) h q e = record { holds = q a s h.holds }
  Ends-weaken (err x, s) h q e = record { holds = e x s h.holds }

  -- The reply itself beside what holds of it.
  pub Ends-reply : (r : Result A × S) → Ends Q E r → Ends (λ a s. Q a s × (r.0 ≡ ok a)) E r
  Ends-reply (ok a, s) h = record { holds = (h.holds, refl) }
  Ends-reply (err e, s) h = record { holds = h.holds }

  -- The reply and the world that the call left beside what holds of them.
  pub Ends-run :
      (r : Result A × S)
      → Ends Q E r
      → Ends (λ a s. Q a s × (r ≡ (ok a, s))) (λ e s. E e s × (r ≡ (err e, s))) r
  Ends-run (ok a, s) h = record { holds = (h.holds, refl) }
  Ends-run (err e, s) h = record { holds = (h.holds, refl) }

  pub Ends-fault : (r : Result A × S) → Ends Q E r → Ends Q (λ e s. E e s × (r.0 ≡ err e)) r
  Ends-fault (ok a, s) h = record { holds = h.holds }
  Ends-fault (err e, s) h = record { holds = (h.holds, refl) }

  pub Ends-wrapf :
      {E' : Error → S → Type 0} (t : String) (r : Result A × S)
      → Ends Q E r
      → ((e : Error) (s : S) → E e s → E' (wrap t e) s)
      → Ends Q E' (wrapped t r)
  unfolding wrapped
  Ends-wrapf t (ok a, s) h k = record { holds = h.holds }
  Ends-wrapf t (err e, s) h k = record { holds = k e s h.holds }

module _ {S A B : Type 0} {Q : A → S → Type 0} {E : Error → S → Type 0} where
  pub Ends-next :
      {Q' : B → S → Type 0} {E' : Error → S → Type 0} (r : Result A × S) {f : A → Call S B}
      → Ends Q E r
      → ((e : Error) (s : S) → E e s → E' e s)
      → ((a : A) (s : S) → Q a s → Ends Q' E' (f a s))
      → Ends Q' E' (next r f)
  unfolding next
  Ends-next (ok a, s) h fail go = go a s h.holds
  Ends-next (err e, s) h fail go = record { holds = fail e s h.holds }

  -- The reply of an attempt is looked into, whether it is a value or an error.
  pub Ends-attempt :
      {Q' : B → S → Type 0} {E' : Error → S → Type 0} (r : Result A × S) (f : Result A → Call S B)
      → Ends Q E r
      → ((e : Error) (s : S) → E e s → Ends Q' E' (f (err e) s))
      → ((a : A) (s : S) → Q a s → Ends Q' E' (f (ok a) s))
      → Ends Q' E' (next (attempted r) f)
  unfolding next attempted
  Ends-attempt (ok a, s) f h fail go = go a s h.holds
  Ends-attempt (err e, s) f h fail go = fail e s h.holds
