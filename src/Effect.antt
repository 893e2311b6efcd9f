-- ===== src/Effect.antt =====
-- Calls that read and write a world and may fail. What was written before a failure stays written,
-- so the world comes back beside the error too.
pub mod Triple
use managed_serviceaccount.Prelude.{String}
use managed_serviceaccount.Errors.{Error, Result, ok, err, wrap}

abbrev pub Call : Type 0 → Type 0 → Type 0
Call S A = S → Result A × S

module _ {S A : Type 0} where
  abbrev pub pure : A → Call S A
  pure a s = (ok a, s)

  abbrev pub raise : Error → Call S A
  raise e s = (err e, s)

  -- a pure step that may fail
  abbrev pub lift : Result A → Call S A
  lift r s = (r, s)

  -- the reply as a value, for code that looks into the error
  unfoldable pub attempted : Result A × S → Result (Result A) × S
  attempted r = (ok r.0, r.1)

  abbrev pub attempt : Call S A → Call S (Result A)
  attempt m s = attempted (m s)

  unfoldable pub wrapped : String → Result A × S → Result A × S
  wrapped t (ok a, s) = (ok a, s)
  wrapped t (err e, s) = (err (wrap t e), s)

  -- if err != nil { return errors.Wrapf(err, t) }
  abbrev pub wrapf : String → Call S A → Call S A
  wrapf t m s = wrapped t (m s)

  unfoldable pub next : {B : Type 0} → Result A × S → (A → Call S B) → Result B × S
  next (ok a, s) f = f a s
  next (err e, s) f = (err e, s)

module _ {S A B : Type 0} where
  infixl 5 ◌>>=◌ ◌>>◌
  abbrev pub ◌>>=◌ : Call S A → (A → Call S B) → Call S B
  ◌>>=◌ m f s = next (m s) f

  abbrev pub ◌>>◌ : Call S A → Call S B → Call S B
  ◌>>◌ m n s = next (m s) (λ _. n)
