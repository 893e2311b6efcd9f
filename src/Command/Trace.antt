-- ===== src/Command/Trace.antt =====
-- What a start-up has set going when it ends: all of a plan if it succeeds, and a first part of it if not.
use mathlib.Core.List.{append_assoc, append-nil}
use managed_serviceaccount.Prelude.{
  String, Bool, true, false, List, [], ◌∷◌, ◌++◌, ◌≡◌, refl, ◌∙◌, sym, ap, if◌then◌else◌,
}
use managed_serviceaccount.Errors.{Result, ok, err}
use managed_serviceaccount.Effect.{Call, next}
use managed_serviceaccount.Effect.Triple.{Ends, Ends-ok, Ends-err, Ends-weaken}
use managed_serviceaccount.Command.{required, begin}

module _ {A : Type 0} where
  -- A first part of a plan was set going after `s`.
  pub record IsPart (plan s t : List A) : Type 0 where
    pub performed : List A
    pub left : List A
    pub parts : plan ≡ performed ++ left
    pub trace : t ≡ s ++ performed

  abbrev pub Performs : {B : Type 0} → List A → List A → Result B × List A → Type 0
  Performs plan s r = Ends (λ _ t. t ≡ s ++ plan) (λ _ t. IsPart plan s t) r

  pub nothing : (plan s t : List A) → t ≡ s → IsPart plan s t
  nothing plan s t e = record {
    performed = [];
    left = plan;
    parts = refl;
    trace = e ∙ sym (append-nil s);
  }

  pub required-Performs :
      {B : Type 0} (problem : String) (r : Result B) (s : List A)
      → Performs [] s (required problem r s)
  unfolding required
  required-Performs problem (ok b) s = Ends-ok (sym (append-nil s))
  required-Performs problem (err e) s = Ends-err (nothing [] s s refl)

  pub begin-Performs : (a : A) (s : List A) → Performs (a ∷ []) s (begin a s)
  unfolding begin
  begin-Performs a s = Ends-ok refl

  pub IsPart-before : (p q s t : List A) → IsPart p s t → IsPart (p ++ q) s t
  IsPart-before p q s t h = record {
    performed = h.performed;
    left = h.left ++ q;
    parts = ap (λ x. x ++ q) h.parts ∙ append_assoc h.performed h.left q;
    trace = h.trace;
  }

  pub IsPart-after : (p q s t u : List A) → t ≡ s ++ p → IsPart q t u → IsPart (p ++ q) s u
  IsPart-after p q s t u e h = record {
    performed = p ++ h.performed;
    left = h.left;
    parts = ap (λ x. p ++ x) h.parts ∙ sym (append_assoc p h.performed h.left);
    trace = h.trace ∙ ap (λ x. x ++ h.performed) e ∙ append_assoc s p h.performed;
  }

  pub then-Performs :
      {B C : Type 0} (p q s : List A) (r : Result B × List A) {f : B → Call (List A) C}
      → Performs p s r
      → ((b : B) (t : List A) → Performs q t (f b t))
      → Performs (p ++ q) s (next r f)
  then-Performs p q s (ok b, t) {f} h k =
      unfold next in
      Ends-weaken (f b t) (k b t) (λ _ u e. e ∙ ap (λ x. x ++ q) h.holds ∙ append_assoc s p q)
        (λ _ u part. IsPart-after p q s t u h.holds part)
  then-Performs p q s (err e, t) h k = unfold next in Ends-err (IsPart-before p q s t h.holds)

  pub pure-Performs : {B : Type 0} (b : B) (s : List A) → Performs [] s (ok b, s)
  pure-Performs b s = Ends-ok (sym (append-nil s))

  -- A step that is taken under a condition.
  pub if-Performs :
      (b : Bool) (p s : List A) (x y : Call (List A) (Unit {0}))
      → Performs p s (x s)
      → Performs [] s (y s)
      → Performs (if b then p else []) s ((if b then x else y) s)
  if-Performs true p s x y hx hy = hx
  if-Performs false p s x y hx hy = hy

  -- One step that may fail, and then something that is set going.
  pub step-Performs :
      {B : Type 0} (problem : String) (r : Result B) (a : A) (s : List A)
      → Performs (a ∷ []) s (next (required problem r s) (λ _. begin a))
  step-Performs problem r a s =
      then-Performs [] (a ∷ []) s _ (required-Performs problem r s) (λ _ t. begin-Performs a t)

  pub required-keeps :
      {B : Type 0} (problem : String) (r : Result B) (s : List A)
      → Ends (λ b t. (r ≡ ok b) × (t ≡ s)) (λ _ t. t ≡ s) (required problem r s)
  unfolding required
  required-keeps problem (ok b) s = Ends-ok (refl, refl)
  required-keeps problem (err e) s = Ends-err refl
