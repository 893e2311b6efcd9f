-- ===== src/Clientset/Steps.antt =====
-- Chains of steps that may fail: when they succeed, and with what.
use managed_serviceaccount.Prelude.{◌≡◌, ◌↔◌, refl, ◌∙◌, sym, ap, arith}
use managed_serviceaccount.Errors.{Result, ok, err}
use managed_serviceaccount.Clientset.Rest.{◌>>=◌}

pub >>=-ok :
    {A B : Type 0} (m : Result A) (f : A → Result B) (b : B)
    → (m >>= f) ≡ ok b
    → (a : A) × (m ≡ ok a) × (f a ≡ ok b)
>>=-ok (ok a) f b h = (a, refl, h)
>>=-ok (err e) f b h = absurd (ground (arith, h))

pub ok->>= :
    {A B : Type 0} (m : Result A) (f : A → Result B) (a : A) (b : B)
    → m ≡ ok a
    → f a ≡ ok b
    → (m >>= f) ≡ ok b
ok->>= m f a b e h = rw e h

-- Three steps of which none looks at the others.
pub three_iff :
    {A B C X : Type 0} (a : Result A) (b : Result B) (c : Result C) (made : A → B → C → X) (x : X)
    → ((do i ← a; j ← b; k ← c; ok (made i j k)) ≡ ok x)
      ↔ ((i : A) × (j : B) × (k : C) × (a ≡ ok i) × (b ≡ ok j) × (c ≡ ok k) × (made i j k ≡ x))
three_iff (ok i) (ok j) (ok k) made x =
    (λ h. (i, j, k, refl, refl, refl, cc (h)), λ (i', j', k', e, e', e'', h). cc (e, e', e'', h))
three_iff (err e) b c made x = (λ h. absurd (ground (arith, h)), λ h. absurd (ground (arith, h.3)))
three_iff (ok i) (err e) c made x =
    (λ h. absurd (ground (arith, h)), λ h. absurd (ground (arith, h.4)))
three_iff (ok i) (ok j) (err e) made x =
    (λ h. absurd (ground (arith, h)), λ h. absurd (ground (arith, h.5)))

-- A step that only puts its result into a record.
pub one :
    {A X : Type 0} (r : Result A) (made : A → X) (part : X → A) (x : X)
    → ((a : A) → part (made a) ≡ a)
    → (do a ← r; ok (made a)) ≡ ok x
    → r ≡ ok (part x)
one (ok a) made part x back h = let e : made a ≡ x = cc (h) in ap ok (sym (back a) ∙ ap part e)
one (err e) made part x back h = absurd (ground (arith, h))
