-- ===== src/Errors.antt =====
-- Go error values, as the controllers make and inspect them (github.com/pkg/errors, fmt.Errorf and
-- the reasons that k8s.io/apimachinery/pkg/api/errors tells apart).
use managed_serviceaccount.Prelude.{String, ◌<>◌, Bool, true, false, ◌≡◌, ◌⊎◌, inl, inr, refl}

pub data Error : Type 0 where
  -- an API error with the reason NotFound, AlreadyExists, or another reason; with its text
  not_found : String → Error
  already_exists : String → Error
  refused : String → Error
  -- errors.New and fmt.Errorf
  message : String → Error
  -- errors.Wrapf, and fmt.Errorf with %w at the end
  wrap : String → Error → Error

pub data Result {ℓ} (A : Type ℓ) : Type ℓ where
  ok : A → Result A
  err : Error → Result A

-- err.Error()
unfoldable pub error_text : Error → String
error_text (not_found t) = t
error_text (already_exists t) = t
error_text (refused t) = t
error_text (message t) = t
error_text (wrap t e) = t <> ": " <> error_text e

-- apierrors.IsNotFound, which looks under the wraps
unfoldable pub is_not_found : Error → Bool
is_not_found (not_found t) = true
is_not_found (wrap t e) = is_not_found e
is_not_found _ = false

-- apierrors.IsAlreadyExists
unfoldable pub is_already_exists : Error → Bool
is_already_exists (already_exists t) = true
is_already_exists (wrap t e) = is_already_exists e
is_already_exists _ = false

pub Result-cases :
    {A : Type 0} (r : Result A) → ((a : A) × (r ≡ ok a)) ⊎ ((e : Error) × (r ≡ err e))
Result-cases (ok a) = inl (a, refl)
Result-cases (err e) = inr (e, refl)
