-- ===== src/Prelude/Dict.antt =====
-- Go maps with string keys as association lists; a nil map is the empty list.
use managed_serviceaccount.Prelude.Tests.{if◌then◌else◌}
use Prim.Native.String.{String}
use mathlib.Core.Path.{◌≡◌, refl}
use mathlib.Core.Option.{Option, none, some}
use mathlib.Core.List.{List, [], ◌∷◌}
use native.Mathlib.Omega.{arith}
use text.Mathlib.Text.{◌==◌}
use text.Mathlib.TextEquality.{eq_iff}

abbrev pub Dict {ℓ} : Type ℓ → Type ℓ
Dict V = List (String × V)

module _ {ℓ} {V : Type ℓ} where
  unfoldable pub lookup : String → Dict V → Option V
  lookup name [] = none
  lookup name ((label, content) ∷ entries) =
      if label == name then some content else lookup name entries

  -- m[name] = new
  unfoldable pub insert : String → V → Dict V → Dict V
  insert name new [] = (name, new) ∷ []
  insert name new ((label, content) ∷ entries) =
      let later = insert name new entries in
      if label == name then (name, new) ∷ entries else (label, content) ∷ later

  pub lookup-insert :
      (written read : String) (new : V) (entries : Dict V)
      → lookup read (insert written new entries)
        ≡ (if written == read then some new else lookup read entries)
  unfolding lookup insert
  lookup-insert written read new [] = refl
  lookup-insert written read new ((label, content) ∷ entries) =
      let later = lookup-insert written read new entries in
      ground (arith, later, eq_iff label written, eq_iff label read, eq_iff written read)

-- m[k] of a map[string]string: a missing key reads as "".
unfoldable pub value_at : String → Dict String → String
unfolding lookup
value_at k m = elim (lookup k m) [ none ↦ "" | some v ↦ v ]

pub value_at-insert :
    (k j v : String) (m : Dict String)
    → value_at j (insert k v m) ≡ (if k == j then v else value_at j m)
unfolding value_at
value_at-insert k j v m = ground (arith, lookup-insert k j v m)
