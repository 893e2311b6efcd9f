-- ===== src/Gotext/Trim.antt =====
-- Laws of strings.TrimSpace.
use Prim.Native.Char.{Char, code}
use Prim.Native.String.{String, [], ◌∷◌}
use managed_serviceaccount.Prelude.{true, false, ◌≡◌, refl, ◌∙◌, ap, Bool-cases, inl, inr}
use managed_serviceaccount.Gotext.{is_space, trim_left, trim_right, onto, trim_space}

-- A text of spaces only.
abbrev pub IsBlank : String → Type 0
IsBlank [] = Unit
IsBlank (c ∷ s) = (is_space (code c) ≡ true) × IsBlank s

-- A text with no space at its front.
abbrev pub StartsTight : String → Type 0
StartsTight [] = Unit
StartsTight (c ∷ s) = is_space (code c) ≡ false

-- A text with no space at its end.
abbrev pub EndsTight : String → Type 0
EndsTight [] = Unit
EndsTight (c ∷ []) = is_space (code c) ≡ false
EndsTight (c ∷ d ∷ s) = EndsTight (d ∷ s)

onto-EndsTight : (c : Char) (s : String) → EndsTight s → EndsTight (onto c s)
onto-EndsTight c [] h = elim (Bool-cases (is_space (code c))) [
  | inl space ↦ rw space tt
  | inr ink ↦ rw ink ink
]
onto-EndsTight c (d ∷ s) h = h

trim_right-EndsTight : (s : String) → EndsTight (trim_right s)
unfolding trim_right
trim_right-EndsTight [] = tt
trim_right-EndsTight (c ∷ s) = onto-EndsTight c (trim_right s) (trim_right-EndsTight s)

trim_left-StartsTight : (s : String) → StartsTight (trim_left s)
unfolding trim_left
trim_left-StartsTight [] = tt
trim_left-StartsTight (c ∷ s) = elim (Bool-cases (is_space (code c))) [
  | inl space ↦ rw space (trim_left-StartsTight s)
  | inr ink ↦ rw ink ink
]

EndsTight-tail : (c : Char) (s : String) → EndsTight (c ∷ s) → EndsTight s
EndsTight-tail c [] h = tt
EndsTight-tail c (d ∷ s) h = h

trim_left-EndsTight : (s : String) → EndsTight s → EndsTight (trim_left s)
unfolding trim_left
trim_left-EndsTight [] h = tt
trim_left-EndsTight (c ∷ s) h = elim (Bool-cases (is_space (code c))) [
  | inl space ↦ rw space (trim_left-EndsTight s (EndsTight-tail c s h))
  | inr ink ↦ rw ink h
]

-- A trimmed text has no space at either end.
pub trim_space-tight : (s : String) → StartsTight (trim_space s) × EndsTight (trim_space s)
unfolding trim_space
trim_space-tight s = (
  trim_left-StartsTight (trim_right s),
  trim_left-EndsTight (trim_right s) (trim_right-EndsTight s),
)

trim_right-blank : (s : String) → IsBlank s → trim_right s ≡ []
unfolding trim_right
trim_right-blank [] h = refl
trim_right-blank (c ∷ s) h = rw (trim_right-blank s h.1) (rw h.0 refl)

pub trim_space-blank : (s : String) → IsBlank s → trim_space s ≡ []
unfolding trim_space trim_left
trim_space-blank s h = rw (trim_right-blank s h) refl

trim_right_id : (s : String) → EndsTight s → trim_right s ≡ s
unfolding trim_right
trim_right_id [] h = refl
trim_right_id (c ∷ []) h = rw h refl
trim_right_id (c ∷ d ∷ s) h = rw (trim_right_id (d ∷ s) h) refl

trim_left_id : (s : String) → StartsTight s → trim_left s ≡ s
unfolding trim_left
trim_left_id [] h = refl
trim_left_id (c ∷ s) h = rw h refl

-- To trim again changes nothing.
pub trim_space_idem : (s : String) → trim_space (trim_space s) ≡ trim_space s
unfolding trim_space
trim_space_idem s =
    let (front, back) = trim_space-tight s in
    ap trim_left (trim_right_id (trim_space s) back) ∙ trim_left_id (trim_space s) front
