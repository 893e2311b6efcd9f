-- ===== src/Profile/Cred/Compare.antt =====
-- What dataEqual and secretNeedsUpdate decide.
use managed_serviceaccount.Prelude.{
  ◌≤◌, ◌<◌, String, ◌==◌, eq_iff, true, Option, none, some, [], ◌∷◌, ◌≡◌, ◌≢◌, ◌↔◌, inl, inr, refl,
  ◌∙◌, sym, ap, arith, if◌then◌else◌, Option-cases,
}
use managed_serviceaccount.Prelude.Dict.{Dict, lookup}
use managed_serviceaccount.Kube.{Bytes}
use managed_serviceaccount.Profile.Cred.{length, same_bytes, same_at, all_in, data_equal}

same_bytes_eq : (s t : Bytes) → same_bytes s t ≡ true → s ≡ t
same_bytes_eq [] [] h = refl
same_bytes_eq [] (d ∷ t) h = cc (h)
same_bytes_eq (c ∷ s) [] h = cc (h)
same_bytes_eq (c ∷ s) (d ∷ t) h = ground (arith, same_bytes_eq s t)

same_bytes_refl : (s : Bytes) → same_bytes s s ≡ true
same_bytes_refl [] = refl
same_bytes_refl (c ∷ s) = ground (arith, same_bytes_refl s)

-- Each key stands once, as in a Go map.
abbrev pub NodupKeys : Dict Bytes → Type 0
NodupKeys [] = Unit
NodupKeys ((k, v) ∷ m) = (lookup k m ≡ none) × NodupKeys m

lookup-cons :
    (j k : String) (v : Bytes) (m : Dict Bytes)
    → lookup j ((k, v) ∷ m) ≡ (if k == j then some v else lookup j m)
unfolding lookup
lookup-cons j k v m = refl

without : String → Dict Bytes → Dict Bytes
without k [] = []
without k ((j, v) ∷ m) = let rest = without k m in if j == k then rest else (j, v) ∷ rest

lookup-without :
    (k j : String) (m : Dict Bytes) → lookup j (without k m) ≡ (if k == j then none else lookup j m)
unfolding lookup without
lookup-without k j [] = ground arith
lookup-without k j ((i, v) ∷ m) =
    ground (arith, lookup-without k j m, eq_iff i k, eq_iff i j, eq_iff k j)

length-without-le : (k : String) (m : Dict Bytes) → length (without k m) ≤ length m
unfolding without
length-without-le k [] = omega arith
length-without-le k ((j, v) ∷ m) = ground (arith, length-without-le k m)

length-without : (k : String) (m : Dict Bytes) → lookup k m ≢ none → length (without k m) < length m
unfolding without lookup
length-without k [] h = absurd (h refl)
length-without k ((j, v) ∷ m) h = ground (arith, length-without-le k m, length-without k m, h)

all_in-without :
    (k : String) (a b : Dict Bytes)
    → lookup k a ≡ none
    → all_in a b ≡ true
    → all_in a (without k b) ≡ true
unfolding all_in lookup
all_in-without k [] b fresh h = refl
all_in-without k ((j, v) ∷ a) b fresh h =
    ground (arith, lookup-without k j b, all_in-without k a b, eq_iff j k, eq_iff k j)

all_in-cons :
    (k : String) (v : Bytes) (a b : Dict Bytes)
    → all_in ((k, v) ∷ a) b ≡ true
    → (lookup k b ≡ some v) × (all_in a b ≡ true)
unfolding all_in
all_in-cons k v a b h = (found (lookup k b) (ground arith), ground arith)
  where
    found : (o : Option Bytes) → same_at o v ≡ true → o ≡ some v
    found none e = cc (e)
    found (some w) e = ap some (sym (same_bytes_eq v w e))

all_in-cons_of :
    (k : String) (v : Bytes) (a b : Dict Bytes)
    → lookup k b ≡ some v
    → all_in a b ≡ true
    → all_in ((k, v) ∷ a) b ≡ true
unfolding all_in
all_in-cons_of k v a b e h = rw (e, same_bytes_refl v) h

length_le_of_all_in : (a b : Dict Bytes) → NodupKeys a → all_in a b ≡ true → length a ≤ length b
length_le_of_all_in [] b u h = omega arith
length_le_of_all_in ((k, v) ∷ a) b u h =
    let (e, rest) = all_in-cons k v a b h in
    omega (
      arith,
      length_le_of_all_in a (without k b) u.1 (all_in-without k a b u.0 rest),
      length-without k b (λ n. ground (arith, e, n)),
    )

-- Two maps that read alike at every key.
abbrev pub SameData : Dict Bytes → Dict Bytes → Type 0
SameData a b = (k : String) → lookup k a ≡ lookup k b

all_in-lookup :
    (a b : Dict Bytes) (k : String) (v : Bytes)
    → all_in a b ≡ true
    → lookup k a ≡ some v
    → lookup k b ≡ some v
all_in-lookup [] b k v h e = unfold lookup in absurd (ground (arith, e))
all_in-lookup ((j, w) ∷ a) b k v h e =
    let (head, rest) = all_in-cons j w a b h in
    ground (arith, head, rest, eq_iff j k, lookup-cons k j w a, all_in-lookup a b k v rest)

all_in_of_SameData :
    (a b : Dict Bytes)
    → NodupKeys a
    → ((k : String) (v : Bytes) → lookup k a ≡ some v → lookup k b ≡ some v)
    → all_in a b ≡ true
all_in_of_SameData [] b u h = unfold all_in in refl
all_in_of_SameData ((j, w) ∷ a) b u h =
    all_in-cons_of j w a b (h j w (ground (arith, lookup-cons j j w a, eq_iff j j))) (
      all_in_of_SameData a b u.1
        (λ k v e. h k v (ground (arith, e, u.0, lookup-cons k j w a, eq_iff j k))))

data_equal_parts :
    (a b : Dict Bytes) → data_equal a b ≡ true → (length a ≡ length b) × (all_in a b ≡ true)
unfolding data_equal
data_equal_parts a b h = ground arith

data_equal_of : (a b : Dict Bytes) → length a ≡ length b → all_in a b ≡ true → data_equal a b ≡ true
unfolding data_equal
data_equal_of a b e h = ground arith

SameData-of_data_equal : (a b : Dict Bytes) → NodupKeys a → data_equal a b ≡ true → SameData a b
SameData-of_data_equal a b u h k =
    let (len, inside) = data_equal_parts a b h in
    elim (Option-cases (lookup k a)) [
      | inr (v, e) ↦ e ∙ sym (all_in-lookup a b k v inside e)
      | inl n ↦ elim (Option-cases (lookup k b)) [
        | inl m ↦ n ∙ sym m
        | inr (w, e) ↦ absurd (
            omega
              (arith, length_le_of_all_in ((k, w) ∷ a) b (n, u) (all_in-cons_of k w a b e inside)))
      ]
    ]

-- For two maps with each key once, dataEqual decides whether they hold the same data, whatever the
-- order of the entries.
pub data_equal_iff :
    (a b : Dict Bytes) → NodupKeys a → NodupKeys b → (data_equal a b ≡ true) ↔ SameData a b
data_equal_iff a b u u' = (
  λ h. SameData-of_data_equal a b u h,
  λ same.
      let there = all_in_of_SameData a b u (λ k v e. sym (same k) ∙ e) in
      let back = all_in_of_SameData b a u' (λ k v e. same k ∙ e) in
      data_equal_of a b
        (omega (arith, length_le_of_all_in a b u there, length_le_of_all_in b a u' back)) there,
)
