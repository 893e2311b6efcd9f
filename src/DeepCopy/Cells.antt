-- ===== src/DeepCopy/Cells.antt =====
-- A store of cells, and computations on it that fail where a pointer leads nowhere.
use managed_serviceaccount.Prelude.{
  ℕ, ◌+◌, ◌<◌, eqb, Option, none, some, ◌≡◌, arith, if◌then◌else◌, List, Option-cases, inl, inr,
  true, ap, Bool-cases,
}
use managed_serviceaccount.Prelude.Int.{ℤ}
use managed_serviceaccount.Gotime.{Time}
use managed_serviceaccount.Kube.{ObjectMeta, Condition}
use managed_serviceaccount.Api.{ManagedServiceAccountRotation, SecretRef}

-- A ManagedServiceAccount as it lies in memory: a pointer is the address of a cell, and none is nil. What
-- ObjectMeta shares stands in one cell, and the array of the conditions in another.
pub record SpecCell : Type 0 where
  pub rotation : ManagedServiceAccountRotation
  pub ttl_seconds_after_creation : Option ℕ

pub record StatusCell : Type 0 where
  pub conditions : Option ℕ
  pub expiration_timestamp : Option ℕ
  pub token_secret_ref : Option ℕ

pub record AccountCell : Type 0 where
  pub metadata : ℕ
  pub spec : SpecCell
  pub status : StatusCell

pub data Cell : Type 0 where
  metadata : ObjectMeta → Cell
  int32 : ℤ → Cell
  int64 : ℤ → Cell
  conditions : List Condition → Cell
  time : Time → Cell
  secret_ref : SecretRef → Cell
  accounts : List AccountCell → Cell

-- What each address leads to, and the first address that was never given out.
pub record Store : Type 0 where
  pub cell : ℕ → Option Cell
  pub next : ℕ

-- A store after a write at an address.
abbrev pub write : ℕ → Cell → Store → Store
write p v h = record h { cell = λ q. if eqb p q then some v else h.cell q }

-- A store after a new cell was filled.
abbrev pub grown : Cell → Store → Store
grown v h = record { next = h.next + 1; cell = λ q. if eqb h.next q then some v else h.cell q }

-- A computation that answers and leaves a store, or none.
abbrev pub Copying : Type 0 → Type 0
Copying T = Store → Option (T × Store)

abbrev pub after : {T U : Type 0} → Option (T × Store) → (T → Copying U) → Option (U × Store)
after none rest = none
after (some (t, left)) rest = rest t left

infixl 2 ◌>>=◌
abbrev pub ◌>>=◌ : {T U : Type 0} → Copying T → (T → Copying U) → Copying U
◌>>=◌ first rest h = after (first h) rest

abbrev pub pure : {T : Type 0} → T → Copying T
pure t = λ h. some (t, h)

-- A new cell with what a pointer leads to; the answer is its address.
unfoldable pub copy_cell : ℕ → Copying ℕ
copy_cell p h = elim (h.cell p) [ none ↦ none | some v ↦ some (h.next, grown v h) ]

-- A new cell with a value; the answer is its address.
unfoldable pub new_cell : Cell → Copying ℕ
new_cell v h = some (h.next, grown v h)

-- No cell stands at an address that was not given out.
abbrev pub IsBounded : Store → Type 0
IsBounded h = (p : ℕ) (v : Cell) → h.cell p ≡ some v → p < h.next

-- Every cell of a store is the same in another.
abbrev pub Keeps : Store → Store → Type 0
Keeps h g = (p : ℕ) (v : Cell) → h.cell p ≡ some v → g.cell p ≡ some v

pub Keeps-trans : (h g k : Store) → Keeps h g → Keeps g k → Keeps h k
Keeps-trans h g k a b p v e = b p v (a p v e)

-- What a copy of a cell is.
pub record Copies (h : Store) (v : Cell) (q : ℕ) (g : Store) : Type 0 where
  pub bounded : IsBounded g
  pub keeps : Keeps h g
  pub filled : g.cell q ≡ some v
  pub is_fresh : h.cell q ≡ none

pub grown-Copies : (h : Store) (v : Cell) → IsBounded h → Copies h v h.next (grown v h)
grown-Copies h v b = record {
  bounded = λ p w e. ground (arith, e, b p w);
  keeps = λ p w e. ground (arith, e, b p w e);
  filled = ground arith;
  is_fresh = elim (Option-cases (h.cell h.next)) [
    | inl free ↦ free
    | inr (w, taken) ↦ absurd (omega (arith, b h.next w taken))
  ];
}

-- An address that is free in a later store was free before.
pub free_before : (h g : Store) (q : ℕ) → Keeps h g → g.cell q ≡ none → h.cell q ≡ none
free_before h g q keeps free = elim (Option-cases (h.cell q)) [
  | inl e ↦ e
  | inr (w, e) ↦ absurd (ground (arith, keeps q w e, free))
]

eqb_eq : (p q : ℕ) → eqb p q ≡ true → p ≡ q
eqb_eq p q h = ground arith

-- A write at an address that was free in an earlier store keeps the cells of that store.
pub write-Keeps :
    (h g : Store) (p : ℕ) (x : Cell) → Keeps h g → h.cell p ≡ none → Keeps h (write p x g)
write-Keeps h g p x keeps free q v e = elim (Bool-cases (eqb p q)) [
  | inl same ↦ absurd (ground (arith, same, e, free, ap h.cell (eqb_eq p q same)))
  | inr other ↦ rw other (keeps q v e)
]

pub copy_cell_lem :
    (h : Store) (p : ℕ) (v : Cell) → h.cell p ≡ some v → copy_cell p h ≡ some (h.next, grown v h)
unfolding copy_cell
copy_cell_lem h p v e =
    ap (λ (o : Option Cell). elim o [ none ↦ none | some w ↦ some (h.next, grown w h) ]) e

pub >>=-returns :
    {T U : Type 0} (first : Copying T) (rest : T → Copying U) (h g : Store) (t : T)
    → first h ≡ some (t, g)
    → (first >>= rest) h ≡ rest t g
>>=-returns first rest h g t e = ap (λ o. after o rest) e
