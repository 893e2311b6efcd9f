-- ===== src/Kube.antt =====
-- The Kubernetes objects, with the fields that the controllers read or write.
use managed_serviceaccount.Prelude.{ℕ, String, Bool, true, false, ◌≢◌, ◌&&◌, ◌==◌, Option, List}
use managed_serviceaccount.Prelude.{◌≡◌, eq_iff, arith, Bool-cases, inl, inr, if◌then◌else◌}
use managed_serviceaccount.Prelude.Dict.{Dict}
use mathlib.Core.Path.{fun_ext}
use managed_serviceaccount.Gotime.{Time, Duration}

-- []byte, and a string that the code walks through
abbrev pub Bytes : Type 0
Bytes = List ℕ

pub differ_ne : (s t : String) → (s == t) ≡ false → s ≢ t
differ_ne s t h e = ground (arith, eq_iff s t)

-- Whether two texts are equal, with the proof.
unfoldable pub String-discrete : Discrete String
String-discrete s t = elim (Bool-cases (s == t)) [
  | inl same ↦ yes ((eq_iff s t).0 same)
  | inr differ ↦ no (differ_ne s t differ)
]

-- types.NamespacedName, and reconcile.Request
pub record Key : Type 0 where
  pub namespace : String
  pub name : String

abbrev pub same_key : Key → Key → Bool
same_key a b = a.namespace == b.namespace && a.name == b.name

-- Two keys that compare equal are equal.
pub same_key_eq : (a b : Key) → same_key a b ≡ true → a ≡ b
same_key_eq a b h = ground (arith, eq_iff a.namespace b.namespace, eq_iff a.name b.name)

pub same_key_refl : (a : Key) → same_key a a ≡ true
same_key_refl a = ground (arith, eq_iff a.namespace a.namespace, eq_iff a.name a.name)

pub record OwnerReference : Type 0 where
  pub api_version : String
  pub kind : String
  pub name : String
  pub uid : String
  pub is_controller : Bool

pub record ObjectMeta : Type 0 where
  pub namespace : String
  pub name : String
  pub uid : String
  pub labels : Dict String
  pub owner_references : List OwnerReference
  pub creation_timestamp : Time

abbrev pub key_of : ObjectMeta → Key
key_of m = record { namespace = m.namespace; name = m.name }

pub record Secret : Type 0 where
  pub metadata : ObjectMeta
  pub secret_type : String
  pub content : Dict Bytes

pub record ServiceAccount : Type 0 where
  pub metadata : ObjectMeta

pub record Condition : Type 0 where
  pub condition_type : String
  pub status : String
  pub reason : String
  pub text : String
  -- none is the zero time
  pub last_transition_time : Option Time

-- reconcile.Result
pub record Outcome : Type 0 where
  pub requeue : Bool
  pub requeue_after : Duration

-- A collection of stored objects, by key.
abbrev pub Shelf : Type 0 → Type 0
Shelf A = Key → Option A

-- The collection after a write of one key.
abbrev pub put_at {ℓ} : {A : Type ℓ} → (Key → A) → Key → A → Key → A
put_at f k v j = if same_key k j then v else f j

-- A write of the value that is there changes nothing.
pub put_at_self {ℓ} : {A : Type ℓ} (f : Key → A) (k : Key) → put_at f k (f k) ≡ f
put_at_self f k = fun_ext (λ j. elim (Bool-cases (same_key k j)) [
  | inl same ↦ rw (same, same_key_eq k j same)
  | inr differ ↦ rw differ
])

-- A read of the key that was written.
pub put_at_found {ℓ} : {A : Type ℓ} (f : Key → A) (k : Key) (v : A) → put_at f k v k ≡ v
put_at_found f k v = rw (same_key_refl k)
