-- ===== src/DeepCopy.antt =====
-- apis/authentication/v1beta1/zz_generated.deepcopy.go: copies of objects whose parts are pointers, over
-- a store of the cells that the pointers lead to.
pub mod Cells
pub mod Independent
pub mod Lists
mod Samples
use managed_serviceaccount.Prelude.{String, ℕ, Option, none, some, List, [], ◌∷◌}
use managed_serviceaccount.Api.{ManagedServiceAccountRotation, SecretRef}
use managed_serviceaccount.DeepCopy.Cells.{
  SpecCell, StatusCell, AccountCell, Cell, accounts, Store, Copying, pure, ◌>>=◌, copy_cell,
  new_cell,
}

-- A ManagedServiceAccountList as it lies in memory: the fields of its ListMeta, one of which is a pointer,
-- and the array of its items.
pub record ListCell : Type 0 where
  pub self_link : String
  pub resource_version : String
  pub continue_token : String
  pub remaining_item_count : Option ℕ
  pub items : Option ℕ

-- if in.f != nil { *out = new(T); **out = **in }
unfoldable pub copy_pointer : Option ℕ → Copying (Option ℕ)
unfolding copy_cell
copy_pointer none h = pure none h
copy_pointer (some p) h = (copy_cell p >>= λ q. pure (some q)) h

-- ManagedServiceAccountRotation.DeepCopyInto: it has no pointers
abbrev pub copy_rotation : ManagedServiceAccountRotation → Copying ManagedServiceAccountRotation
copy_rotation r = pure r

-- ManagedServiceAccountSpec.DeepCopyInto
unfoldable pub copy_spec : SpecCell → Copying SpecCell
unfolding copy_pointer
copy_spec spec = do
  rotation ← copy_rotation spec.rotation
  ttl ← copy_pointer spec.ttl_seconds_after_creation
  pure (record { rotation = rotation; ttl_seconds_after_creation = ttl })

-- ManagedServiceAccountStatus.DeepCopyInto
unfoldable pub copy_status : StatusCell → Copying StatusCell
unfolding copy_pointer
copy_status status = do
  conditions ← copy_pointer status.conditions
  expiration ← copy_pointer status.expiration_timestamp
  ref ← copy_pointer status.token_secret_ref
  pure (record {
    conditions = conditions;
    expiration_timestamp = expiration;
    token_secret_ref = ref;
  })

-- ManagedServiceAccount.DeepCopyInto
unfoldable pub copy_account : AccountCell → Copying AccountCell
unfolding copy_spec copy_status copy_cell
copy_account msa = do
  metadata ← copy_cell msa.metadata
  spec ← copy_spec msa.spec
  status ← copy_status msa.status
  pure (record { metadata = metadata; spec = spec; status = status })

-- ManagedServiceAccount.DeepCopy; none is the nil receiver
unfoldable pub deep_copy : Option AccountCell → Copying (Option AccountCell)
unfolding copy_account
deep_copy none h = pure none h
deep_copy (some msa) h = (copy_account msa >>= λ out. pure (some out)) h

-- the loop of ManagedServiceAccountList.DeepCopyInto over the items
pub copy_items : List AccountCell → Copying (List AccountCell)
unfolding copy_account
copy_items [] h = pure [] h
copy_items (msa ∷ items) h =
    (do out ← copy_account msa; rest ← copy_items items; pure (out ∷ rest)) h

-- the objects of an array
unfoldable pub items_of : Option Cell → Option (List AccountCell)
items_of (some (accounts items)) = some items
items_of _ = none

-- the new array, with the copies that the loop fills it with
unfoldable pub copy_found : Option (List AccountCell) → Copying (Option ℕ)
unfolding copy_items new_cell
copy_found none h = none
copy_found (some items) h =
    (do out ← copy_items items; q ← new_cell (accounts out); pure (some q)) h

-- if in.Items != nil; none is the nil slice
unfoldable pub copy_array : Option ℕ → Copying (Option ℕ)
unfolding copy_found items_of
copy_array none h = pure none h
copy_array (some p) h = copy_found (items_of (h.cell p)) h

-- ManagedServiceAccountList.DeepCopyInto
unfoldable pub copy_list : ListCell → Copying ListCell
unfolding copy_pointer copy_array
copy_list list = do
  remaining ← copy_pointer list.remaining_item_count
  items ← copy_array list.items
  pure (record list { remaining_item_count = remaining; items = items })

-- if in == nil { return nil }; out := new(T); in.DeepCopyInto(out); return out
abbrev unless_nil : {T : Type 0} → (T → Copying T) → Option T → Copying (Option T)
unless_nil into none h = pure none h
unless_nil into (some t) h = (into t >>= λ out. pure (some out)) h

-- SecretRef.DeepCopyInto: a name and an instant
abbrev copy_secret_ref : SecretRef → Copying SecretRef
copy_secret_ref ref = pure ref

-- DeepCopy of the list, and of the parts of an object
unfoldable pub deep_copy_list : Option ListCell → Copying (Option ListCell)
unfolding copy_list
deep_copy_list = unless_nil copy_list

unfoldable pub deep_copy_rotation :
    Option ManagedServiceAccountRotation → Copying (Option ManagedServiceAccountRotation)
deep_copy_rotation = unless_nil copy_rotation

unfoldable pub deep_copy_spec : Option SpecCell → Copying (Option SpecCell)
unfolding copy_spec
deep_copy_spec = unless_nil copy_spec

unfoldable pub deep_copy_status : Option StatusCell → Copying (Option StatusCell)
unfolding copy_status
deep_copy_status = unless_nil copy_status

unfoldable pub deep_copy_secret_ref : Option SecretRef → Copying (Option SecretRef)
deep_copy_secret_ref = unless_nil copy_secret_ref

-- DeepCopyObject, of an object and of a list; none is the nil interface
unfoldable pub deep_copy_object : Option AccountCell → Copying (Option AccountCell)
unfolding deep_copy
deep_copy_object = deep_copy

unfoldable pub deep_copy_list_object : Option ListCell → Copying (Option ListCell)
unfolding deep_copy_list
deep_copy_list_object = deep_copy_list
