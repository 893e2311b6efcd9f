-- ===== src/DeepCopy/Samples.antt =====
-- An object in a store, and its copy.
use managed_serviceaccount.Prelude.{
  ℕ, Has, none, some, [], ◌∷◌, eqb, ◌≡◌, true, refl, arith, if◌then◌else◌,
}
use managed_serviceaccount.Prelude.Int.{pos}
use managed_serviceaccount.Kube.{ObjectMeta}
use managed_serviceaccount.Api.{ManagedServiceAccount, ManagedServiceAccountRotation}
use managed_serviceaccount.DeepCopy.{
  ListCell, deep_copy, deep_copy_status, deep_copy_list, deep_copy_list_object,
}
use managed_serviceaccount.DeepCopy.Cells.{
  AccountCell, Cell, metadata, int32, int64, accounts, Store, write, IsBounded,
}
use managed_serviceaccount.DeepCopy.Lists.{
  AccountList, ShowsList, list_pointers, copy_list_independent,
}
use managed_serviceaccount.DeepCopy.Independent.{Shows, pointers, deep_copy_independent}

abbrev meta : ObjectMeta
meta = record {
  namespace = "c1";
  name = "m";
  uid = "u";
  labels = [];
  owner_references = [];
  creation_timestamp = pos 0;
}

abbrev rotation : ManagedServiceAccountRotation
rotation = record { enabled = true; validity = pos 3600 }

abbrev original : AccountCell
original = record {
  metadata = 0;
  spec = record { rotation = rotation; ttl_seconds_after_creation = some 1 };
  status = record { conditions = none; expiration_timestamp = none; token_secret_ref = none };
}

abbrev account : ManagedServiceAccount
account = record {
  metadata = meta;
  spec = record { rotation = rotation; ttl_seconds_after_creation = some (pos 60) };
  status = record { conditions = []; expiration_timestamp = none; token_secret_ref = none };
}

abbrev store : Store
store = record {
  next = 2;
  cell = λ p.
      if eqb p 0 then some (metadata meta) else if eqb p 1 then some (int32 (pos 60)) else none;
}

store-IsBounded : IsBounded store
store-IsBounded p v h = ground (arith, h)

original-Shows : Shows store original account
original-Shows = record {
  metadata_shown = refl;
  rotation_same = refl;
  ttl_shown = refl;
  condition_array = none;
  conditions_same = refl;
  conditions_shown = tt;
  expiration_shown = tt;
  ref_shown = tt;
}

deep_copy_independent_example :
    (out : AccountCell) × (after : Store) × (deep_copy (some original) store
      ≡ some (some out, after))
    × Shows after out account
    × Shows after original account
    × ((p : ℕ) (x : Cell) → Has p (pointers out) → Shows (write p x after) original account)
deep_copy_independent_example =
    deep_copy_independent store original account store-IsBounded original-Shows

-- two times the same object, with five to come
abbrev listed_store : Store
listed_store = record {
  next = 4;
  cell = λ p.
      if eqb p 0
      then some (metadata meta)
      else if eqb p 1
      then some (int32 (pos 60))
      else if eqb p 2
      then some (int64 (pos 5))
      else if eqb p 3
      then some (accounts (original ∷ original ∷ []))
      else none;
}

abbrev list_cell : ListCell
list_cell = record {
  self_link = "";
  resource_version = "7";
  continue_token = "next";
  remaining_item_count = some 2;
  items = some 3;
}

abbrev account_list : AccountList
account_list = record {
  self_link = "";
  resource_version = "7";
  continue_token = "next";
  remaining_item_count = some (pos 5);
  items = some (account ∷ account ∷ []);
}

listed_store-IsBounded : IsBounded listed_store
listed_store-IsBounded p v h = ground (arith, h)

listed-Shows : Shows listed_store original account
listed-Shows = record {
  metadata_shown = refl;
  rotation_same = refl;
  ttl_shown = refl;
  condition_array = none;
  conditions_same = refl;
  conditions_shown = tt;
  expiration_shown = tt;
  ref_shown = tt;
}

list_cell-ShowsList : ShowsList listed_store list_cell account_list
list_cell-ShowsList = record {
  self_link_same = refl;
  resource_version_same = refl;
  continue_same = refl;
  remaining_shown = refl;
  items_shown = (original ∷ original ∷ [], refl, (listed-Shows, (listed-Shows, tt)));
}

copy_list_independent_example :
    (out : ListCell) × (after : Store) × (deep_copy_list (some list_cell) listed_store
      ≡ some (some out, after))
    × ShowsList after out account_list
    × ShowsList after list_cell account_list
    × ((p : ℕ) (x : Cell)
        → Has p (list_pointers after out)
        → ShowsList (write p x after) list_cell account_list)
copy_list_independent_example =
    copy_list_independent listed_store list_cell account_list listed_store-IsBounded
      list_cell-ShowsList

nil_copied : deep_copy_list_object none store ≡ some (none, store)
unfolding deep_copy_list_object
nil_copied = refl

status_copied : deep_copy_status (some original.status) store ≡ some (some original.status, store)
unfolding deep_copy_status
status_copied = refl
