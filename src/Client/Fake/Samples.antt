-- ===== src/Client/Fake/Samples.antt =====
-- A fake that records one action and answers with two accounts, and the theorem at a deletion of a
-- collection.
use managed_serviceaccount.Prelude.{String, ◌==◌, Option, none, some, [], ◌∷◌, ◌≡◌, refl}
use managed_serviceaccount.Prelude.Dict.{value_at, lookup}
use managed_serviceaccount.Errors.{ok}
use managed_serviceaccount.Profile.Memory.{account}
use managed_serviceaccount.Client.Samples.{rest, builder, options}
use managed_serviceaccount.Client.Requests.{Method, delete_collection}
use managed_serviceaccount.Client.Fake.{
  an_account, a_list, accounts, Testing, replied, get, list, update_status,
}
use managed_serviceaccount.Client.Fake.Agrees.{Recorded, IsRecorder, Agrees, fake-Agrees}

-- The state is the last action; a selector is a value of the label team.
abbrev testing : Testing (Option Recorded)
testing = record {
  Action = Recorded;
  Options = Unit;
  Meta = Unit;
  Selector = String;
  Watcher = Unit;
  new_get_action =
      λ r ns _. record { verb = "get"; resource = r; sub_resource = ""; namespace = ns };
  new_list_action =
      λ r _ ns _. record { verb = "list"; resource = r; sub_resource = ""; namespace = ns };
  new_watch_action =
      λ r ns _. record { verb = "watch"; resource = r; sub_resource = ""; namespace = ns };
  new_create_action =
      λ r ns _. record { verb = "create"; resource = r; sub_resource = ""; namespace = ns };
  new_update_action =
      λ r ns _. record { verb = "update"; resource = r; sub_resource = ""; namespace = ns };
  new_update_subresource_action =
      λ r sub ns _. record { verb = "update"; resource = r; sub_resource = sub; namespace = ns };
  new_delete_action_with_options =
      λ r ns _ _. record { verb = "delete"; resource = r; sub_resource = ""; namespace = ns };
  new_delete_collection_action = λ r ns _. record {
    verb = "delete-collection";
    resource = r;
    sub_resource = "";
    namespace = ns;
  };
  new_patch_subresource_action = λ r ns _ _ _ parts. record {
    verb = "patch";
    resource = r;
    sub_resource = elim parts [ [] ↦ "" | ◌∷◌ part _ ↦ part ];
    namespace = ns;
  };
  invokes_account = λ a s. ((some (an_account account), none), some a);
  invokes_list = λ a s. ((some (a_list tt (account ∷ account ∷ [])), none), some a);
  invokes_watch = λ a s. (ok tt, some a);
  label_of = λ _. some "blue";
  everything = "";
  matches = λ selector labels. value_at "team" labels == selector;
}

recorder : IsRecorder testing
recorder = record {
  recording = λ a. a;
  join = λ parts. elim parts [ [] ↦ "" | ◌∷◌ part _ ↦ part ];
  join_none = refl;
  join_status = refl;
  of_get = λ _ _ _. refl;
  of_list = λ _ _ _ _. refl;
  of_watch = λ _ _ _. refl;
  of_create = λ _ _ _. refl;
  of_update = λ _ _ _. refl;
  of_update_subresource = λ _ _ _ _. refl;
  of_delete = λ _ _ _ _. refl;
  of_delete_collection = λ _ _ _. refl;
  of_patch = λ _ _ _ _ _ _. refl;
}

got : (get testing "c1" "m" tt none).0 ≡ replied (some account) none
unfolding get
got = refl

-- The accounts of the sample have no labels.
none_matches : (list testing "c1" options none).0 ≡ replied (some (tt, [])) none
unfolding list value_at lookup
none_matches = refl

status_recorded :
    (update_status testing "c1" account tt none).1
    ≡ some
        (record { verb = "update"; resource = accounts; sub_resource = "status"; namespace = "c1" })
unfolding update_status
status_recorded = refl

abbrev clear : Method rest
clear = delete_collection tt options

fake-Agrees_example : Agrees rest builder testing recorder (λ o. o) "c1" clear
fake-Agrees_example = fake-Agrees rest builder testing recorder (λ o. o) "c1" clear tt refl
