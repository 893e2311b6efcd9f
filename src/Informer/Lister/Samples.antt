-- ===== src/Informer/Lister/Samples.antt =====
-- A cache that holds one account.
use managed_serviceaccount.Prelude.{
  Has, String, ◌==◌, eq_iff, Bool, true, none, some, [], ◌∷◌, ◌≡◌, ◌↔◌, inl, inr, refl, ◌∙◌, sym,
  ap, arith, ◌&&◌, if◌then◌else◌, Bool-cases,
}
use managed_serviceaccount.Errors.{ok, err, not_found}
use managed_serviceaccount.Api.{ManagedServiceAccount}
use managed_serviceaccount.Profile.Memory.{account}
use managed_serviceaccount.Informer.Lister.{Indexer, get, list, namespace_list}
use managed_serviceaccount.Informer.Lister.Reads.{
  IsIndex, ReadsCache, key_text, covers, visit, lister-ReadsCache,
}

-- A selector is whether it matches.
abbrev indexer : Indexer
indexer = record {
  Selector = Bool;
  list_all = λ selector f ret. (visit (λ _. selector) f ret (account ∷ []), none);
  list_all_by_namespace = λ namespace selector f ret.
      (visit (λ m. covers namespace m && selector) f ret (account ∷ []), none);
  get_by_key = λ key. ok (if "c1/m" == key then some account else none);
  not_found_text = λ resource name. "not found";
}

reads_lem :
    (key : String) (m : ManagedServiceAccount)
    → (indexer.get_by_key key ≡ ok (some m)) ↔ (Has m (account ∷ []) × (key_text m ≡ key))
reads_lem key m = elim (Bool-cases ("c1/m" == key)) [
  | inl same ↦ rw same (
    λ h.
        let e : account ≡ m = cc (h) in
        (inl (sym e), sym (ap key_text e) ∙ (eq_iff "c1/m" key).0 same),
    λ (i, e). elim i [ inl held ↦ ap (λ x. ok (some x)) (sym held) | inr later ↦ absurd later ],
  )
  | inr differ ↦ rw differ (
    λ h. absurd (ground (arith, h)),
    λ (i, e). elim i [
      | inl held ↦
          absurd (ground (arith, differ, (eq_iff "c1/m" key).1 (sym (ap key_text held) ∙ e)))
      | inr later ↦ absurd later
    ],
  )
]

abbrev index : IsIndex indexer
index = record {
  items = account ∷ [];
  matches = λ selector _. selector;
  lists = λ _ _ _. refl;
  lists_namespace = λ _ _ _ _. refl;
  reads = reads_lem;
  answers = λ key. (_, refl);
}

missing : get indexer "c1" "n" ≡ err (not_found "not found")
unfolding get
missing = refl

listed : (namespace_list indexer "c1" true).0 ≡ (list indexer true).0
unfolding namespace_list list
listed = refl

lister-ReadsCache_example : ReadsCache indexer index "c1" "m" true
lister-ReadsCache_example = lister-ReadsCache indexer index "c1" "m" true (λ _. refl)
