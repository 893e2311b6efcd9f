-- ===== src/Client/Samples.antt =====
-- Requests that are their attributes, and the theorem at a patch of a status.
use managed_serviceaccount.Prelude.{
  String, true, false, some, [], ◌∷◌, ◌≡◌, ◌≢◌, ◌↔◌, refl, inl, inr,
}
use managed_serviceaccount.Prelude.Int.{pos, wrap64, scale}
use managed_serviceaccount.Errors.{ok, err, message}
use managed_serviceaccount.Client.{get, Rest, ListOptions, watch_request, timeout_of}
use managed_serviceaccount.Client.Granted.{is_granted, IsForAgent, sent-IsForAgent}
use managed_serviceaccount.Client.Requests.{
  Attributes, blank, is_watching, http_get, http_post, http_put, http_delete, http_patch, IsBuilder,
  Method, patch, sent, IsSendable,
}

abbrev pub rest : Rest (Unit {0})
rest = record {
  Request = Attributes;
  Options = Unit;
  Watcher = Unit;
  get_verb = blank http_get;
  post_verb = blank http_post;
  put_verb = blank http_put;
  delete_verb = blank http_delete;
  patch_verb = λ _. blank http_patch;
  namespace = λ n r. record r { scoped = true; namespace = n };
  resource = λ n r. record r { resource = n };
  name = λ n r. record r { name = some n };
  sub_resource = λ parts r. record r { sub_resources = parts };
  versioned_params = λ p r. record r { watching = is_watching p };
  timeout = λ _ r. r;
  body = λ _ r. r;
  do_account = λ _ s. (err (message "no such account"), s);
  do_list = λ _ s. (ok [], s);
  do_error = λ _ s. (ok tt, s);
  do_watch = λ _ s. (ok tt, s);
}

abbrev pub builder : IsBuilder rest
builder = record {
  attributes = λ r. r;
  plain = λ _. true;
  plain_accounts = refl;
  plain_status = refl;
  of_get = refl;
  of_post = refl;
  of_put = refl;
  of_delete = refl;
  of_patch = λ _. refl;
  of_namespace = λ _ _ _ _. refl;
  of_resource = λ _ _ _ _. refl;
  of_name = λ _ _ _ _ _. refl;
  of_sub_resource = λ _ _ _ _. refl;
  of_params = λ _ _. refl;
  of_timeout = λ _ _. refl;
  of_body = λ _ _. refl;
}

abbrev pub options : ListOptions
options = record {
  label_selector = "";
  field_selector = "";
  watch = false;
  timeout_seconds = some (pos 30);
}

watch_sets_watching : (watch_request rest "c1" options).watching ≡ true
unfolding watch_request
watch_sets_watching = refl

thirty_seconds : timeout_of options.timeout_seconds ≡ pos 30_000_000_000
unfolding timeout_of wrap64 scale
thirty_seconds = refl

missing : (get rest "c1" "m" tt tt).0 ≡ err (message "no such account")
unfolding get
missing = refl

abbrev status_patch : Method rest
status_patch = patch "m" "application/merge-patch+json" (123 ∷ 125 ∷ []) tt ("status" ∷ [])

status_patch-IsSendable : IsSendable rest builder "c1" status_patch
status_patch-IsSendable = (
  refl,
  (λ e. cc (e), refl),
  λ part i. elim i [ inl e ↦ (λ h. absurd (cc (e, h)), refl) | inr later ↦ absurd later ],
)

sent-IsForAgent_example :
    ((sent rest "c1" status_patch).namespace ≡ "c1")
    × ((sent rest "c1" status_patch).resource ≡ "managedserviceaccounts")
    × ((is_granted rest "c1" (sent rest "c1" status_patch) ≡ true) ↔ (
        (◌≢◌ {A = String} "c1" "") × (◌≡◌ {A = String} "c1" "c1") × IsForAgent rest status_patch))
sent-IsForAgent_example =
    sent-IsForAgent rest builder "c1" "c1" status_patch status_patch-IsSendable
