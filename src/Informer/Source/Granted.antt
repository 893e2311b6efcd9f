-- ===== src/Informer/Source/Granted.antt =====
-- The informer and the agent's role: an informer's requests are among those that the role grants.
use managed_serviceaccount.Prelude.{String, true, Option, ◌≡◌, ◌≢◌, refl}
use managed_serviceaccount.Client.{ListOptions, Rest}
use managed_serviceaccount.Client.Granted.{is_granted, sent-IsForAgent}
use managed_serviceaccount.Client.Requests.{IsBuilder, list, watch, sent}
use managed_serviceaccount.Informer.Source.{Tweak, tweaked, ListWatch, list_watch}

module _ {S : Type 0} (R : Rest S) (L : IsBuilder R) (namespace : String) where
  -- A request that stays with the accounts of the namespace and that the agent's role grants.
  pub record IsAllowed (r : R.Request) : Type 0 where
    pub in_namespace : (L.attributes r).namespace ≡ namespace
    pub of_accounts : (L.attributes r).resource ≡ "managedserviceaccounts"
    pub granted : is_granted R namespace (L.attributes r) ≡ true

  -- The requests that an informer's functions send.
  pub record Sends (w : ListWatch R) (options : ListOptions) : Type 0 where
    pub list_request : R.Request
    pub watch_request : R.Request
    pub lists : w.list_func options ≡ R.do_list list_request
    pub watches : w.watch_func options ≡ R.do_watch watch_request
    pub list_allowed : IsAllowed list_request
    pub watch_allowed : IsAllowed watch_request

  -- Whatever the options are and whatever a tweak makes of them, an informer of one namespace lists and
  -- watches with one request each, which stays with the ManagedServiceAccounts of that namespace and
  -- which the role of the agent of the cluster with that namespace grants.
  pub list_watch-Sends :
      (tweak : Option Tweak) (options : ListOptions)
      → namespace ≢ ""
      → L.plain namespace ≡ true
      → Sends (list_watch R namespace tweak) options
  unfolding list_watch sent
  list_watch-Sends tweak options one plain =
      let opts = tweaked tweak options in
      let (list_ns, list_res, list_granted) =
        sent-IsForAgent R L namespace namespace (list opts) plain in
      let (watch_ns, watch_res, watch_granted) =
        sent-IsForAgent R L namespace namespace (watch opts) plain in
      record {
        list_request = sent R namespace (list opts);
        watch_request = sent R namespace (watch opts);
        lists = refl;
        watches = refl;
        list_allowed = record {
          in_namespace = list_ns;
          of_accounts = list_res;
          granted = list_granted.1 (one, refl, tt);
        };
        watch_allowed = record {
          in_namespace = watch_ns;
          of_accounts = watch_res;
          granted = watch_granted.1 (one, refl, tt);
        };
      }
