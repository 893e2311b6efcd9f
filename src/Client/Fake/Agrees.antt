-- ===== src/Client/Fake/Agrees.antt =====
-- The fake client and the typed client: a test sees the actions that the API server would be asked for.
use managed_serviceaccount.Prelude.{
  String, Bool, false, Option, none, List, [], ◌∷◌, ◌≡◌, refl, ◌∙◌, sym, ap,
}
use managed_serviceaccount.Kube.{Bytes}
use managed_serviceaccount.Api.{ManagedServiceAccount}
use managed_serviceaccount.Client.{ListOptions, Rest}
use managed_serviceaccount.Client.Requests.{
  HttpVerb, http_delete, Attributes, api_verb, IsBuilder, Method, get, list, watch, create, update,
  update_status, delete, delete_collection, patch, sent, shape, IsSendable, sent-shape,
}
use managed_serviceaccount.Client.Fake
use managed_serviceaccount.Client.Fake.{
  Resource, accounts, Testing, as_account, as_list, selector_or,
}

-- What an action says; a fake client calls the deletion of a collection delete-collection.
pub record Recorded : Type 0 where
  pub verb : String
  pub resource : Resource
  pub sub_resource : String
  pub namespace : String

-- The verb by which the fake client knows a request.
abbrev pub fake_verb : HttpVerb → Option String → Bool → String
fake_verb http_delete none watching = "delete-collection"
fake_verb verb name watching = api_verb verb name watching

module _ {S : Type 0} (T : Testing S) where
  open T use {Action, Options}

  abbrev recorded : String → String → String → Resource → Recorded
  recorded verb sub_resource namespace r = record {
    verb = verb;
    resource = r;
    sub_resource = sub_resource;
    namespace = namespace;
  }

  -- What the constructors of actions document.
  pub record IsRecorder : Type 0 where
    pub recording : Action → Recorded
    -- path.Join
    pub join : List String → String
    pub join_none : join [] ≡ ""
    pub join_status : join ("status" ∷ []) ≡ "status"
    pub of_get :
        (r : Resource) (ns name : String)
        → recording (T.new_get_action r ns name) ≡ recorded "get" "" ns r
    pub of_list :
        (r : Resource) (kind ns : String) (opts : ListOptions)
        → recording (T.new_list_action r kind ns opts) ≡ recorded "list" "" ns r
    pub of_watch :
        (r : Resource) (ns : String) (opts : ListOptions)
        → recording (T.new_watch_action r ns opts) ≡ recorded "watch" "" ns r
    pub of_create :
        (r : Resource) (ns : String) (m : ManagedServiceAccount)
        → recording (T.new_create_action r ns m) ≡ recorded "create" "" ns r
    pub of_update :
        (r : Resource) (ns : String) (m : ManagedServiceAccount)
        → recording (T.new_update_action r ns m) ≡ recorded "update" "" ns r
    pub of_update_subresource :
        (r : Resource) (sub ns : String) (m : ManagedServiceAccount)
        → recording (T.new_update_subresource_action r sub ns m) ≡ recorded "update" sub ns r
    pub of_delete :
        (r : Resource) (ns name : String) (opts : Options)
        → recording (T.new_delete_action_with_options r ns name opts) ≡ recorded "delete" "" ns r
    pub of_delete_collection :
        (r : Resource) (ns : String) (opts : ListOptions)
        → recording (T.new_delete_collection_action r ns opts)
          ≡ recorded "delete-collection" "" ns r
    pub of_patch :
        (r : Resource) (ns name t : String) (b : Bytes) (parts : List String)
        → recording (T.new_patch_subresource_action r ns name t b parts)
          ≡ recorded "patch" (join parts) ns r

module _ {S W : Type 0} (R : Rest W) (L : IsBuilder R) (T : Testing S) (K : IsRecorder T)
    (options : R.Options → T.Options) (ns : String) where
  -- A call of the fake client is the invocation of an action.
  abbrev pub Invokes : Method R → T.Action → Type 0
  Invokes (get name o) a =
      (s : S)
      → Fake.get T ns name (options o) s
        ≡ (as_account T ns (T.invokes_account a s).0, (T.invokes_account a s).1)
  Invokes (list opts) a =
      (s : S)
      → Fake.list T ns opts s ≡ (
        as_list T ns (selector_or T ns (T.label_of opts)) (T.invokes_list a s).0,
        (T.invokes_list a s).1,
      )
  Invokes (watch opts) a = (s : S) → Fake.watch T ns opts s ≡ T.invokes_watch a s
  Invokes (create msa o) a =
      (s : S)
      → Fake.create T ns msa (options o) s
        ≡ (as_account T ns (T.invokes_account a s).0, (T.invokes_account a s).1)
  Invokes (update msa o) a =
      (s : S)
      → Fake.update T ns msa (options o) s
        ≡ (as_account T ns (T.invokes_account a s).0, (T.invokes_account a s).1)
  Invokes (update_status msa o) a =
      (s : S)
      → Fake.update_status T ns msa (options o) s
        ≡ (as_account T ns (T.invokes_account a s).0, (T.invokes_account a s).1)
  Invokes (delete name o) a =
      (s : S)
      → Fake.delete T ns name (options o) s
        ≡ ((T.invokes_account a s).0.1, (T.invokes_account a s).1)
  Invokes (delete_collection o opts) a =
      (s : S)
      → Fake.delete_collection T ns (options o) opts s
        ≡ ((T.invokes_list a s).0.1, (T.invokes_list a s).1)
  Invokes (patch name t b o parts) a =
      (s : S)
      → Fake.patch T ns name t b (options o) parts s
        ≡ (as_account T ns (T.invokes_account a s).0, (T.invokes_account a s).1)

  -- A list that does not ask for a watch.
  abbrev pub WatchesNot : Method R → Type 0
  WatchesNot (list opts) = opts.watch ≡ false
  WatchesNot m = Unit {0}

  -- An action that a call of the fake client invokes, with what the typed client would ask for.
  pub record Agrees (m : Method R) : Type 0 where
    pub action : T.Action
    pub invoked : Invokes m action
    pub verb :
        (K.recording action).verb
        ≡ fake_verb
            (L.attributes (sent R ns m)).http_verb
            (L.attributes (sent R ns m)).name
            (L.attributes (sent R ns m)).watching
    pub resource : (K.recording action).resource.resource ≡ (L.attributes (sent R ns m)).resource
    pub sub_resource :
        (K.recording action).sub_resource ≡ K.join (L.attributes (sent R ns m)).sub_resources
    pub namespace : (K.recording action).namespace ≡ (L.attributes (sent R ns m)).namespace

  -- What an action has to record for the attributes of a request.
  record Fits (x : Recorded) (a : Attributes) : Type 0 where
    verb_eq : x.verb ≡ fake_verb a.http_verb a.name a.watching
    resource_eq : x.resource.resource ≡ a.resource
    sub_eq : x.sub_resource ≡ K.join a.sub_resources
    namespace_eq : x.namespace ≡ a.namespace

  Agrees-of :
      (m : Method R) (action : T.Action) (x : Recorded)
      → IsSendable R L ns m
      → Invokes m action
      → K.recording action ≡ x
      → Fits x (shape R ns m)
      → Agrees m
  Agrees-of m action x sendable invoked e fits =
      let same = sent-shape R L ns m sendable in
      record {
        action = action;
        invoked = invoked;
        verb =
            ap (λ (y : Recorded). y.verb) e
            ∙ fits.verb_eq
            ∙ ap (λ (a : Attributes). fake_verb a.http_verb a.name a.watching) (sym same);
        resource =
            ap (λ (y : Recorded). y.resource.resource) e
            ∙ fits.resource_eq
            ∙ ap (λ (a : Attributes). a.resource) (sym same);
        sub_resource =
            ap (λ (y : Recorded). y.sub_resource) e
            ∙ fits.sub_eq
            ∙ ap (λ (a : Attributes). K.join a.sub_resources) (sym same);
        namespace =
            ap (λ (y : Recorded). y.namespace) e
            ∙ fits.namespace_eq
            ∙ ap (λ (a : Attributes). a.namespace) (sym same);
      }

  -- Without a subresource, only the verb has to fit.
  Fits-whole :
      (x : Recorded) (a : Attributes)
      → x ≡ recorded T (fake_verb a.http_verb a.name a.watching) "" ns accounts
      → a.resource ≡ "managedserviceaccounts"
      → a.sub_resources ≡ []
      → a.namespace ≡ ns
      → Fits x a
  Fits-whole x a e r p n = record {
    verb_eq = ap (λ (y : Recorded). y.verb) e;
    resource_eq = ap (λ (y : Recorded). y.resource.resource) e ∙ sym r;
    sub_eq = ap (λ (y : Recorded). y.sub_resource) e ∙ sym K.join_none ∙ sym (ap K.join p);
    namespace_eq = ap (λ (y : Recorded). y.namespace) e ∙ sym n;
  }

  -- Every call of the fake client, but for a list that asks for a watch, with arguments that name
  -- segments of a path, invokes one action, of which it returns the reply, and which records the verb,
  -- the resource, the subresource and the namespace that the request of the typed client has for the
  -- same call; only the deletion of a collection goes by another verb.
  pub fake-Agrees : (m : Method R) → WatchesNot m → IsSendable R L ns m → Agrees m
  unfolding Fake.get Fake.list Fake.watch Fake.create Fake.update Fake.update_status Fake.delete
      Fake.delete_collection Fake.patch
  fake-Agrees (get name o) h sendable =
      Agrees-of (get name o) _ _ sendable (λ s. refl) (K.of_get accounts ns name)
        (Fits-whole _ _ refl refl refl refl)
  fake-Agrees (list opts) h sendable =
      Agrees-of (list opts) _ _ sendable (λ s. refl)
        (K.of_list accounts "ManagedServiceAccount" ns opts)
        (Fits-whole _ _ (rw h refl) refl refl refl)
  fake-Agrees (watch opts) h sendable =
      Agrees-of (watch opts) _ _ sendable (λ s. refl) (K.of_watch accounts ns opts)
        (Fits-whole _ _ refl refl refl refl)
  fake-Agrees (create msa o) h sendable =
      Agrees-of (create msa o) _ _ sendable (λ s. refl) (K.of_create accounts ns msa)
        (Fits-whole _ _ refl refl refl refl)
  fake-Agrees (update msa o) h sendable =
      Agrees-of (update msa o) _ _ sendable (λ s. refl) (K.of_update accounts ns msa)
        (Fits-whole _ _ refl refl refl refl)
  fake-Agrees (update_status msa o) h sendable =
      Agrees-of (update_status msa o) _ _ sendable (λ s. refl)
        (K.of_update_subresource accounts "status" ns msa)
        (record {
          verb_eq = refl;
          resource_eq = refl;
          sub_eq = sym K.join_status;
          namespace_eq = refl;
        })
  fake-Agrees (delete name o) h sendable =
      Agrees-of (delete name o) _ _ sendable (λ s. refl) (K.of_delete accounts ns name (options o))
        (Fits-whole _ _ refl refl refl refl)
  fake-Agrees (delete_collection o opts) h sendable =
      Agrees-of (delete_collection o opts) _ _ sendable (λ s. refl)
        (K.of_delete_collection accounts ns opts) (Fits-whole _ _ refl refl refl refl)
  fake-Agrees (patch name t b o parts) h sendable =
      Agrees-of (patch name t b o parts) _ _ sendable (λ s. refl)
        (K.of_patch accounts ns name t b parts)
        (record { verb_eq = refl; resource_eq = refl; sub_eq = refl; namespace_eq = refl })
