-- ===== src/Client/Requests.antt =====
-- What the requests of the client say: the verb, the path and the query.
use managed_serviceaccount.Prelude.{
  Has, String, ◌<>◌, Bool, true, false, Option, none, some, List, [], ◌∷◌, ◌≡◌, ◌≢◌, ap, ◌∙◌, inl,
  inr,
}
use managed_serviceaccount.Gotime.{Duration}
use managed_serviceaccount.Kube.{Bytes}
use managed_serviceaccount.Api.{ManagedServiceAccount}
use managed_serviceaccount.Client.{
  on_accounts, ListOptions, Params, other_options, list_options, Body, Rest, get_request,
  list_request, watch_request, create_request, update_request, update_status_request,
  delete_request, delete_collection_request, patch_request,
}

pub data HttpVerb : Type 0 where
  http_get : HttpVerb
  http_post : HttpVerb
  http_put : HttpVerb
  http_delete : HttpVerb
  http_patch : HttpVerb

-- What the path and the query of a request say.
pub record Attributes : Type 0 where
  pub http_verb : HttpVerb
  -- whether a namespace was set, which may be ""
  pub scoped : Bool
  pub namespace : String
  pub resource : String
  pub name : Option String
  pub sub_resources : List String
  pub watching : Bool

abbrev pub blank : HttpVerb → Attributes
blank verb = record {
  http_verb = verb;
  scoped = false;
  namespace = "";
  resource = "";
  name = none;
  sub_resources = [];
  watching = false;
}

abbrev pub is_watching : {O : Type 0} → Params O → Bool
is_watching (other_options o) = false
is_watching (list_options o) = o.watch

-- The verb and the resource by which the API server authorizes a request, as Kubernetes documents them.
abbrev pub api_verb : HttpVerb → Option String → Bool → String
api_verb http_get name true = "watch"
api_verb http_get none false = "list"
api_verb http_get (some name) false = "get"
api_verb http_post name watching = "create"
api_verb http_put name watching = "update"
api_verb http_patch name watching = "patch"
api_verb http_delete none watching = "deletecollection"
api_verb http_delete (some name) watching = "delete"

abbrev pub api_resource : String → List String → String
api_resource resource [] = resource
api_resource resource (part ∷ parts) = resource <> "/" <> part

module _ {S : Type 0} (R : Rest S) where
  open R use {Request, Options}

  -- What the builder of requests documents: each call sets its part of the request once, to a segment
  -- of a path. What it does with other arguments is an error of the request, and is left open.
  pub record IsBuilder : Type 0 where
    pub attributes : Request → Attributes
    -- IsValidPathSegmentName, which lets the empty text pass
    pub plain : String → Bool
    pub plain_accounts : plain "managedserviceaccounts" ≡ true
    pub plain_status : plain "status" ≡ true
    pub of_get : attributes R.get_verb ≡ blank http_get
    pub of_post : attributes R.post_verb ≡ blank http_post
    pub of_put : attributes R.put_verb ≡ blank http_put
    pub of_delete : attributes R.delete_verb ≡ blank http_delete
    pub of_patch : (t : String) → attributes (R.patch_verb t) ≡ blank http_patch
    pub of_namespace :
        (n : String) (r : Request)
        → plain n ≡ true
        → (attributes r).scoped ≡ false
        → attributes (R.namespace n r) ≡ record (attributes r) { scoped = true; namespace = n }
    pub of_resource :
        (n : String) (r : Request)
        → plain n ≡ true
        → (attributes r).resource ≡ ""
        → attributes (R.resource n r) ≡ record (attributes r) { resource = n }
    pub of_name :
        (n : String) (r : Request)
        → n ≢ ""
        → plain n ≡ true
        → (attributes r).name ≡ none
        → attributes (R.name n r) ≡ record (attributes r) { name = some n }
    pub of_sub_resource :
        (parts : List String) (r : Request)
        → ((part : String) → Has part parts → (part ≢ "") × (plain part ≡ true))
        → (attributes r).sub_resources ≡ []
        → attributes (R.sub_resource parts r) ≡ record (attributes r) { sub_resources = parts }
    pub of_params :
        (p : Params Options) (r : Request)
        → attributes (R.versioned_params p r) ≡ record (attributes r) { watching = is_watching p }
    pub of_timeout : (d : Duration) (r : Request) → attributes (R.timeout d r) ≡ attributes r
    pub of_body : (b : Body Options) (r : Request) → attributes (R.body b r) ≡ attributes r

  -- A call of the client, with its arguments.
  pub data Method : Type 0 where
    get : String → Options → Method
    list : ListOptions → Method
    watch : ListOptions → Method
    create : ManagedServiceAccount → Options → Method
    update : ManagedServiceAccount → Options → Method
    update_status : ManagedServiceAccount → Options → Method
    delete : String → Options → Method
    delete_collection : Options → ListOptions → Method
    patch : String → String → Bytes → Options → List String → Method

  -- The request that a call sends.
  unfoldable pub sent : String → Method → Request
  unfolding get_request list_request watch_request create_request update_request
      update_status_request delete_request delete_collection_request patch_request
  sent ns (get name options) = get_request R ns name options
  sent ns (list opts) = list_request R ns opts
  sent ns (watch opts) = watch_request R ns opts
  sent ns (create msa opts) = create_request R ns msa opts
  sent ns (update msa opts) = update_request R ns msa opts
  sent ns (update_status msa opts) = update_status_request R ns msa opts
  sent ns (delete name opts) = delete_request R ns name opts
  sent ns (delete_collection opts list_opts) = delete_collection_request R ns opts list_opts
  sent ns (patch name t content opts parts) = patch_request R ns name t content opts parts

  -- The attributes of the requests.
  abbrev pub asked : String → HttpVerb → Option String → List String → Bool → Attributes
  asked ns verb name parts watching = record {
    http_verb = verb;
    scoped = true;
    namespace = ns;
    resource = "managedserviceaccounts";
    name = name;
    sub_resources = parts;
    watching = watching;
  }

  abbrev pub shape : String → Method → Attributes
  shape ns (get name options) = asked ns http_get (some name) [] false
  shape ns (list opts) = asked ns http_get none [] opts.watch
  shape ns (watch opts) = asked ns http_get none [] true
  shape ns (create msa opts) = asked ns http_post none [] false
  shape ns (update msa opts) = asked ns http_put (some msa.metadata.name) [] false
  shape ns (update_status msa opts) =
      asked ns http_put (some msa.metadata.name) ("status" ∷ []) false
  shape ns (delete name opts) = asked ns http_delete (some name) [] false
  shape ns (delete_collection opts list_opts) = asked ns http_delete none [] list_opts.watch
  shape ns (patch name t content opts parts) = asked ns http_patch (some name) parts false

  module _ (L : IsBuilder) where
    -- A text that names an object or a subresource in a path.
    abbrev pub IsName : String → Type 0
    IsName n = (n ≢ "") × (L.plain n ≡ true)

    -- The arguments of a call stand for segments of a path.
    abbrev pub IsSendable : String → Method → Type 0
    IsSendable ns (get name options) = (L.plain ns ≡ true) × IsName name
    IsSendable ns (list opts) = L.plain ns ≡ true
    IsSendable ns (watch opts) = L.plain ns ≡ true
    IsSendable ns (create msa opts) = L.plain ns ≡ true
    IsSendable ns (update msa opts) = (L.plain ns ≡ true) × IsName msa.metadata.name
    IsSendable ns (update_status msa opts) = (L.plain ns ≡ true) × IsName msa.metadata.name
    IsSendable ns (delete name opts) = (L.plain ns ≡ true) × IsName name
    IsSendable ns (delete_collection opts list_opts) = L.plain ns ≡ true
    IsSendable ns (patch name t content opts parts) =
        (L.plain ns ≡ true) × IsName name × ((part : String) → Has part parts → IsName part)

    on_accounts_lem :
        (ns : String) (verb : HttpVerb) (r : Request)
        → L.plain ns ≡ true
        → L.attributes r ≡ blank verb
        → L.attributes (on_accounts R ns r) ≡ asked ns verb none [] false
    on_accounts_lem ns verb r plain e =
        let scope : L.attributes (R.namespace ns r)
            ≡ record (blank verb) { scoped = true; namespace = ns } =
          L.of_namespace ns r plain (ap (λ (a : Attributes). a.scoped) e)
          ∙ ap (λ (a : Attributes). record a { scoped = true; namespace = ns }) e in
        L.of_resource "managedserviceaccounts" (R.namespace ns r) L.plain_accounts
          (ap (λ (a : Attributes). a.resource) scope)
        ∙ ap (λ (a : Attributes). record a { resource = "managedserviceaccounts" }) scope

    name_lem :
        (ns : String) (verb : HttpVerb) (name : String) (r : Request)
        → IsName name
        → L.attributes r ≡ asked ns verb none [] false
        → L.attributes (R.name name r) ≡ asked ns verb (some name) [] false
    name_lem ns verb name r (there, plain) e =
        L.of_name name r there plain (ap (λ (a : Attributes). a.name) e)
        ∙ ap (λ (a : Attributes). record a { name = some name }) e

    sub_resource_lem :
        (ns : String) (verb : HttpVerb) (name : String) (parts : List String) (r : Request)
        → ((part : String) → Has part parts → IsName part)
        → L.attributes r ≡ asked ns verb (some name) [] false
        → L.attributes (R.sub_resource parts r) ≡ asked ns verb (some name) parts false
    sub_resource_lem ns verb name parts r names e =
        L.of_sub_resource parts r names (ap (λ (a : Attributes). a.sub_resources) e)
        ∙ ap (λ (a : Attributes). record a { sub_resources = parts }) e

    params_lem :
        (p : Params Options) (r : Request) (a : Attributes)
        → L.attributes r ≡ a
        → L.attributes (R.versioned_params p r) ≡ record a { watching = is_watching p }
    params_lem p r a e =
        L.of_params p r ∙ ap (λ (x : Attributes). record x { watching = is_watching p }) e

    status_names : (part : String) → Has part ("status" ∷ []) → IsName part
    status_names part (inl e) = (λ h. absurd (cc (e, h)), ap L.plain e ∙ L.plain_status)
    status_names part (inr i) = absurd i

    -- The request of a call with such arguments has the attributes that the call stands for.
    pub sent-shape :
        (ns : String) (m : Method) → IsSendable ns m → L.attributes (sent ns m) ≡ shape ns m
    unfolding sent get_request list_request watch_request create_request update_request
        update_status_request delete_request delete_collection_request patch_request
    sent-shape ns (get name options) (plain, named) =
        params_lem _ _ _ (name_lem ns _ name _ named (on_accounts_lem ns _ _ plain L.of_get))
    sent-shape ns (list opts) plain =
        L.of_timeout _ _ ∙ params_lem _ _ _ (on_accounts_lem ns _ _ plain L.of_get)
    sent-shape ns (watch opts) plain =
        L.of_timeout _ _ ∙ params_lem _ _ _ (on_accounts_lem ns _ _ plain L.of_get)
    sent-shape ns (create msa opts) plain =
        L.of_body _ _ ∙ params_lem _ _ _ (on_accounts_lem ns _ _ plain L.of_post)
    sent-shape ns (update msa opts) (plain, named) =
        L.of_body _ _
        ∙ params_lem _ _ _ (name_lem ns _ _ _ named (on_accounts_lem ns _ _ plain L.of_put))
    sent-shape ns (update_status msa opts) (plain, named) =
        L.of_body _ _
        ∙ params_lem _ _ _ (
            sub_resource_lem ns _ _ _ _ status_names
              (name_lem ns _ _ _ named (on_accounts_lem ns _ _ plain L.of_put)))
    sent-shape ns (delete name opts) (plain, named) =
        L.of_body _ _ ∙ name_lem ns _ _ _ named (on_accounts_lem ns _ _ plain L.of_delete)
    sent-shape ns (delete_collection opts list_opts) plain =
        L.of_body _ _
        ∙ L.of_timeout _ _
        ∙ params_lem _ _ _ (on_accounts_lem ns _ _ plain L.of_delete)
    sent-shape ns (patch name t content opts parts) (plain, named, names) =
        L.of_body _ _
        ∙ params_lem _ _ _ (
            sub_resource_lem ns _ _ _ _ names
              (name_lem ns _ _ _ named (on_accounts_lem ns _ _ plain (L.of_patch t))))
