-- ===== src/Token/Cluster/Laws.antt =====
-- What the token controller relies on: a read answers what the servers hold and changes nothing, a
-- write that succeeds has the documented effect and one that fails has none, and nobody else writes
-- meanwhile. Any call may fail.
use managed_serviceaccount.Prelude.{String, true, Option, none, some, List, [], ◌∷◌, ◌≡◌, ◌≢◌}
use managed_serviceaccount.Prelude.{if◌then◌else◌, ◌==◌}
use managed_serviceaccount.Prelude.Int.{ℤ}
use managed_serviceaccount.Errors.{Error, is_not_found, is_already_exists}
use managed_serviceaccount.Effect.Triple.{Ends}
use managed_serviceaccount.Kube.{Bytes, Key, Secret, ServiceAccount, Condition, key_of, put_at}
use managed_serviceaccount.Api.{ManagedServiceAccount}
use managed_serviceaccount.Token.Cluster.{Cluster, Objects}
use managed_serviceaccount.Token.Jwt

-- The first condition of a type.
unfoldable pub find_condition : String → List Condition → Option Condition
find_condition t [] = none
find_condition t (c ∷ cs) = if c.condition_type == t then some c else find_condition t cs

-- What a controller reports of a condition, its time aside.
pub record SameReport (c d : Condition) : Type 0 where
  pub status : c.status ≡ d.status
  pub reason : c.reason ≡ d.reason
  pub text : c.text ≡ d.text

-- The object that a server holds, with a new status.
abbrev pub with_status :
    ManagedServiceAccount → Option ManagedServiceAccount → Option ManagedServiceAccount
with_status m none = none
with_status m (some held) = some (record held { status = m.status })

-- The servers hold each object under its own namespace and name.
pub record IsKeyed (o : Objects) : Type 0 where
  pub accounts :
      (k : Key) (x : ManagedServiceAccount) → o.accounts k ≡ some x → key_of x.metadata ≡ k
  pub secrets : (k : Key) (x : Secret) → o.secrets k ≡ some x → key_of x.metadata ≡ k

module _ (C : Cluster) where
  open C use {State, objects}

  -- A call that leaves the objects as they were in `s`.
  abbrev pub Unchanged : State → State → Type 0
  Unchanged s t = objects t ≡ objects s

  -- A read of one object, whose true value is `v`.
  abbrev Reads : {A : Type 0} → State → Option A → A → State → Type 0
  Reads s v a t = (v ≡ some a) × Unchanged s t

  -- A failed read: NotFound means that the object is not there.
  abbrev Misses : {A : Type 0} → State → Option A → Error → State → Type 0
  Misses s v e t = (is_not_found e ≡ true → v ≡ none) × Unchanged s t

  abbrev Fails : State → Error → State → Type 0
  Fails s e t = Unchanged s t

  pub record IsLawful : Type 0 where
    pub reads_account :
        (k : Key) (s : State)
        → Ends
            (Reads s ((objects s).accounts k))
            (Misses s ((objects s).accounts k))
            (C.get_account k s)
    pub reads_secret :
        (k : Key) (s : State)
        → Ends
            (Reads s ((objects s).secrets k))
            (Misses s ((objects s).secrets k))
            (C.get_secret k s)
    pub reads_spoke_account :
        (k : Key) (s : State)
        → Ends
            (Reads s ((objects s).spoke_accounts k))
            (Misses s ((objects s).spoke_accounts k))
            (C.get_spoke_account k s)
    pub creates_secret :
        (x : Secret) (s : State)
        → Ends
            (λ _ t. objects t ≡ record (objects s) {
              secrets = put_at (objects s).secrets (key_of x.metadata) (some x);
            })
            (Fails s)
            (C.create_secret x s)
    pub updates_secret :
        (x : Secret) (s : State)
        → Ends
            (λ _ t. objects t ≡ record (objects s) {
              secrets = put_at (objects s).secrets (key_of x.metadata) (some x);
            })
            (Fails s)
            (C.update_secret x s)
    -- only the status of the object that the server holds is written
    pub updates_status :
        (m : ManagedServiceAccount) (s : State)
        → Ends
            (λ _ t. objects t ≡ record (objects s) {
              accounts =
                  put_at
                    (objects s).accounts
                    (key_of m.metadata)
                    (with_status m ((objects s).accounts (key_of m.metadata)));
            })
            (Fails s)
            (C.update_status m s)
    pub creates_spoke_account :
        (x : ServiceAccount) (s : State)
        → Ends
            (λ _ t.
              ((objects s).spoke_accounts (key_of x.metadata) ≡ none)
              × (objects t ≡ record (objects s) {
                spoke_accounts = put_at (objects s).spoke_accounts (key_of x.metadata) (some x);
              }))
            (λ e t.
              (is_already_exists e ≡ true → (objects s).spoke_accounts (key_of x.metadata) ≢ none)
              × Unchanged s t)
            (C.create_spoke_account x s)
    pub deletes_spoke_account :
        (k : Key) (s : State)
        → Ends
            (λ _ t.
              objects t
              ≡ record (objects s) { spoke_accounts = put_at (objects s).spoke_accounts k none })
            (Misses s ((objects s).spoke_accounts k))
            (C.delete_spoke_account k s)
    -- a token that is issued is not empty
    pub creates_token :
        (k : Key) (n : ℤ) (s : State)
        → Ends (λ issued t. (issued.0 ≢ []) × Unchanged s t) (Fails s) (C.create_token k n s)
    pub reviews_token :
        (b : Bytes) (s : State) → Ends (λ _ t. Unchanged s t) (Fails s) (C.review_token b s)
    pub reads_file :
        (p : String) (s : State) → Ends (λ _ t. Unchanged s t) (Fails s) (C.read_file p s)
    -- SetStatusCondition sets the report of one type, keeps the other types, and writes nothing where
    -- the report is there already
    pub sets_condition :
        (s : State) (cs : List Condition) (c : Condition)
        → (d : Condition) × (find_condition c.condition_type (C.set_status_condition s cs c)
            ≡ some d)
          × SameReport d c
    pub keeps_condition :
        (s : State) (cs : List Condition) (c : Condition) (t : String)
        → c.condition_type ≢ t
        → find_condition t (C.set_status_condition s cs c) ≡ find_condition t cs
    pub repeats_condition :
        (s : State) (cs : List Condition) (c d : Condition)
        → find_condition c.condition_type cs ≡ some d
        → SameReport d c
        → C.set_status_condition s cs c ≡ cs
    pub jwt_lawful : Jwt.IsLawful C.jwt
