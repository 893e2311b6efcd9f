-- ===== src/Token/Memory.antt =====
-- A cluster in memory that meets the assumptions, for runs and for the theorems at concrete data.
use managed_serviceaccount.Prelude.{
  String, ◌==◌, eq_iff, eq_refl, true, Option, none, some, List, [], ◌∷◌, ◌≡◌, ◌≢◌, refl, ap, arith,
  if◌then◌else◌, Bool-cases, inl, inr,
}
use managed_serviceaccount.Gotime.{Time, second, add, times, divided}
use managed_serviceaccount.Errors.{
  ok, err, not_found, already_exists, is_not_found, is_already_exists,
}
use managed_serviceaccount.Effect.{Call}
use managed_serviceaccount.Effect.Triple.{Ends, Ends-ok, Ends-err}
use managed_serviceaccount.Kube.{Bytes, Key, key_of, Secret, ServiceAccount, Condition, put_at}
use managed_serviceaccount.Token.Jwt
use managed_serviceaccount.Token.Jwt.{Claim, text, username}
use managed_serviceaccount.Token.Cluster.{Cluster, Objects}
use managed_serviceaccount.Token.Cluster.Laws.{IsLawful, SameReport, find_condition, with_status}

-- The objects and the time.
pub record Memory : Type 0 where
  pub held : Objects
  pub clock : Time

abbrev pub fetch : {A : Type 0} → Option A → Call Memory A
fetch none s = (err (not_found "not found"), s)
fetch (some a) s = (ok a, s)

-- A condition of the same type after a report.
merge : Condition → Condition → Condition
merge d c = if d.status == c.status then record d { reason = c.reason; text = c.text } else c

unfoldable pub put_condition : List Condition → Condition → List Condition
unfolding merge
put_condition [] c = c ∷ []
put_condition (d ∷ ds) c =
    if d.condition_type == c.condition_type then merge d c ∷ ds else d ∷ put_condition ds c

merge_type :
    (d c : Condition)
    → d.condition_type ≡ c.condition_type
    → (merge d c).condition_type ≡ c.condition_type
unfolding merge
merge_type d c e = ground (arith, eq_iff d.status c.status)

merge-SameReport : (d c : Condition) → SameReport (merge d c) c
unfolding merge
merge-SameReport d c = record {
  status = ground (arith, eq_iff d.status c.status);
  reason = ground (arith, eq_iff d.status c.status);
  text = ground (arith, eq_iff d.status c.status);
}

merge_id : (d c : Condition) → SameReport d c → merge d c ≡ d
unfolding merge
merge_id d c h = ground (arith, eq_iff d.status c.status, h.status, h.reason, h.text)

put_condition_sets :
    (cs : List Condition) (c : Condition)
    → (d : Condition) × (find_condition c.condition_type (put_condition cs c) ≡ some d)
      × SameReport d c
unfolding put_condition find_condition
put_condition_sets [] c = (c, rw eq_refl, record { status = refl; reason = refl; text = refl })
put_condition_sets (d ∷ ds) c = elim (Bool-cases (d.condition_type == c.condition_type)) [
  | inl same ↦ (
    merge d c,
    rw same (rw (merge_type d c ((eq_iff _ _).0 same), eq_refl)),
    merge-SameReport d c,
  )
  | inr differ ↦ let (x, e, h) = put_condition_sets ds c in (x, rw differ (rw differ e), h)
]

put_condition_keeps :
    (cs : List Condition) (c : Condition) (t : String)
    → c.condition_type ≢ t
    → find_condition t (put_condition cs c) ≡ find_condition t cs
unfolding put_condition find_condition
put_condition_keeps [] c t ne = ground (arith, eq_iff c.condition_type t)
put_condition_keeps (d ∷ ds) c t ne = ground (
  arith,
  eq_iff d.condition_type c.condition_type,
  eq_iff d.condition_type t,
  eq_iff c.condition_type t,
  eq_iff (merge d c).condition_type t,
  merge_type d c,
  put_condition_keeps ds c t ne,
)

put_condition_repeats :
    (cs : List Condition) (c d : Condition)
    → find_condition c.condition_type cs ≡ some d
    → SameReport d c
    → put_condition cs c ≡ cs
unfolding put_condition find_condition
put_condition_repeats [] c d e h = absurd (ground (arith, e))
put_condition_repeats (x ∷ xs) c d e h = elim (Bool-cases (x.condition_type == c.condition_type)) [
  | inl same ↦
      rw same
        (let x-eq : x ≡ d = ground (arith, same) in ap (λ y. y ∷ xs) (merge_id x c (rw x-eq h)))
  | inr differ ↦ rw differ (ap (λ y. x ∷ y) (put_condition_repeats xs c d (rw differ at e) h))
]

abbrev create_account : ServiceAccount → Option ServiceAccount → Call Memory (Unit {0})
create_account x (some _) s = (err (already_exists "already exists"), s)
create_account x none s = (
  ok tt,
  record s {
    held = record s.held {
      spoke_accounts = put_at s.held.spoke_accounts (key_of x.metadata) (some x);
    };
  },
)

abbrev remove_account : Key → Option ServiceAccount → Call Memory (Unit {0})
remove_account k none s = (err (not_found "not found"), s)
remove_account k (some _) s = (
  ok tt,
  record s { held = record s.held { spoke_accounts = put_at s.held.spoke_accounts k none } },
)

create_account_lem :
    (x : ServiceAccount) (v : Option ServiceAccount) (s : Memory)
    → s.held.spoke_accounts (key_of x.metadata) ≡ v
    → Ends
        (λ _ t.
          (s.held.spoke_accounts (key_of x.metadata) ≡ none)
          × (t.held ≡ record s.held {
            spoke_accounts = put_at s.held.spoke_accounts (key_of x.metadata) (some x);
          }))
        (λ e t.
          (is_already_exists e ≡ true → s.held.spoke_accounts (key_of x.metadata) ≢ none)
          × (t.held ≡ s.held))
        (create_account x v s)
create_account_lem x none s e = Ends-ok (e, refl)
create_account_lem x (some y) s e = Ends-err (λ _ n. ground (arith, e, n), refl)

remove_account_lem :
    (k : Key) (v : Option ServiceAccount) (s : Memory)
    → s.held.spoke_accounts k ≡ v
    → Ends
        (λ _ t. t.held ≡ record s.held { spoke_accounts = put_at s.held.spoke_accounts k none })
        (λ e t. (is_not_found e ≡ true → s.held.spoke_accounts k ≡ none) × (t.held ≡ s.held))
        (remove_account k v s)
remove_account_lem k none s e = Ends-err (λ _. e, refl)
remove_account_lem k (some y) s e = Ends-ok refl

abbrev pub write_secret : Secret → Call Memory (Unit {0})
write_secret x s = (
  ok tt,
  record s {
    held = record s.held { secrets = put_at s.held.secrets (key_of x.metadata) (some x) };
  },
)

abbrev pub library : String → Jwt.Library
library user = record {
  unmarshal = λ _. ok (("sub", text user) ∷ []);
  matches_username = λ namespace name u. u == username namespace name;
}

-- The user that every token names, and what follows an e in every new token.
module _ (user : String) (token : Bytes) where
  abbrev pub memory : Cluster
  memory = record {
    State = Memory;
    objects = λ s. s.held;
    get_account = λ k s. fetch (s.held.accounts k) s;
    get_secret = λ k s. fetch (s.held.secrets k) s;
    create_secret = write_secret;
    update_secret = write_secret;
    update_status = λ m s. (
      ok tt,
      record s {
        held = record s.held {
          accounts =
              put_at s.held.accounts (key_of m.metadata)
                (with_status m (s.held.accounts (key_of m.metadata)));
        };
      },
    );
    get_spoke_account = λ k s. fetch (s.held.spoke_accounts k) s;
    create_spoke_account = λ x s. create_account x (s.held.spoke_accounts (key_of x.metadata)) s;
    delete_spoke_account = λ k s. remove_account k (s.held.spoke_accounts k) s;
    create_token = λ _ n s. (ok (b'e' ∷ token, add s.clock (times n second)), s);
    review_token = λ _ s. (ok true, s);
    read_file = λ _ s. (err (not_found "no such file"), s);
    now = λ s. s.clock;
    set_status_condition = λ _. put_condition;
    whole_seconds = λ d. divided d second;
    jwt = library user;
  }

  fetch_lem :
      {A : Type 0} (v : Option A) (s : Memory)
      → Ends
          (λ a t. (v ≡ some a) × (t.held ≡ s.held))
          (λ e t. (is_not_found e ≡ true → v ≡ none) × (t.held ≡ s.held))
          (fetch v s)
  fetch_lem none s = Ends-err (λ _. refl, refl)
  fetch_lem (some a) s = Ends-ok (refl, refl)

  pub memory-IsLawful : IsLawful memory
  memory-IsLawful = record {
    reads_account = λ k s. fetch_lem (s.held.accounts k) s;
    reads_secret = λ k s. fetch_lem (s.held.secrets k) s;
    reads_spoke_account = λ k s. fetch_lem (s.held.spoke_accounts k) s;
    creates_secret = λ x s. Ends-ok refl;
    updates_secret = λ x s. Ends-ok refl;
    updates_status = λ m s. Ends-ok refl;
    creates_spoke_account =
        λ x s. create_account_lem x (s.held.spoke_accounts (key_of x.metadata)) s refl;
    deletes_spoke_account = λ k s. remove_account_lem k (s.held.spoke_accounts k) s refl;
    creates_token = λ k n s. Ends-ok (λ h. cc (h), refl);
    reviews_token = λ b s. Ends-ok refl;
    reads_file = λ p s. Ends-err refl;
    sets_condition = λ _. put_condition_sets;
    keeps_condition = λ _. put_condition_keeps;
    repeats_condition = λ _. put_condition_repeats;
    jwt_lawful = record { matches_iff = λ namespace name u. eq_iff u (username namespace name) };
  }
