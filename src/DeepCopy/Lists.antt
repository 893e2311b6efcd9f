-- ===== src/DeepCopy/Lists.antt =====
-- That the copy of a list of objects shows the same objects, and shares nothing with the original.
use managed_serviceaccount.Prelude.{
  String, ℕ, Has, Option, inl, inr, ap, none, some, List, [], ◌∷◌, ◌++◌, ◌≡◌, refl, ◌∙◌,
}
use managed_serviceaccount.Prelude.Int.{ℤ}
use managed_serviceaccount.Api.{ManagedServiceAccount}
use managed_serviceaccount.DeepCopy.Cells.{
  AccountCell, Cell, accounts, int64, Store, write, grown, IsBounded, Keeps, Keeps-trans,
  grown-Copies, free_before, write-Keeps, new_cell, >>=-returns,
}
use managed_serviceaccount.DeepCopy.{
  ListCell, copy_account, copy_pointer, copy_items, items_of, copy_found, copy_array, copy_list,
  deep_copy_list,
}
use managed_serviceaccount.DeepCopy.Independent.{
  Points, pointer, Points-Keeps, copy_pointer-Pointed, Shows, pointers, Shows-Keeps, Has-append,
  copy_account-IsCopy,
}

-- The objects that stand in a store, in order.
abbrev pub ShowsAll : Store → List AccountCell → List ManagedServiceAccount → Type 0
ShowsAll h [] [] = Unit
ShowsAll h (c ∷ cs) (m ∷ ms) = Shows h c m × ShowsAll h cs ms
ShowsAll h _ _ = ⊥

abbrev pub all_pointers : List AccountCell → List ℕ
all_pointers [] = []
all_pointers (c ∷ cs) = pointers c ++ all_pointers cs

ShowsAll-Keeps :
    (h g : Store) (cs : List AccountCell) (ms : List ManagedServiceAccount)
    → Keeps h g
    → ShowsAll h cs ms
    → ShowsAll g cs ms
ShowsAll-Keeps h g [] [] keeps s = tt
ShowsAll-Keeps h g (c ∷ cs) (m ∷ ms) keeps s =
    (Shows-Keeps h g c m keeps s.0, ShowsAll-Keeps h g cs ms keeps s.1)
ShowsAll-Keeps h g [] (m ∷ ms) keeps s = absurd s
ShowsAll-Keeps h g (c ∷ cs) [] keeps s = absurd s

record AreCopies (h : Store) (ms : List ManagedServiceAccount) (outs : List AccountCell)
    (after : Store) : Type 0 where
  bounded : IsBounded after
  keeps : Keeps h after
  shown : ShowsAll after outs ms
  is_fresh : (q : ℕ) → Has q (all_pointers outs) → h.cell q ≡ none

copy_items-AreCopies :
    (h : Store) (cs : List AccountCell) (ms : List ManagedServiceAccount)
    → IsBounded h
    → ShowsAll h cs ms
    → (outs : List AccountCell) × (after : Store) × (copy_items cs h ≡ some (outs, after))
      × AreCopies h ms outs after
unfolding copy_items
copy_items-AreCopies h [] [] b s = (
  [],
  h,
  refl,
  record { bounded = b; keeps = λ p v e. e; shown = tt; is_fresh = λ q i. absurd i },
)
copy_items-AreCopies h (c ∷ cs) (m ∷ ms) b s =
    let (out, mid, returned, copy) = copy_account-IsCopy h c m b s.0 in
    let (outs, after, rest, copies) =
      copy_items-AreCopies mid cs ms copy.bounded (ShowsAll-Keeps h mid cs ms copy.keeps s.1) in
    (
      out ∷ outs,
      after,
      >>=-returns (copy_account c) _ h mid out returned
          ∙ >>=-returns (copy_items cs) _ mid after outs rest,
      record {
        bounded = copies.bounded;
        keeps = Keeps-trans h mid after copy.keeps copies.keeps;
        shown = (Shows-Keeps mid after out m copies.keeps copy.shown, copies.shown);
        is_fresh = λ q i.
            Has-append q (pointers out) (all_pointers outs) (copy.is_fresh q)
              (λ j. free_before h mid q copy.keeps (copies.is_fresh q j)) i;
      },
    )
copy_items-AreCopies h [] (m ∷ ms) b s = absurd s
copy_items-AreCopies h (c ∷ cs) [] b s = absurd s

-- A list of objects with its ListMeta.
pub record AccountList : Type 0 where
  pub self_link : String
  pub resource_version : String
  pub continue_token : String
  pub remaining_item_count : Option ℤ
  pub items : Option (List ManagedServiceAccount)

-- The array of objects that stands in a store; there is none behind nil.
abbrev pub ShowsItems : Store → Option ℕ → Option (List ManagedServiceAccount) → Type 0
ShowsItems h none none = Unit
ShowsItems h (some p) (some ms) =
    (cs : List AccountCell) × (h.cell p ≡ some (accounts cs)) × ShowsAll h cs ms
ShowsItems h _ _ = ⊥

-- The list that stands in a store.
pub record ShowsList (h : Store) (c : ListCell) (l : AccountList) : Type 0 where
  pub self_link_same : c.self_link ≡ l.self_link
  pub resource_version_same : c.resource_version ≡ l.resource_version
  pub continue_same : c.continue_token ≡ l.continue_token
  pub remaining_shown : Points int64 h c.remaining_item_count l.remaining_item_count
  pub items_shown : ShowsItems h c.items l.items

-- The addresses that a list reaches in a store: those of its parts, and of the objects in its array.
abbrev pub in_array : Option (List AccountCell) → List ℕ
in_array none = []
in_array (some cs) = all_pointers cs

abbrev pub array_pointers : Store → Option ℕ → List ℕ
unfolding items_of
array_pointers h none = []
array_pointers h (some p) = p ∷ in_array (items_of (h.cell p))

abbrev pub list_pointers : Store → ListCell → List ℕ
list_pointers h c = pointer c.remaining_item_count ++ array_pointers h c.items

ShowsItems-Keeps :
    (h g : Store) (o : Option ℕ) (v : Option (List ManagedServiceAccount))
    → Keeps h g
    → ShowsItems h o v
    → ShowsItems g o v
ShowsItems-Keeps h g none none keeps s = tt
ShowsItems-Keeps h g (some p) (some ms) keeps (cs, e, s) =
    (cs, keeps p (accounts cs) e, ShowsAll-Keeps h g cs ms keeps s)
ShowsItems-Keeps h g none (some ms) keeps s = absurd s
ShowsItems-Keeps h g (some p) none keeps s = absurd s

ShowsList-Keeps :
    (h g : Store) (c : ListCell) (l : AccountList) → Keeps h g → ShowsList h c l → ShowsList g c l
ShowsList-Keeps h g c l keeps s = record {
  self_link_same = s.self_link_same;
  resource_version_same = s.resource_version_same;
  continue_same = s.continue_same;
  remaining_shown = Points-Keeps int64 h g _ _ keeps s.remaining_shown;
  items_shown = ShowsItems-Keeps h g _ _ keeps s.items_shown;
}

-- What a copied array is.
record Arrayed (h : Store) (o : Option ℕ) (v : Option (List ManagedServiceAccount)) : Type 0 where
  out : Option ℕ
  after : Store
  returns : copy_array o h ≡ some (out, after)
  bounded : IsBounded after
  keeps : Keeps h after
  shown : ShowsItems after out v
  is_fresh : (q : ℕ) → Has q (array_pointers after out) → h.cell q ≡ none

copy_array-Arrayed :
    (h : Store) (o : Option ℕ) (v : Option (List ManagedServiceAccount))
    → IsBounded h
    → ShowsItems h o v
    → Arrayed h o v
unfolding copy_array copy_found items_of new_cell
copy_array-Arrayed h none none b s = record {
  out = none;
  after = h;
  returns = refl;
  bounded = b;
  keeps = λ p v x. x;
  shown = tt;
  is_fresh = λ q i. absurd i;
}
copy_array-Arrayed h (some p) (some ms) b (cs, e, s) =
    let (outs, mid, returned, copies) = copy_items-AreCopies h cs ms b s in
    let array = grown-Copies mid (accounts outs) copies.bounded in
    record {
      out = some mid.next;
      after = grown (accounts outs) mid;
      returns =
          ap (λ o. copy_found (items_of o) h) e ∙ >>=-returns (copy_items cs) _ h mid outs returned;
      bounded = array.bounded;
      keeps = Keeps-trans h mid (grown (accounts outs) mid) copies.keeps array.keeps;
      shown = (outs, array.filled, ShowsAll-Keeps mid _ outs ms array.keeps copies.shown);
      is_fresh = λ q i. elim i [
        | inl same ↦ ap h.cell same ∙ free_before h mid mid.next copies.keeps array.is_fresh
        | inr later ↦
            copies.is_fresh q (coe 0 1 (j. Has q (in_array (items_of (array.filled j)))) later)
      ];
    }
copy_array-Arrayed h none (some ms) b s = absurd s
copy_array-Arrayed h (some p) none b s = absurd s

-- DeepCopy of a list: it succeeds, the copy shows the same ListMeta and the same objects in the same
-- order, the original shows what it did, and a write at any address that the copy reaches, that of its
-- array and of its count included, changes nothing of what the original shows.
pub copy_list_independent :
    (h : Store) (c : ListCell) (l : AccountList)
    → IsBounded h
    → ShowsList h c l
    → (out : ListCell) × (after : Store) × (deep_copy_list (some c) h ≡ some (some out, after))
      × ShowsList after out l
      × ShowsList after c l
      × ((p : ℕ) (x : Cell) → Has p (list_pointers after out) → ShowsList (write p x after) c l)
unfolding deep_copy_list copy_list
copy_list_independent h c l b s =
    let count =
      copy_pointer-Pointed int64 h c.remaining_item_count l.remaining_item_count b
        s.remaining_shown in
    let s₁ = ShowsList-Keeps h count.after c l count.keeps s in
    let array = copy_array-Arrayed count.after c.items l.items count.bounded s₁.items_shown in
    let keeps = Keeps-trans h count.after array.after count.keeps array.keeps in
    let out = record c { remaining_item_count = count.out; items = array.out } in
    let returned =
      >>=-returns (copy_pointer c.remaining_item_count) _ h count.after count.out count.returns
      ∙ >>=-returns (copy_array c.items) _ count.after array.after array.out array.returns in
    let is_fresh : (q : ℕ) → Has q (list_pointers array.after out) → h.cell q ≡ none = λ q.
      Has-append q _ _ (count.is_fresh q)
        (λ j. free_before h count.after q count.keeps (array.is_fresh q j)) in
    (
      out,
      array.after,
      >>=-returns (copy_list c) _ h array.after out returned,
      record {
        self_link_same = s.self_link_same;
        resource_version_same = s.resource_version_same;
        continue_same = s.continue_same;
        remaining_shown = Points-Keeps int64 count.after array.after _ _ array.keeps count.shown;
        items_shown = array.shown;
      },
      ShowsList-Keeps h array.after c l keeps s,
      λ p x i.
          ShowsList-Keeps h (write p x array.after) c l
            (write-Keeps h array.after p x keeps (is_fresh p i)) s,
    )
