-- ===== src/Net/Nodes/Merge.antt =====
-- What `process_nodes_db` of node_discovery/functions.h makes of two tables.
use manhattan_group.Base.{
  ℕ, ◌+◌, ◌≡◌, refl, sym, ◌∙◌, ap, Bool, true, false, ◌&&◌, List, [], ◌∷◌, Option, none, some,
  if◌then◌else◌, if_holds, All,
}
use mathlib.Core.Path.{subst}
use mathlib.Core.Option.{some-injective, none-ne-some}
use manhattan_group.Net.Nodes.{
  NodeRow, Address, address, same_address, first_of, NodeStore, IsLawful, ProcessCalls, insert_rows,
  process_nodes_db, finish_process, Processed,
}

-- The first row of an address.
abbrev pub find_row : List NodeRow → Address → Option NodeRow
find_row [] a = none
find_row (row ∷ rows) a =
    first_of (if same_address a (address row) then some row else none) (find_row rows a)

pub first_of-none {ℓ} : {A : Type ℓ} (o : Option A) → first_of o none ≡ o
first_of-none none = refl
first_of-none (some m) = refl

pub first_of_assoc {ℓ} :
    {A : Type ℓ} (x y z : Option A) → first_of (first_of x y) z ≡ first_of x (first_of y z)
first_of_assoc none y z = refl
first_of_assoc (some a) y z = refl

abbrev pub all_well : ProcessCalls
all_well = record {
  opened = true;
  opened_temp = true;
  selected = true;
  prepared = λ i. true;
  stepped = λ i. true;
  unlinked = true;
}

module _ (S : NodeStore) where
  -- Every entry satisfies a predicate.
  abbrev pub AllEntries {ℓ} : (NodeRow → Type ℓ) → S.State → Type ℓ
  AllEntries P s = (a : Address) (row : NodeRow) → S.entry s a ≡ some row → P row

  -- No entry is lost or changed.
  abbrev pub Keeps : S.State → S.State → Type 0
  Keeps s t = (a : Address) (row : NodeRow) → S.entry s a ≡ some row → S.entry t a ≡ some row

module _ (S : NodeStore) (L : IsLawful S) where
  insert_rows-entry :
      (i : ℕ) (rows : List NodeRow) (s : S.State)
      → (t : S.State) × (insert_rows S all_well i rows s ≡ (true, t))
        × ((a : Address) → S.entry t a ≡ first_of (S.entry s a) (find_row rows a))
  unfolding insert_rows
  insert_rows-entry i [] s = (s, refl, λ a. sym (first_of-none (S.entry s a)))
  insert_rows-entry i (row ∷ rows) s =
      let (t, e, h) = insert_rows-entry (i + 1) rows (S.insert s row) in
      (
        t,
        e,
        λ a.
            h a
            ∙ ap (λ o. first_of o (find_row rows a)) (L.entry-insert s row a)
            ∙ first_of_assoc (S.entry s a) _ (find_row rows a),
      )

  -- Where every call succeeds, `process_nodes_db` returns 0, removes the received table, and leaves the
  -- union of the two tables: the entry of an address is the one that the node had, or else the first
  -- one of the received rows.
  pub process_nodes_db_lem :
      (rows_of : List ℕ → List NodeRow) (s : S.State) (file : List ℕ)
      → (t : S.State) × (process_nodes_db S rows_of all_well s (some file) ≡ (0, (t, none)))
        × ((a : Address) → S.entry t a ≡ first_of (S.entry s a) (find_row (rows_of file) a))
  unfolding process_nodes_db
  process_nodes_db_lem rows_of s file =
      let (t, e, h) = insert_rows-entry 0 (rows_of file) s in
      (t, ap (finish_process S all_well file) e, h)

  pub insert-Keeps : (s : S.State) (row : NodeRow) → Keeps S s (S.insert s row)
  insert-Keeps s row a m e =
      L.entry-insert s row a
      ∙ ap (λ o. first_of o (if same_address a (address row) then some row else none)) e

  pub insert-AllEntries {ℓ} :
      (P : NodeRow → Type ℓ) (s : S.State) (row : NodeRow)
      → AllEntries S P s
      → P row
      → AllEntries S P (S.insert s row)
  insert-AllEntries P s row h p a m e =
      by_entry (S.entry s a) (same_address a (address row)) (h a m)
        (sym (L.entry-insert s row a) ∙ e)
    where
      by_entry :
          (o : Option NodeRow) (b : Bool)
          → (o ≡ some m → P m)
          → first_of o (if b then some row else none) ≡ some m
          → P m
      by_entry (some old) b k e = k e
      by_entry none true k e = subst P (some-injective row m e) p
      by_entry none false k e = absurd (none-ne-some m e)

  insert_rows-Keeps :
      (calls : ProcessCalls) (i : ℕ) (rows : List NodeRow) (s : S.State)
      → Keeps S s ((insert_rows S calls i rows s).1)
  unfolding insert_rows
  insert_rows-Keeps calls i [] s = λ a m e. e
  insert_rows-Keeps calls i (row ∷ rows) s =
      if_holds (λ (r : Bool × S.State). Keeps S s (r.1)) (calls.prepared i)
        (λ a m e.
          insert_rows-Keeps calls (i + 1) rows (if calls.stepped i then S.insert s row else s) a m
            (if_holds (Keeps S s) (calls.stepped i) (insert-Keeps s row) (λ a m e. e) a m e))
        (λ a m e. e)

  insert_rows-AllEntries {ℓ} :
      (P : NodeRow → Type ℓ) (calls : ProcessCalls) (i : ℕ) (rows : List NodeRow) (s : S.State)
      → All P rows
      → AllEntries S P s
      → AllEntries S P ((insert_rows S calls i rows s).1)
  unfolding insert_rows
  insert_rows-AllEntries P calls i [] s ps h = h
  insert_rows-AllEntries P calls i (row ∷ rows) s (p, ps) h =
      if_holds (λ (r : Bool × S.State). AllEntries S P (r.1)) (calls.prepared i)
        (insert_rows-AllEntries P calls (i + 1) rows (if calls.stepped i then S.insert s row else s)
          ps (if_holds (AllEntries S P) (calls.stepped i) (insert-AllEntries P s row h p) h))
        h

  -- However its calls end, `process_nodes_db` loses and changes no entry.
  pub process_nodes_db-Keeps :
      (rows_of : List ℕ → List NodeRow) (calls : ProcessCalls) (s : S.State)
      (temp : Option (List ℕ))
      → Keeps S s ((process_nodes_db S rows_of calls s temp).1.0)
  unfolding process_nodes_db
  process_nodes_db-Keeps rows_of calls s none = λ a m e. e
  process_nodes_db-Keeps rows_of calls s (some file) =
      if_holds (λ (r : Processed S). Keeps S s (r.1.0))
        (calls.opened && calls.opened_temp && calls.selected)
        (finished (insert_rows S calls 0 (rows_of file) s)
          (insert_rows-Keeps calls 0 (rows_of file) s))
        (λ a m e. e)
    where
      finished :
          (r : Bool × S.State) → Keeps S s (r.1) → Keeps S s ((finish_process S calls file r).1.0)
      finished (false, t) k = k
      finished (true, t) k = k

  pub process_nodes_db-AllEntries {ℓ} :
      (P : NodeRow → Type ℓ) (rows_of : List ℕ → List NodeRow) (calls : ProcessCalls) (s : S.State)
      (temp : Option (List ℕ))
      → ((file : List ℕ) → temp ≡ some file → All P (rows_of file))
      → AllEntries S P s
      → AllEntries S P ((process_nodes_db S rows_of calls s temp).1.0)
  unfolding process_nodes_db
  process_nodes_db-AllEntries P rows_of calls s none ps h = h
  process_nodes_db-AllEntries P rows_of calls s (some file) ps h =
      if_holds (λ (r : Processed S). AllEntries S P (r.1.0))
        (calls.opened && calls.opened_temp && calls.selected)
        (finished (insert_rows S calls 0 (rows_of file) s)
          (insert_rows-AllEntries P calls 0 (rows_of file) s (ps file refl) h))
        h
    where
      finished :
          (r : Bool × S.State)
          → AllEntries S P (r.1)
          → AllEntries S P ((finish_process S calls file r).1.0)
      finished (false, t) k = k
      finished (true, t) k = k

  -- It leaves `nodes_.db` as it is, or removes it.
  pub process_nodes_db-temp :
      (rows_of : List ℕ → List NodeRow) (calls : ProcessCalls) (s : S.State)
      (temp : Option (List ℕ)) (file : List ℕ)
      → (process_nodes_db S rows_of calls s temp).1.1 ≡ some file
      → temp ≡ some file
  unfolding process_nodes_db
  process_nodes_db-temp rows_of calls s none file = λ e. e
  process_nodes_db-temp rows_of calls s (some old) file =
      if_holds (λ (r : Processed S). (r.1.1 ≡ some file → some old ≡ some file))
        (calls.opened && calls.opened_temp && calls.selected)
        (finished (insert_rows S calls 0 (rows_of old) s)) (λ e. e)
    where
      finished :
          (r : Bool × S.State)
          → (finish_process S calls old r).1.1 ≡ some file
          → some old ≡ some file
      finished (false, t) = λ e. e
      finished (true, t) =
          if_holds (λ (o : Option (List ℕ)). (o ≡ some file → some old ≡ some file)) calls.unlinked
            (λ e. absurd (none-ne-some file e)) (λ e. e)
