-- ===== src/Wallet/Table.antt =====
-- `print_table` of blockchain_cryptocurrency/wallet.c and its `callback`.
use manhattan_group.Base.{
  ℕ, ◌<◌, ◌≡◌, refl, ap, Bool, true, List, [], ◌∷◌, ◌++◌, length, Option, none, some, ltb,
  if◌then◌else◌, arith,
}
use manhattan_group.Vm.Outcome.{Result, ok, undefined}

-- The columns of a row: the name, and the text, or a null pointer.
abbrev pub Columns : Type 0
Columns = List (List ℕ × Option (List ℕ))

-- "NULL" for a null pointer.
abbrev pub shown : Option (List ℕ) → List ℕ
shown none = 78 ∷ 85 ∷ 76 ∷ 76 ∷ []
shown (some text) = text

-- A line for each column, "name = text", and an empty one.
unfoldable pub callback : Columns → List ℕ
callback [] = 10 ∷ []
callback ((col_name, argv) ∷ row) = col_name ++ 32 ∷ 61 ∷ 32 ∷ shown argv ++ 10 ∷ callback row

abbrev pub print_rows : List Columns → List ℕ
print_rows [] = []
print_rows (row ∷ rows) = callback row ++ print_rows rows

-- "SELECT * FROM " and the name of the table.
abbrev pub select_all : List ℕ → List ℕ
select_all table_name =
    83 ∷ 69 ∷ 76 ∷ 69 ∷ 67 ∷ 84 ∷ 32 ∷ 42 ∷ 32 ∷ 70 ∷ 82 ∷ 79 ∷ 77 ∷ 32 ∷ table_name

-- What is printed on the standard output. `select` says for which rows of a query SQLite calls the
-- callback; it does so before it reports an error. `sql` has 4096 bytes.
unfoldable pub print_table : (List ℕ → List Columns) → Bool → List ℕ → Result (List ℕ)
print_table select opened table_name =
    if opened
    then (if ltb (length (select_all table_name)) 4096
        then ok (print_rows (select (select_all table_name)))
        else undefined)
    else ok []

-- A null pointer and the text "NULL" print the same.
pub callback-null :
    (front behind : Columns) (col_name : List ℕ)
    → callback (front ++ (col_name, none) ∷ behind)
      ≡ callback (front ++ (col_name, some (shown none)) ∷ behind)
unfolding callback
callback-null [] behind col_name = refl
callback-null ((name, argv) ∷ front) behind col_name =
    ap (λ text. name ++ 32 ∷ 61 ∷ 32 ∷ shown argv ++ 10 ∷ text)
      (callback-null front behind col_name)

-- The names of the tables of the program fit, and so does each of fewer than 4082 bytes.
pub print_table_lem :
    (select : List ℕ → List Columns) (table_name : List ℕ)
    → length table_name < 4082
    → print_table select true table_name ≡ ok (print_rows (select (select_all table_name)))
unfolding print_table
print_table_lem select table_name h = ground arith
