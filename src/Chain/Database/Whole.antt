-- ===== src/Chain/Database/Whole.antt =====
-- `mine` where every call succeeds: the `mine` of Chain/Mine.
use manhattan_group.Base.{ℕ, ◌≡◌, refl, Bool, List, Option, some, length, inl, inr, Option-cases}
use manhattan_group.Base.{ℤ, pos}
use manhattan_group.Vm.Outcome.{ok, ◌>>=◌, bind-ok}
use manhattan_group.Chain.Block.{Block}
use manhattan_group.Chain.Miner.{create_block}
use manhattan_group.Chain.Rows.{Row, start_blockchain, add_block}
use manhattan_group.Chain.Mine.{mine, get_previous_hash, insert_row, started}
use manhattan_group.Chain.Database.{
  Answers, Succeeds, start_answered, pool_rows, text_of, previous_answered, add_answered,
  create_answered, insertion, mine_answered,
}

module _ (a : Answers) (s : Succeeds a) where
  start_answered-started :
      (now : ℤ) (table : List Row)
      → (start_answered a now table).1 ≡ started table (start_blockchain (length table) now)
  unfolding start_answered
  start_answered-started now table = rw (s.0, s.2, s.1) refl

  pool_rows-ok : (pool : List (List (Option (List ℕ)))) → pool_rows a pool ≡ ok pool
  unfolding pool_rows
  pool_rows-ok pool = rw (s.3, s.4, s.5) refl

  previous-text_of :
      (earlier : Bool) (table : List Row)
      → previous_answered a earlier table ≡ text_of (get_previous_hash earlier table)
  unfolding previous_answered
  previous-text_of earlier table = rw (s.6, s.7, s.8) refl

  add_answered-add_block : (b : Block) → add_answered a b ≡ (add_block b >>= λ row. ok (some row))
  unfolding add_answered
  add_answered-add_block b = rw (s.9, s.10, s.11) refl

  create_answered-create_block :
      (sha384 : List ℕ → List ℕ) (earlier : Bool) (fresh : Block)
      (pool : List (List (Option (List ℕ)))) (now : ℤ) (table : List Row)
      → create_answered sha384 a earlier fresh pool now table
        ≡ create_block sha384 fresh pool (get_previous_hash earlier table) now
  unfolding create_answered create_block
  create_answered-create_block sha384 earlier fresh pool now table =
      rw (pool_rows-ok pool, previous-text_of earlier table)
        (elim (Option-cases (get_previous_hash earlier table)) [
          | inl e ↦ rw e refl
          | inr (h, e) ↦ rw e refl
        ])

  -- Where every call succeeds and `mine` comes to a table, `mine_answered` leaves that table.
  pub mine_answered-mine :
      (sha384 : List ℕ → List ℕ) (earlier : Bool) (fresh : Block)
      (pool : List (List (Option (List ℕ)))) (before now : ℤ) (table after : List Row)
      → mine sha384 earlier fresh pool before now table ≡ ok after
      → mine_answered sha384 a earlier fresh pool before now table ≡ (ok after, ok (pos 0))
  unfolding mine mine_answered insertion
  mine_answered-mine sha384 earlier fresh pool before now table after e =
      let begun = started table (start_blockchain (length table) before) in
      let (c, made, e₁) =
        bind-ok (create_block sha384 fresh pool (get_previous_hash earlier begun) now) _ after e in
      let (row, added, e₂) = bind-ok (add_block c) (λ r. ok (insert_row begun r)) after e₁ in
      rw
        (
          start_answered-started before table,
          create_answered-create_block sha384 earlier fresh pool now begun,
          made,
          add_answered-add_block c,
          added,
        )
        (cc)
