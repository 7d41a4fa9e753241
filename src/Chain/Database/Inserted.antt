-- ===== src/Chain/Database/Inserted.antt =====
-- The row that a call of `mine` inserts.
use manhattan_group.Base.{ℕ, ◌≤◌, ◌<◌, ◌≡◌, ◌∙◌, ap, Bool, List, length, Option, some, All, arith}
use native.Mathlib.Decide.{dec_lt}
use manhattan_group.Base.{ℤ, pos}
use manhattan_group.Vm.Outcome.{ok, ◌>>=◌, bind-ok}
use manhattan_group.Chain.Text.{IsNonzero, c_string, write_text}
use manhattan_group.Chain.Block.{Block}
use manhattan_group.Chain.Miner.{bundle_text, create_block, hash_block}
use manhattan_group.Chain.Miner.Create.{create_block-long, create_block-fields}
use manhattan_group.Chain.Rows.{Row, to_int32, add_block}
use manhattan_group.Chain.Mine.{get_previous_hash}
use manhattan_group.Chain.Database.{
  Answers, pool_rows, previous_answered, add_answered, create_answered, insertion,
}

-- A text that was copied is that of the newest row.
previous-ok :
    (a : Answers) (earlier : Bool) (table : List Row) (h : List ℕ)
    → previous_answered a earlier table ≡ ok h
    → get_previous_hash earlier table ≡ some h
unfolding previous_answered
previous-ok a earlier table h e = ground arith

-- The fields of a row that is inserted.
add_answered-fields :
    (a : Answers) (b : Block) (row : Row)
    → add_answered a b ≡ ok (some row)
    → (c_string b.block_hash_hex ≡ ok row.block_hash)
      × (c_string b.previous_hash ≡ ok row.previous_hash)
      × (row.timestamp ≡ to_int32 b.timestamp)
unfolding add_answered add_block
add_answered-fields a b row e = ground arith

module _ (sha384 : List ℕ → List ℕ) (size : (text : List ℕ) → length (sha384 text) ≡ 48)
    (earlier : Bool) where
  module _ (a : Answers) (fresh : Block) (pool : List (List (Option (List ℕ)))) (now : ℤ)
      (table : List Row) where
    created :
        (rows : List (List (Option (List ℕ)))) (output bundle h : List ℕ) (c : Block)
        → bundle_text rows ≡ ok output
        → write_text fresh.transaction_bundle 0 output ≡ ok bundle
        → (write_text fresh.previous_hash 0 h >>= λ link. hash_block sha384 (record fresh {
          timestamp = now;
          transaction_bundle = bundle;
          previous_hash = link;
          transaction_count = pos (length rows);
          nonce = pos 0;
        }))
          ≡ ok c
        → create_block sha384 fresh rows (some h) now ≡ ok c
    unfolding create_block
    created rows output bundle h c e₁ e₂ e = rw (e₁, e₂) e

    created-ok :
        (c : Block)
        → create_answered sha384 a earlier fresh pool now table ≡ ok c
        → (rows : List (List (Option (List ℕ)))) × (h : List ℕ) × (get_previous_hash earlier table
            ≡ some h)
          × (create_block sha384 fresh rows (some h) now ≡ ok c)
    unfolding create_answered
    created-ok c e =
        let (rows, e₁, e₂) = bind-ok (pool_rows a pool) _ c e in
        let (output, e₃, e₄) = bind-ok (bundle_text rows) _ c e₂ in
        let (bundle, e₅, e₆) = bind-ok (write_text fresh.transaction_bundle 0 output) _ c e₄ in
        let (h, e₇, e₈) = bind-ok (previous_answered a earlier table) _ c e₆ in
        (rows, h, previous-ok a earlier table h e₇, created rows output bundle h c e₃ e₅ e₈)

    -- The row that is inserted, in terms of the newest row of the table.
    pub insertion-fields :
        (row : Row)
        → length fresh.previous_hash ≡ 96
        → length fresh.block_hash_hex ≡ 128
        → insertion sha384 a earlier fresh pool now table ≡ ok (some row)
        → (h : List ℕ) × (get_previous_hash earlier table ≡ some h)
          × (length h < 96)
          × (All IsNonzero h → row.previous_hash ≡ h)
          × (96 ≤ length row.block_hash)
          × (row.timestamp ≡ to_int32 now)
    unfolding insertion
    insertion-fields row link_room hex_room e =
        let (c, made, stored) =
          bind-ok (create_answered sha384 a earlier fresh pool now table) (add_answered a)
            (some row) e in
        let (rows, h, found, block) = created-ok c made in
        let (hash, link, time) = add_answered-fields a c row stored in
        let (time', link', long) =
          create_block-fields sha384 size fresh c rows h now hex_room block in
        (
          h,
          found,
          elim (dec_lt (length h) 96) [
            | yes short ↦ short
            | no not_short ↦ absurd (
                create_block-long sha384 size fresh c rows h now
                  (omega (arith, link_room, not_short)) block)
          ],
          λ text. cc (link' text),
          long row.block_hash hash,
          time ∙ ap to_int32 time',
        )
