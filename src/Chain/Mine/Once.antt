-- ===== src/Chain/Mine/Once.antt =====
-- `mine` on a new chain.
use manhattan_group.Base.{
  ℕ, suc, ◌+◌, ◌^◌, ◌≤◌, ◌<◌, ◌≡◌, refl, sym, ◌∙◌, ap, Bool, true, false, List, [], ◌∷◌, ◌++◌,
  length, Option, some, All, ◌==◌, ltb, &&_parts, Bool-cases, inl, inr, arith,
}
use manhattan_group.Base.{ℤ, pos, ◌-ℤ◌}
use manhattan_group.Vm.Outcome.{Result, ok, bind-ok, ◌>>=◌}
use manhattan_group.Chain.Text.{IsNonzero, print_ℤ}
use manhattan_group.Chain.Block.{Block}
use manhattan_group.Chain.Miner.{bundle_text, create_block}
use manhattan_group.Chain.Miner.Proof.{IsProof}
use manhattan_group.Chain.Miner.Hex.{hex_text, length-hex_text}
use manhattan_group.Chain.Miner.Create.{new_text, create_block_lem, create_block-long}
use manhattan_group.Chain.Rows.{Row, to_int32, epoch, start_blockchain, add_block}
use manhattan_group.Chain.Rows.First.{epoch-IsNonzero}
use manhattan_group.Chain.Mine.{newest, get_previous_hash, insert_row, later_row, mine}
use manhattan_group.Net.Nodes.{same_text}

same_text-length : (xs ys : List ℕ) → same_text xs ys ≡ true → length xs ≡ length ys
same_text-length [] [] e = refl
same_text-length [] (y ∷ ys) e = absurd (cc)
same_text-length (x ∷ xs) [] e = absurd (cc)
same_text-length (x ∷ xs) (y ∷ ys) e =
    ap suc (same_text-length xs ys (&&_parts (x == y) (same_text xs ys) e).1)

pub other_length : (xs ys : List ℕ) → length xs < length ys → same_text xs ys ≡ false
other_length xs ys h = elim (Bool-cases (same_text xs ys)) [
  | inl e ↦ absurd (omega (arith, same_text-length xs ys e))
  | inr e ↦ e
]

-- The row of `start_blockchain`, at a time that is not 0.
abbrev pub genesis_row : ℕ → Row
genesis_row b = record {
  block_hash = epoch;
  previous_hash = epoch;
  block_data = epoch;
  transaction_count = pos 0;
  timestamp = pos b;
  nonce = pos 0;
}

pub time_before : (b : ℕ) → b < 2 ^ 31 → to_int32 (pos (suc b) -ℤ pos 1) ≡ pos b
unfolding ◌-ℤ◌
time_before b h = ground arith

pub time_now : (t : ℕ) → t < 2 ^ 31 → to_int32 (pos t) ≡ pos t
time_now t h = ground arith

module _ (sha384 : List ℕ → List ℕ) (size : (text : List ℕ) → length (sha384 text) ≡ 48)
    (earlier : Bool) where
  -- With the digits of a hash in the newest row no block is made.
  no_second :
      (b t : ℕ) (row : Row) (fresh : Block) (pool : List (List (Option (List ℕ)))) (before now : ℤ)
      (table : List Row)
      → b < t
      → row.timestamp ≡ pos t
      → 96 ≤ length row.block_hash
      → length fresh.previous_hash ≡ 96
      → ¬ (mine sha384 earlier fresh pool before now (genesis_row b ∷ row ∷ []) ≡ ok table)
  unfolding mine get_previous_hash newest start_blockchain
  no_second b t row fresh pool before now table order time long room e =
      let last : later_row earlier (genesis_row b) (some row) ≡ row =
        rw (time, is_later b t order) refl in
      let (d, made, rest) =
        bind-ok
          (create_block sha384 fresh pool
            (some (later_row earlier (genesis_row b) (some row)).block_hash) now)
          _ table e in
      create_block-long sha384 size fresh d pool row.block_hash now (omega (arith, long, room))
        (ap (λ (r : Row). create_block sha384 fresh pool (some r.block_hash) now) (sym last) ∙ made)
    where
      is_later : (b t : ℕ) → b < t → ltb (b + 0) (t + 0) ≡ true
      is_later b t h = ground arith

  -- On an empty table `mine` stores the genesis row and one mined row, which carries the genesis row's
  -- hash as its previous hash and the text of the transaction pool; and from the table that it leaves
  -- no call of `mine`, with whatever pool and times, comes to a table: the copy of the mined row's hash
  -- runs out of the 96 bytes of `previous_hash`. (The hash has 48 bytes, the text fits into the bundle,
  -- the arrays have room, some nonce below 2 ^ 31 gives three zero bytes, and the times lie below
  -- 2 ^ 31, the block's not before the genesis row's.)
  pub mine_once :
      (fresh later : Block) (pool pool' : List (List (Option (List ℕ)))) (output : List ℕ)
      (b t n : ℕ) (before now : ℤ) (table : List Row)
      → bundle_text pool ≡ ok output
      → All IsNonzero output
      → length output < length fresh.transaction_bundle
      → length fresh.previous_hash ≡ 96
      → length fresh.block_hash_hex ≡ 128
      → n < 2 ^ 31
      → IsProof sha384 (new_text fresh pool output epoch (pos t)) n
      → b < t
      → t < 2 ^ 31
      → length later.previous_hash ≡ 96
      → (row : Row) × (mine sha384 earlier fresh pool (pos (suc b)) (pos t) []
          ≡ ok (genesis_row b ∷ row ∷ []))
        × (row.previous_hash ≡ epoch)
        × (row.block_data ≡ output)
        × (¬ (mine sha384 earlier later pool' before now (genesis_row b ∷ row ∷ []) ≡ ok table))
  unfolding mine get_previous_hash newest start_blockchain add_block
  mine_once fresh later pool pool' output b t n before now table at out room link_room hex_room
        small p order young later_room =
      let (c, k, made, bundle, link, time, count, nonce, hash, digits, least) =
        create_block_lem sha384 size fresh pool output epoch (pos t) n at out epoch-IsNonzero room
          (omega arith) hex_room small p in
      let row : Row = record {
        block_hash = hex_text c.block_hash;
        previous_hash = epoch;
        block_data = output;
        transaction_count = c.transaction_count;
        timestamp = to_int32 c.timestamp;
        nonce = c.nonce;
      } in
      let long : 96 ≤ length (hex_text c.block_hash) = omega (
        arith,
        length-hex_text c.block_hash,
        ap length hash,
        size (new_text fresh pool output epoch (pos t) ++ print_ℤ (pos k)),
      ) in
      let stored_in : ℤ → Result Block → Result (List Row) = λ at_time made_block.
        made_block >>= λ new_block. add_block new_block >>= λ r.
        ok (insert_row (record (genesis_row b) { timestamp = at_time } ∷ []) r) in
      let finish : ℤ → Result (List Row) =
        λ at_time. stored_in at_time (create_block sha384 fresh pool (some epoch) (pos t)) in
      let new : same_text epoch (hex_text c.block_hash) ≡ false =
        other_length epoch (hex_text c.block_hash) (omega (arith, long)) in
      let inserted : stored_in (pos b) (ok c) ≡ ok (genesis_row b ∷ row ∷ []) =
        rw (digits, link, bundle, new) refl in
      (
        row,
        ap finish (time_before b (omega arith)) ∙ ap (stored_in (pos b)) made ∙ inserted,
        refl,
        refl,
        no_second b t row later pool' before now table order (rw time (time_now t young)) long
            later_room,
      )
