-- ===== src/Chain/Miner/Create.antt =====
-- `create_block` of miner.c: the block that it makes, and the one that it cannot make.
use manhattan_group.Base.{
  ℕ, ◌+◌, ◌^◌, ◌≤◌, ◌<◌, ◌≡◌, refl, sym, ◌∙◌, ap, arith, List, ◌∷◌, ◌++◌, length, take, drop,
  le→leb, Option, some, All,
}
use manhattan_group.Base.{ℤ, pos}
use manhattan_group.Vm.Outcome.{ok, undefined, bind-ok}
use manhattan_group.Chain.Text.{c_string, c_string_lem, write_text, print_ℤ, IsNonzero}
use manhattan_group.Chain.Block.{Block, block_text}
use manhattan_group.Chain.Miner.{bundle_text, create_block, hash_block}
use manhattan_group.Chain.Miner.Proof.{Hashed, hash_block-Hashed, IsProof, IsLeast}
use manhattan_group.Chain.Miner.Hex.{hex_text, length-hex_text, write_hex_lem}
use manhattan_group.Chain.Miner.Total.{hash_block_lem}

write_text-long :
    (array text : List ℕ) → length array ≤ length text → write_text array 0 text ≡ undefined
unfolding write_text
write_text-long array text h = ground arith

-- An array after `strcpy`.
abbrev copied : List ℕ → List ℕ → List ℕ
copied array text = take 0 array ++ text ++ 0 ∷ drop (0 + length text + 1) array

write_text-short :
    (array text : List ℕ)
    → length text < length array
    → write_text array 0 text ≡ ok (copied array text)
unfolding write_text
write_text-short array text h = rw (le→leb (0 + length text + 1) (length array) (omega arith)) refl

write_text-copied :
    (array text written : List ℕ)
    → write_text array 0 text ≡ ok written
    → written ≡ copied array text
unfolding write_text
write_text-copied array text written e = ground arith

c_string-copied :
    (array text : List ℕ) → All IsNonzero text → c_string (copied array text) ≡ ok text
c_string-copied array text h = c_string_lem text (drop (0 + length text + 1) array) h

-- The text of the new block, before the nonce.
abbrev pub new_text : Block → List (List (Option (List ℕ))) → List ℕ → List ℕ → ℤ → List ℕ
new_text fresh rows output previous now =
    print_ℤ fresh.block_index ++ previous ++ print_ℤ now ++ print_ℤ (pos (length rows)) ++ output

module _ (sha384 : List ℕ → List ℕ) (size : (text : List ℕ) → length (sha384 text) ≡ 48) where
  -- The digits of a mined hash are 96 characters at least.
  length-mined_digits :
      (b c : Block) (h : List ℕ)
      → length b.block_hash_hex ≡ 128
      → Hashed sha384 b c
      → c_string c.block_hash_hex ≡ ok h
      → 96 ≤ length h
  length-mined_digits b c h room mined shown =
      let hash = sha384 (mined.text ++ print_ℤ (pos mined.n)) in
      let (hex, written, digits) =
        write_hex_lem hash b.block_hash_hex
          (omega (arith, size (mined.text ++ print_ℤ (pos mined.n))))
          (omega (arith, size (mined.text ++ print_ℤ (pos mined.n)))) in
      let shown' : c_string mined.hex ≡ ok h =
        ap (λ (x : Block). c_string x.block_hash_hex) (sym mined.block) ∙ shown in
      let same : mined.hex ≡ hex = cc (mined.written) in
      let text_lem : h ≡ hex_text hash = cc (ap c_string same) in
      omega (
        arith,
        ap length text_lem,
        length-hex_text hash,
        size (mined.text ++ print_ℤ (pos mined.n)),
      )

  -- A previous hash that does not fit into its array.
  pub create_block-long :
      (fresh d : Block) (rows : List (List (Option (List ℕ)))) (h : List ℕ) (now : ℤ)
      → length fresh.previous_hash ≤ length h
      → ¬ (create_block sha384 fresh rows (some h) now ≡ ok d)
  unfolding create_block
  create_block-long fresh d rows h now long e =
      let (output, e₁, e₂) = bind-ok (bundle_text rows) _ d e in
      let (bundle, e₃, e₄) = bind-ok (write_text fresh.transaction_bundle 0 output) _ d e₂ in
      let (link, e₅, e₆) = bind-ok (write_text fresh.previous_hash 0 h) _ d e₄ in
      let too_long = write_text-long fresh.previous_hash h long in cc

  -- What the fields of a block that `create_block` returns hold.
  pub create_block-fields :
      (fresh c : Block) (rows : List (List (Option (List ℕ)))) (h : List ℕ) (now : ℤ)
      → length fresh.block_hash_hex ≡ 128
      → create_block sha384 fresh rows (some h) now ≡ ok c
      → (c.timestamp ≡ now)
        × (All IsNonzero h → c_string c.previous_hash ≡ ok h)
        × ((d : List ℕ) → c_string c.block_hash_hex ≡ ok d → 96 ≤ length d)
  unfolding create_block
  create_block-fields fresh c rows h now room e =
      let (output, e₁, e₂) = bind-ok (bundle_text rows) _ c e in
      let (bundle, e₃, e₄) = bind-ok (write_text fresh.transaction_bundle 0 output) _ c e₂ in
      let (link, e₅, e₆) = bind-ok (write_text fresh.previous_hash 0 h) _ c e₄ in
      let b : Block = record fresh {
        timestamp = now;
        transaction_bundle = bundle;
        previous_hash = link;
        transaction_count = pos (length rows);
        nonce = pos 0;
      } in
      let mined = hash_block-Hashed sha384 b c e₆ in
      (
        ap (λ (x : Block). x.timestamp) mined.block,
        λ text.
            ap (λ (x : Block). c_string x.previous_hash) mined.block
            ∙ ap c_string (write_text-copied fresh.previous_hash h link e₅)
            ∙ c_string-copied fresh.previous_hash h text,
        λ d shown. length-mined_digits b c d room mined shown,
      )

  -- With the digits of a mined hash as the previous hash, `create_block` returns no block: the copy
  -- into the 96 bytes of `previous_hash` leaves the array. (The hash has 48 bytes, and the arrays
  -- their sizes of 128 and 96.)
  pub create_block-hash_block :
      (b c fresh d : Block) (rows : List (List (Option (List ℕ)))) (h : List ℕ) (now : ℤ)
      → length b.block_hash_hex ≡ 128
      → hash_block sha384 b ≡ ok c
      → c_string c.block_hash_hex ≡ ok h
      → length fresh.previous_hash ≡ 96
      → ¬ (create_block sha384 fresh rows (some h) now ≡ ok d)
  create_block-hash_block b c fresh d rows h now room mined shown small =
      create_block-long fresh d rows h now (
        omega
          (arith, small, length-mined_digits b c h room (hash_block-Hashed sha384 b c mined) shown))

  module _ (fresh : Block) (rows : List (List (Option (List ℕ)))) (output previous : List ℕ)
      (now : ℤ) where
    abbrev filled : Block
    filled = record fresh {
      timestamp = now;
      transaction_bundle = copied fresh.transaction_bundle output;
      previous_hash = copied fresh.previous_hash previous;
      transaction_count = pos (length rows);
      nonce = pos 0;
    }

    block_text-filled :
        All IsNonzero output
        → All IsNonzero previous
        → block_text filled ≡ ok (new_text fresh rows output previous now)
    unfolding block_text
    block_text-filled out prev =
        rw
          (
            c_string-copied fresh.previous_hash previous prev,
            c_string-copied fresh.transaction_bundle output out,
          )
          refl

    create_block-filled :
        bundle_text rows ≡ ok output
        → length output < length fresh.transaction_bundle
        → length previous < length fresh.previous_hash
        → create_block sha384 fresh rows (some previous) now ≡ hash_block sha384 filled
    unfolding create_block
    create_block-filled at bundle_room link_room =
        rw
          (
            at,
            write_text-short fresh.transaction_bundle output bundle_room,
            write_text-short fresh.previous_hash previous link_room,
          )
          refl

    -- `create_block` with the text of the transaction pool and the hash of the previous block, two C
    -- strings that fit into their arrays, where some nonce below 2 ^ 31 gives a hash with three zero
    -- bytes (and the hash has 48 bytes, `block_hash_hex` 128): it returns a block that holds the two
    -- strings, the time and the number of transactions, whose nonce is the least such nonce, whose
    -- hash is the hash of the block's text with it, and whose `block_hash_hex` holds its digits.
    pub create_block_lem :
        (n : ℕ)
        → bundle_text rows ≡ ok output
        → All IsNonzero output
        → All IsNonzero previous
        → length output < length fresh.transaction_bundle
        → length previous < length fresh.previous_hash
        → length fresh.block_hash_hex ≡ 128
        → n < 2 ^ 31
        → IsProof sha384 (new_text fresh rows output previous now) n
        → (c : Block) × (k : ℕ) × (create_block sha384 fresh rows (some previous) now ≡ ok c)
          × (c_string c.transaction_bundle ≡ ok output)
          × (c_string c.previous_hash ≡ ok previous)
          × (c.timestamp ≡ now)
          × (c.transaction_count ≡ pos (length rows))
          × (c.nonce ≡ pos k)
          × (c.block_hash ≡ sha384 ((new_text fresh rows output previous now) ++ print_ℤ (pos k)))
          × (c_string c.block_hash_hex ≡ ok (hex_text c.block_hash))
          × IsLeast sha384 (new_text fresh rows output previous now) 0 k
    create_block_lem n at out prev bundle_room link_room hex_room small p =
        let (k, hex, least, digits, hashed) =
          hash_block_lem sha384 size filled (new_text fresh rows output previous now) n
            (block_text-filled out prev) hex_room small p in
        (
          record filled {
            block_hash = sha384 ((new_text fresh rows output previous now) ++ print_ℤ (pos k));
            nonce = pos k;
            block_hash_hex = hex;
          },
          k,
          create_block-filled at bundle_room link_room ∙ hashed,
          c_string-copied fresh.transaction_bundle output out,
          c_string-copied fresh.previous_hash previous prev,
          refl,
          refl,
          refl,
          refl,
          digits,
          least,
        )
