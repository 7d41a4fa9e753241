-- ===== src/Chain/Miner/Total.antt =====
-- `hash_block` of miner.c ends with a block where a nonce exists.
use manhattan_group.Base.{
  ℕ, zero, suc, ◌+◌, ◌^◌, ◌≤◌, ◌<◌, ◌≡◌, refl, ◌∙◌, ap, false, arith, List, [], ◌∷◌, ◌++◌, length,
  Bool-cases, inl, inr, ◌==◌, ==_iff,
}
use manhattan_group.Base.{pos}
use manhattan_group.Vm.Outcome.{ok}
use manhattan_group.Chain.Text.{print_ℤ, c_string}
use manhattan_group.Chain.Block.{Block, block_text, leading_zeros}
use manhattan_group.Chain.Miner.{difficulty, find_nonce, int_values, finish_block, hash_block}
use manhattan_group.Chain.Miner.Proof.{
  IsProof, IsLeast, zeros_at, find_nonce_found, find_nonce_next, find_nonce-IsLeast,
}
use manhattan_group.Chain.Miner.Hex.{hex_text, write_hex_lem}

leading_zeros-ok :
    (limit : ℕ) (hash : List ℕ) → limit ≤ length hash → (k : ℕ) × (leading_zeros limit hash ≡ ok k)
leading_zeros-ok zero hash h = (0, refl)
leading_zeros-ok (suc limit) [] h = absurd (omega arith)
leading_zeros-ok (suc limit) (zero ∷ hash) h =
    let (k, e) = leading_zeros-ok limit hash (omega arith) in (suc k, rw e refl)
leading_zeros-ok (suc limit) (suc c ∷ hash) h = (0, refl)

module _ (sha384 : List ℕ → List ℕ) (size : (text : List ℕ) → length (sha384 text) ≡ 48) where
  past_it :
      (text : List ℕ) (nonce n k : ℕ)
      → zeros_at sha384 text nonce ≡ ok k
      → (k == difficulty) ≡ false
      → nonce ≤ n
      → IsProof sha384 text n
      → nonce + 1 ≤ n
  past_it text nonce n k at few le p = elim (Bool-cases (nonce == n)) [
    | inl same ↦ absurd (not_here (rw ((==_iff nonce n).0 same) p))
    | inr other ↦ ground arith
  ]
    where
      not_here : IsProof sha384 text nonce → ⊥
      not_here here = ground arith

  find_nonce-ok :
      (left : ℕ) (text : List ℕ) (nonce n : ℕ)
      → nonce ≤ n
      → n < nonce + left
      → IsProof sha384 text n
      → (k : ℕ) × (find_nonce sha384 left text nonce ≡ ok k) × (k ≤ n)
  find_nonce-ok zero text nonce n le lt p = absurd (omega arith)
  find_nonce-ok (suc left) text nonce n le lt p =
      let (k, at) =
        leading_zeros-ok difficulty (sha384 (text ++ print_ℤ (pos nonce)))
          (omega (arith, size (text ++ print_ℤ (pos nonce)))) in
      elim (Bool-cases (k == difficulty)) [
        | inl enough ↦ (
          nonce,
          find_nonce_found sha384 left text nonce (at ∙ ap ok ((==_iff k difficulty).0 enough)),
          le,
        )
        | inr few ↦
            let later : nonce + 1 ≤ n = past_it text nonce n k at few le p in
            let (m, found, below) = find_nonce-ok left text (nonce + 1) n later (omega arith) p in
            (m, find_nonce_next sha384 left text nonce k at few ∙ found, below)
      ]

  -- Where the hash has 48 bytes, the text of the block is defined, `block_hash_hex` has its 128 bytes
  -- and some nonce below 2 ^ 31 gives a hash that begins with three zero bytes, `hash_block` returns
  -- the block with the least such nonce, the hash for it, and its digits in `block_hash_hex`; nothing
  -- else of the block changes.
  pub hash_block_lem :
      (b : Block) (text : List ℕ) (n : ℕ)
      → block_text b ≡ ok text
      → length b.block_hash_hex ≡ 128
      → n < 2 ^ 31
      → IsProof sha384 text n
      → (k : ℕ) × (hex : List ℕ) × IsLeast sha384 text 0 k
        × (c_string hex ≡ ok (hex_text (sha384 (text ++ print_ℤ (pos k)))))
        × (hash_block sha384 b
            ≡ ok (record b {
              block_hash = sha384 (text ++ print_ℤ (pos k));
              nonce = pos k;
              block_hash_hex = hex;
            }))
  unfolding hash_block finish_block
  hash_block_lem b text n at room lt p =
      let (k, found, below) =
        find_nonce-ok int_values text 0 n (omega arith) (unfold int_values in omega arith) p in
      let (hex, written, shown) =
        write_hex_lem (sha384 (text ++ print_ℤ (pos k))) b.block_hash_hex
          (omega (arith, size (text ++ print_ℤ (pos k))))
          (omega (arith, size (text ++ print_ℤ (pos k)))) in
      (
        k,
        hex,
        find_nonce-IsLeast sha384 int_values text 0 k found,
        shown,
        rw (at, found, written) refl,
      )
