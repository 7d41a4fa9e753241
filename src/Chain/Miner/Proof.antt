-- ===== src/Chain/Miner/Proof.antt =====
-- The proof of work of `hash_block` in miner.c: which nonce it finds, and that `validate_block` of
-- verifications.c accepts it.
use manhattan_group.Base.{
  ℕ, zero, suc, ◌+◌, ◌≤◌, ◌<◌, ◌≡◌, refl, sym, ◌∙◌, ap, Bool, true, false, arith, List, [], ◌∷◌,
  ◌++◌, Bool-cases, inl, inr, ◌==◌, ==_iff,
}
use manhattan_group.Base.{ℤ, pos}
use manhattan_group.Vm.Outcome.{
  Result, ExitCause, ok, exits, undefined, ◌>>=◌, Result-cases, bind-ok,
}
use manhattan_group.Chain.Text.{print_ℤ, c_string}
use manhattan_group.Chain.Block.{Block, block_text, leading_zeros}
use manhattan_group.Chain.Miner.{
  difficulty, int_values, find_nonce, finish_block, hash_block, write_hex,
}
use manhattan_group.Chain.Verify.{validate_block}

module _ (sha384 : List ℕ → List ℕ) where
  -- The hash of a text with a nonce begins with three zero bytes.
  abbrev pub IsProof : List ℕ → ℕ → Type 0
  IsProof text nonce =
      leading_zeros difficulty (sha384 (text ++ print_ℤ (pos nonce))) ≡ ok difficulty

  abbrev pub zeros_at : List ℕ → ℕ → Result ℕ
  zeros_at text nonce = leading_zeros difficulty (sha384 (text ++ print_ℤ (pos nonce)))

  module _ (left : ℕ) (text : List ℕ) (nonce : ℕ) where
    pub find_nonce_found : IsProof text nonce → find_nonce sha384 (suc left) text nonce ≡ ok nonce
    unfolding find_nonce
    find_nonce_found e = rw (e, find_nonce) refl

    pub find_nonce_next :
        (k : ℕ)
        → zeros_at text nonce ≡ ok k
        → (k == difficulty) ≡ false
        → find_nonce sha384 (suc left) text nonce ≡ find_nonce sha384 left text (nonce + 1)
    unfolding find_nonce
    find_nonce_next k e ne =
        ap (λ (m : Result ℕ). m >>= λ zeros. on_test (zeros == difficulty)) e ∙ ap on_test ne
      where
        on_test : Bool → Result ℕ
        on_test true = ok nonce
        on_test false = find_nonce sha384 left text (nonce + 1)

    find_nonce_exits :
        (c : ExitCause)
        → zeros_at text nonce ≡ exits c
        → find_nonce sha384 (suc left) text nonce ≡ exits c
    unfolding find_nonce
    find_nonce_exits c e = rw e refl

    find_nonce_undefined :
        zeros_at text nonce ≡ undefined → find_nonce sha384 (suc left) text nonce ≡ undefined
    unfolding find_nonce
    find_nonce_undefined e = rw e refl

  abbrev pub IsLeast : List ℕ → ℕ → ℕ → Type 0
  IsLeast text nonce n = IsProof text n × ((m : ℕ) → nonce ≤ m → m < n → ¬ IsProof text m)

  IsLeast-from_next :
      (text : List ℕ) (nonce n k : ℕ)
      → zeros_at text nonce ≡ ok k
      → (k == difficulty) ≡ false
      → IsLeast text (nonce + 1) n
      → IsLeast text nonce n
  IsLeast-from_next text nonce n k e ne h = (
    h.0,
    λ m le lt. elim (Bool-cases (m == nonce)) [
      | inl same ↦ λ p. not_here (rw ((==_iff m nonce).0 same) at p)
      | inr other ↦ h.1 m (ground arith) lt
    ],
  )
    where
      not_here : IsProof text nonce → ⊥
      not_here p = ground arith

  found_here :
      (left : ℕ) (text : List ℕ) (nonce n k : ℕ)
      → zeros_at text nonce ≡ ok k
      → (k == difficulty) ≡ true
      → find_nonce sha384 (suc left) text nonce ≡ ok n
      → IsLeast text nonce n
  found_here left text nonce n k at enough e =
      let here : IsProof text nonce = at ∙ ap ok ((==_iff k difficulty).0 enough) in
      let same : nonce ≡ n = cc (find_nonce_found left text nonce here) in
      (rw same at here, λ m le lt. absurd (omega (arith, same)))

  pub find_nonce-IsLeast :
      (left : ℕ) (text : List ℕ) (nonce n : ℕ)
      → find_nonce sha384 left text nonce ≡ ok n
      → IsLeast text nonce n
  find_nonce-IsLeast zero text nonce n e = absurd (unfold find_nonce in cc)
  find_nonce-IsLeast (suc left) text nonce n e = elim (Result-cases (zeros_at text nonce)) [
    | inl (k, at) ↦ elim (Bool-cases (k == difficulty)) [
      | inl enough ↦ found_here left text nonce n k at enough e
      | inr few ↦ IsLeast-from_next text nonce n k at few (
          find_nonce-IsLeast left text (nonce + 1) n
            (sym (find_nonce_next left text nonce k at few) ∙ e))
    ]
    | inr (inl (c, at)) ↦ absurd (cc (find_nonce_exits left text nonce c at))
    | inr (inr at) ↦ absurd (cc (find_nonce_undefined left text nonce at))
  ]

  module _ (b c : Block) where
    -- What a block that `hash_block` returns is made of.
    pub record Hashed : Type 0 where
      pub text : List ℕ
      pub n : ℕ
      pub hex : List ℕ
      pub text_lem : block_text b ≡ ok text
      pub found : find_nonce sha384 int_values text 0 ≡ ok n
      pub written : write_hex 0 (sha384 (text ++ print_ℤ (pos n))) b.block_hash_hex ≡ ok hex
      pub block : c ≡ record b {
        block_hash = sha384 (text ++ print_ℤ (pos n));
        nonce = pos n;
        block_hash_hex = hex;
      }

    finish_block-ok :
        (text : List ℕ) (n : ℕ)
        → finish_block sha384 b text n ≡ ok c
        → (hex : List ℕ) × (write_hex 0 (sha384 (text ++ print_ℤ (pos n))) b.block_hash_hex
            ≡ ok hex)
          × (c ≡ record b {
            block_hash = sha384 (text ++ print_ℤ (pos n));
            nonce = pos n;
            block_hash_hex = hex;
          })
    unfolding finish_block
    finish_block-ok text n e =
        let (hex, written, e₁) =
          bind-ok (write_hex 0 (sha384 (text ++ print_ℤ (pos n))) b.block_hash_hex) _ c e in
        (hex, written, cc e₁)

    pub hash_block-Hashed : hash_block sha384 b ≡ ok c → Hashed
    unfolding hash_block
    hash_block-Hashed e =
        let (text, at, e₁) =
          bind-ok (block_text b) (λ t. find_nonce sha384 int_values t 0 >>= finish_block sha384 b t)
            c e in
        let (n, found, e₂) =
          bind-ok (find_nonce sha384 int_values text 0) (finish_block sha384 b text) c e₁ in
        let (hex, written, block) = finish_block-ok text n e₂ in
        record {
          text = text;
          n = n;
          hex = hex;
          text_lem = at;
          found = found;
          written = written;
          block = block;
        }

    block_text-finished :
        (hash hex : List ℕ) (n : ℤ)
        → block_text (record b { block_hash = hash; nonce = n; block_hash_hex = hex })
          ≡ block_text b
    unfolding block_text
    block_text-finished hash hex n = refl

    validated :
        (h : Hashed) → IsProof h.text h.n → validate_block sha384 c (pos difficulty) ≡ ok true
    unfolding validate_block
    validated h p =
        rw
          (
            h.block,
            block_text-finished (sha384 (h.text ++ print_ℤ (pos h.n))) h.hex (pos h.n),
            h.text_lem,
            p,
          )
          refl

    -- A block that `hash_block` returns is accepted by `validate_block` with the difficulty of the
    -- miner.
    pub validate_block-hash_block :
        hash_block sha384 b ≡ ok c → validate_block sha384 c (pos difficulty) ≡ ok true
    validate_block-hash_block e =
        let h = hash_block-Hashed e in
        validated h (find_nonce-IsLeast int_values h.text 0 h.n h.found).0

    zero_first :
        (hash : List ℕ) → leading_zeros difficulty hash ≡ ok difficulty → c_string hash ≡ ok []
    zero_first [] e = absurd (cc)
    zero_first (zero ∷ hash) e = refl
    zero_first (suc d ∷ hash) e = absurd (ground arith)

    empty_hash : (h : Hashed) → IsProof h.text h.n → c_string c.block_hash ≡ ok []
    empty_hash h p = rw h.block (zero_first (sha384 (h.text ++ print_ℤ (pos h.n))) p)

    -- The mined hash, read as a C string, is empty.
    pub mined_hash-empty : hash_block sha384 b ≡ ok c → c_string c.block_hash ≡ ok []
    mined_hash-empty e =
        let h = hash_block-Hashed e in
        empty_hash h (find_nonce-IsLeast int_values h.text 0 h.n h.found).0
