-- ===== src/Chain/Verify/Links.antt =====
-- What `validate_blockchain` of verifications.c accepts.
use manhattan_group.Base.{
  ℕ, zero, suc, ◌≡◌, refl, sym, ◌∙◌, ap, Bool, true, false, arith, List, [], ◌∷◌, ◌==◌, ==_iff,
  Bool-cases, inl, inr, ◌↔◌, ◌≢◌,
}
use manhattan_group.Vm.Outcome.{Result, ok, ◌>>=◌, bind-ok}
use manhattan_group.Chain.Text.{c_string, strcmp_equal}
use manhattan_group.Chain.Block.{Block}
use manhattan_group.Chain.Miner.{hash_block}
use manhattan_group.Chain.Miner.Proof.{mined_hash-empty}
use manhattan_group.Chain.Verify.{validate_blockchain}

-- Two arrays hold the same C string.
abbrev pub SameString : List ℕ → List ℕ → Type 0
SameString xs ys = (t : List ℕ) × (c_string xs ≡ ok t) × (c_string ys ≡ ok t)

c_string-suc :
    (c : ℕ) (xs t : List ℕ)
    → c_string (suc c ∷ xs) ≡ ok t
    → (u : List ℕ) × (c_string xs ≡ ok u) × (t ≡ suc c ∷ u)
c_string-suc c xs t e = let (u, at, e₁) = bind-ok (c_string xs) _ t e in (u, at, cc e₁)

module _ (xs ys : List ℕ) where
  strcmp_equal-suc :
      (x y : ℕ) (b : Bool)
      → (x == y) ≡ b
      → strcmp_equal (suc x ∷ xs) (suc y ∷ ys)
        ≡ (elim b as (λ t. Result Bool) [ true ↦ strcmp_equal xs ys | false ↦ ok false ])
  strcmp_equal-suc x y b e =
      ap (λ t. elim t as (λ u. Result Bool) [ true ↦ strcmp_equal xs ys | false ↦ ok false ]) e

strcmp_equal→SameString : (xs ys : List ℕ) → strcmp_equal xs ys ≡ ok true → SameString xs ys
strcmp_equal→SameString [] ys e = absurd (cc)
strcmp_equal→SameString (zero ∷ xs) [] e = absurd (cc)
strcmp_equal→SameString (suc x ∷ xs) [] e = absurd (cc)
strcmp_equal→SameString (zero ∷ xs) (zero ∷ ys) e = ([], refl, refl)
strcmp_equal→SameString (zero ∷ xs) (suc y ∷ ys) e = absurd (ground arith)
strcmp_equal→SameString (suc x ∷ xs) (zero ∷ ys) e = absurd (ground arith)
strcmp_equal→SameString (suc x ∷ xs) (suc y ∷ ys) e = elim (Bool-cases (x == y)) [
  | inl same ↦
      let (t, ex, ey) =
        strcmp_equal→SameString xs ys (sym (strcmp_equal-suc xs ys x y true same) ∙ e) in
      (
        suc x ∷ t,
        ap (λ m. m >>= λ u. ok (suc x ∷ u)) ex,
        ap (λ m. m >>= λ u. ok (suc y ∷ u)) ey
            ∙ ap (λ c. ok (suc c ∷ t)) (sym ((==_iff x y).0 same)),
      )
  | inr other ↦ absurd (false_not_true (sym (strcmp_equal-suc xs ys x y false other) ∙ e))
]
  where
    false_not_true : ok false ≢ ok true
    false_not_true e = cc

SameString→strcmp_equal :
    (xs ys t : List ℕ) → c_string xs ≡ ok t → c_string ys ≡ ok t → strcmp_equal xs ys ≡ ok true
SameString→strcmp_equal [] ys t ex ey = absurd (cc)
SameString→strcmp_equal (x ∷ xs) [] t ex ey = absurd (cc)
SameString→strcmp_equal (zero ∷ xs) (zero ∷ ys) t ex ey = refl
SameString→strcmp_equal (zero ∷ xs) (suc y ∷ ys) t ex ey =
    let (v, at, e) = c_string-suc y ys t ey in absurd (cc)
SameString→strcmp_equal (suc x ∷ xs) (zero ∷ ys) t ex ey =
    let (u, at, e) = c_string-suc x xs t ex in absurd (cc)
SameString→strcmp_equal (suc x ∷ xs) (suc y ∷ ys) t ex ey =
    let (u, at, e) = c_string-suc x xs t ex in
    let (v, bt, f) = c_string-suc y ys t ey in
    let both : suc x ∷ u ≡ suc y ∷ v = sym e ∙ f in
    let tails : u ≡ v = cc in
    let heads : x ≡ y = cc in
    strcmp_equal-suc xs ys x y true ((==_iff x y).1 heads)
    ∙ SameString→strcmp_equal xs ys u at (bt ∙ ap ok (sym tails))

-- Each block's `previous_hash` is, as a C string, the `block_hash` of the block before it.
abbrev pub IsLinked : List Block → Type 0
IsLinked [] = Unit
IsLinked (b ∷ []) = Unit
IsLinked (b ∷ c ∷ blocks) = SameString c.previous_hash b.block_hash × IsLinked (c ∷ blocks)

module _ (b c : Block) (blocks : List Block) where
  validate_blockchain-next :
      strcmp_equal c.previous_hash b.block_hash ≡ ok true
      → validate_blockchain (b ∷ c ∷ blocks) ≡ validate_blockchain (c ∷ blocks)
  unfolding validate_blockchain
  validate_blockchain-next e = rw e refl

  validate_blockchain-first :
      validate_blockchain (b ∷ c ∷ blocks) ≡ ok true
      → strcmp_equal c.previous_hash b.block_hash ≡ ok true
  unfolding validate_blockchain
  validate_blockchain-first e =
      let (same, at, e₁) = bind-ok (strcmp_equal c.previous_hash b.block_hash) _ true e in
      go same at e₁
    where
      go :
          (same : Bool)
          → strcmp_equal c.previous_hash b.block_hash ≡ ok same
          → (elim same as (λ t. Result Bool) [
            | true ↦ validate_blockchain (c ∷ blocks)
            | false ↦ ok false
          ])
            ≡ ok true
          → strcmp_equal c.previous_hash b.block_hash ≡ ok true
      go true at e₁ = at
      go false at e₁ = absurd (cc)

-- `validate_blockchain` answers 1 exactly if each block's `previous_hash` and the `block_hash` of the
-- block before it are arrays that hold the same C string, up to the first 0 byte of both.
pub validate_blockchain_iff :
    (blocks : List Block) → (validate_blockchain blocks ≡ ok true) ↔ IsLinked blocks
validate_blockchain_iff [] = (λ _. tt, λ _. unfold validate_blockchain in refl)
validate_blockchain_iff (b ∷ []) = (λ _. tt, λ _. unfold validate_blockchain in refl)
validate_blockchain_iff (b ∷ c ∷ blocks) = (
  λ e.
      let first = validate_blockchain-first b c blocks e in
      (
        strcmp_equal→SameString c.previous_hash b.block_hash first,
        (validate_blockchain_iff (c ∷ blocks)).0
            (sym (validate_blockchain-next b c blocks first) ∙ e),
      ),
  λ ((t, ep, eh), rest).
      validate_blockchain-next b c blocks
        (SameString→strcmp_equal c.previous_hash b.block_hash t ep eh)
      ∙ (validate_blockchain_iff (c ∷ blocks)).1 rest,
)

-- After a block that `hash_block` returned, `validate_blockchain` accepts a block only if its
-- `previous_hash` is the empty string, since the mined hash begins with a 0 byte: no block that carries
-- the digits of the mined hash is accepted.
pub validate_blockchain-hash_block :
    (sha384 : List ℕ → List ℕ) (b c next : Block) (blocks : List Block)
    → hash_block sha384 b ≡ ok c
    → validate_blockchain (c ∷ next ∷ blocks) ≡ ok true
    → c_string next.previous_hash ≡ ok []
validate_blockchain-hash_block sha384 b c next blocks mined accepted =
    let ((t, ep, eh), rest) = (validate_blockchain_iff (c ∷ next ∷ blocks)).0 accepted in
    ep ∙ sym eh ∙ mined_hash-empty sha384 b c mined
