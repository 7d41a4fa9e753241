-- ===== src/Wallet/Transaction/Validate.antt =====
-- `validate_transaction` of blockchain_cryptocurrency/verifications.c, on the signature that
-- `sign_transaction` stores.
use mathlib.Core.Path.{subst}
use manhattan_group.Base.{
  ℕ, zero, suc, ◌*◌, ◌/◌, ◌%◌, ◌≤◌, ◌<◌, ◌≡◌, refl, sym, ◌⊎◌, Bool, true, List, [], ◌∷◌, ◌++◌,
  length, take, All, ◌==◌, ==_iff, &&_parts, arith,
}
use manhattan_group.Vm.Outcome.{Result, ok, exits, undefined, ◌>>=◌}
use manhattan_group.Chain.Text.{c_string, hex_digit, hex_pair}
use manhattan_group.Net.Nodes.{same_text}
use manhattan_group.Wallet.Hex.{hex_text}
use manhattan_group.Wallet.Hex.RoundTrip.{IsByte}

-- The two arrays, the text of the amount, and the array with the signature: `memcmp` of 48 bytes.
unfoldable pub validate_transaction :
    (List ℕ → List ℕ) → List ℕ → List ℕ → List ℕ → List ℕ → Result Bool
validate_transaction sha384 sender recipient amount signature = do
  s ← c_string sender
  r ← c_string recipient
  ok (same_text (sha384 (s ++ r ++ amount)) (take 48 signature))

abbrev pub IsHexDigit : ℕ → Type 0
IsHexDigit c = ((48 ≤ c) × (c ≤ 57)) ⊎ ((97 ≤ c) × (c ≤ 102))

ok-injective : (a b : Bool) → (let r : Result Bool = ok a in r) ≡ ok b → a ≡ b
ok-injective a b e = ground arith

same_text-All : (P : ℕ → Type 0) (xs ys : List ℕ) → same_text xs ys ≡ true → All P ys → All P xs
same_text-All P [] [] e h = tt
same_text-All P [] (y ∷ ys) e h = tt
same_text-All P (x ∷ xs) [] e h = absurd (cc)
same_text-All P (x ∷ xs) (y ∷ ys) e h =
    let (same, rest) = &&_parts (x == y) (same_text xs ys) e in
    (subst P (sym ((==_iff x y).0 same)) h.0, same_text-All P xs ys rest h.1)

hex_digit-IsHexDigit : (d : ℕ) → d < 16 → IsHexDigit (hex_digit d)
hex_digit-IsHexDigit d h = ground arith

twice : (n : ℕ) → 2 * suc n ≡ suc (suc (2 * n))
twice n = omega arith

hex_text-digits :
    (n : ℕ) (bytes rest : List ℕ)
    → n ≤ length bytes
    → All IsByte bytes
    → All IsHexDigit (take (2 * n) (hex_text hex_pair bytes ++ rest))
hex_text-digits zero bytes rest h all = tt
hex_text-digits (suc n) [] rest h all = absurd (omega arith)
hex_text-digits (suc n) (byte ∷ bytes) rest h all = rw (twice n) (
  hex_digit-IsHexDigit (byte / 16) (omega (arith, all.0)),
  (
    hex_digit-IsHexDigit (byte % 16) (omega arith),
    hex_text-digits n bytes rest (omega arith) all.1,
  ),
)

-- `validate_transaction` accepts a transaction with the text of a signature of 24 bytes at least, as
-- `sign_transaction` stores it, only if its sender and recipient are C strings and every byte of the
-- SHA-384 hash of its text is the code of a hexadecimal digit.
pub validate_transaction-signed :
    (sha384 : List ℕ → List ℕ) (sender recipient amount signature rest : List ℕ)
    → 24 ≤ length signature
    → All IsByte signature
    → validate_transaction sha384 sender recipient amount (hex_text hex_pair signature ++ rest)
      ≡ ok true
    → (s : List ℕ) × (r : List ℕ) × (c_string sender ≡ ok s)
      × (c_string recipient ≡ ok r)
      × All IsHexDigit (sha384 (s ++ r ++ amount))
unfolding validate_transaction
validate_transaction-signed sha384 sender recipient amount signature rest long bytes =
    by_strings (c_string sender) (c_string recipient)
  where
    by_strings :
        (p q : Result (List ℕ))
        → (p >>= λ s. q >>= λ r.
            ok (
              same_text
                (sha384 (s ++ r ++ amount))
                (take 48 (hex_text hex_pair signature ++ rest))))
          ≡ ok true
        → (s : List ℕ) × (r : List ℕ) × (p ≡ ok s)
          × (q ≡ ok r)
          × All IsHexDigit (sha384 (s ++ r ++ amount))
    by_strings (ok s) (ok r) e = (
      s,
      r,
      refl,
      refl,
      same_text-All IsHexDigit (sha384 (s ++ r ++ amount)) _ (ok-injective _ _ e)
          (hex_text-digits 24 signature rest long bytes),
    )
    by_strings (ok s) (exits x) e = absurd (cc)
    by_strings (ok s) undefined e = absurd (cc)
    by_strings (exits x) q e = absurd (cc)
    by_strings undefined q e = absurd (cc)
