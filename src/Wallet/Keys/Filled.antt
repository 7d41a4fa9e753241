-- ===== src/Wallet/Keys/Filled.antt =====
-- What `generate_address` of blockchain_cryptocurrency/wallet.c puts into `h_wallet`.
use manhattan_group.Base.{
  ℕ, zero, suc, ◌+◌, ◌*◌, ◌/◌, ◌%◌, ◌≤◌, ◌<◌, ◌≡◌, refl, ◌∙◌, ap, true, List, [], ◌∷◌, ◌++◌, length,
  take, drop, set, replicate, All, leb, length-replicate, arith,
}
use manhattan_group.Vm.Outcome.{ok, undefined}
use manhattan_group.Chain.Text.{write_text, IsNonzero}
use manhattan_group.Net.OwnAddress.{until_zero}
use manhattan_group.Wallet.Hex.{upper_pair, upper_digit, hex_text, encode_hex}
use manhattan_group.Wallet.Hex.RoundTrip.{encode_hex_lem, length-hex_text}
use manhattan_group.Wallet.Keys.{
  public_key_size, secret_key_size, hex_size, EncWallet, fill_wallet, limited, WalletRow,
  wallet_row,
}

abbrev zeros : ℕ → List ℕ
zeros n = replicate n 0

limited_lem :
    (n : ℕ) (text rest : List ℕ)
    → length text ≤ n
    → All IsNonzero text
    → limited n (text ++ 0 ∷ rest) ≡ text
limited_lem zero [] rest h nonzero = refl
limited_lem (suc n) [] rest h nonzero = refl
limited_lem zero (c ∷ text) rest h nonzero = absurd (omega arith)
limited_lem (suc n) (zero ∷ text) rest h nonzero = absurd (omega (arith, nonzero.0))
limited_lem (suc n) (suc c ∷ text) rest h nonzero =
    ap (λ xs. suc c ∷ xs) (limited_lem n text rest (omega arith) nonzero.1)

take-set : (n : ℕ) (xs : List ℕ) (v : ℕ) → take n (set xs n v) ≡ take n xs
take-set zero xs v = refl
take-set (suc n) [] v = refl
take-set (suc n) (x ∷ xs) v = ap (λ ys. x ∷ ys) (take-set n xs v)

drop-replicate : (n : ℕ) → drop n (zeros n) ≡ []
drop-replicate zero = refl
drop-replicate (suc n) = drop-replicate n

upper_digit_pos : (d : ℕ) → 0 < upper_digit d
upper_digit_pos d = ground arith

pub hex_text-IsNonzero : (bytes : List ℕ) → All IsNonzero (hex_text upper_pair bytes)
hex_text-IsNonzero [] = tt
hex_text-IsNonzero (byte ∷ bytes) =
    (upper_digit_pos (byte / 16), (upper_digit_pos (byte % 16), hex_text-IsNonzero bytes))

cleared_text : (n : ℕ) → zeros (hex_size n) ≡ 0 ∷ zeros (2 * n)
cleared_text n = ap zeros (let e : n * 2 + 1 ≡ suc (2 * n) = omega arith in e)

encoded :
    (bytes : List ℕ)
    → encode_hex upper_pair bytes (0 ∷ zeros (2 * length bytes))
      ≡ ok (hex_text upper_pair bytes ++ 0 ∷ [])
encoded bytes =
    encode_hex_lem (λ b. upper_digit (b / 16)) (λ b. upper_digit (b % 16)) bytes
      (zeros (2 * length bytes)) (omega (arith, length-replicate {A = ℕ} (2 * length bytes) 0))
    ∙ ap (λ xs. ok (hex_text upper_pair bytes ++ 0 ∷ xs)) (drop-replicate (2 * length bytes))

-- The text of a key in a cleared array of the size for n bytes.
encoded_key :
    (bytes : List ℕ) (n : ℕ)
    → length bytes ≡ n
    → encode_hex upper_pair bytes (zeros (hex_size n)) ≡ ok (hex_text upper_pair bytes ++ 0 ∷ [])
encoded_key bytes n e = rw (← e, cleared_text (length bytes)) (encoded bytes)

abbrev pub row_of : List ℕ → List ℕ × List ℕ → WalletRow
row_of base58 (public, private) = record {
  address = base58;
  private_key = hex_text upper_pair private;
  public_key = hex_text upper_pair public;
}

pub limited_key :
    (bytes : List ℕ) (n : ℕ)
    → length bytes ≡ n
    → limited (n * 2) (hex_text upper_pair bytes ++ 0 ∷ []) ≡ hex_text upper_pair bytes
limited_key bytes n e =
    limited_lem (n * 2) (hex_text upper_pair bytes) [] (omega (arith, length-hex_text bytes, e))
      (hex_text-IsNonzero bytes)

same_row :
    {a a' p p' q q' : List ℕ}
    → a ≡ a'
    → p ≡ p'
    → q ≡ q'
    → (let r : WalletRow = record { address = a; private_key = p; public_key = q } in r)
      ≡ record { address = a'; private_key = p'; public_key = q' }
same_row e f g = rw (e, f, g) refl

pub fill_wallet_lem :
    (behind : ℕ) (public private base58 : List ℕ)
    → length public ≡ public_key_size
    → length private ≡ secret_key_size
    → length base58 < 69
    → All IsNonzero base58
    → (w : EncWallet) × (fill_wallet (suc behind) public private base58 ≡ ok w)
      × (wallet_row w ≡ row_of base58 (public, private))
unfolding fill_wallet write_text
fill_wallet_lem behind public private base58 p q short nonzero =
    let fits : leb (0 + length base58 + 1) (length (zeros 72)) ≡ true =
      ground (arith, length-replicate {A = ℕ} 72 0) in
    let address = base58 ++ 0 ∷ drop (0 + length base58 + 1) (zeros 72) in
    (
      record {
        public_key = hex_text upper_pair public ++ 0 ∷ [];
        private_key = hex_text upper_pair private ++ 0 ∷ [];
        address = set address 69 0;
      },
      rw (encoded_key public public_key_size p, encoded_key private secret_key_size q, fits) refl,
      same_row
          (ap until_zero (take-set 69 address 0) ∙ limited_lem 69 base58 _ (omega arith) nonzero)
          (limited_key private secret_key_size q) (limited_key public public_key_size p),
    )

-- With the arrays as they are declared.
pub fill_wallet-overruns :
    (public private base58 : List ℕ)
    → length public ≡ public_key_size
    → fill_wallet 0 public private base58 ≡ undefined
unfolding fill_wallet
fill_wallet-overruns public private base58 p = rw (encoded_key public public_key_size p) refl
