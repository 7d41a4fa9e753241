-- ===== src/Wallet/Hex/RoundTrip.antt =====
-- The hexadecimal texts of keys, written and read back.
use manhattan_group.Base.{
  ℕ, zero, suc, ◌+◌, ◌*◌, ◌/◌, ◌%◌, ◌≤◌, ◌<◌, ◌≡◌, refl, sym, ◌∙◌, ap, true, List, [], ◌∷◌, ◌++◌,
  length, drop, Option, some, All, arith,
}
use manhattan_group.Vm.Outcome.{Result, ok, exits, undefined, ◌>>=◌}
use manhattan_group.Chain.Text.{hex_digit}
use manhattan_group.Wallet.Hex.{
  upper_digit, upper_pair, hex_text, encode_hex, digit_value, hex_to_bin, hex2bin,
}

abbrev pub IsByte : ℕ → Type 0
IsByte b = b < 256

digit_value-upper_digit : (d : ℕ) → d < 16 → digit_value (upper_digit d) ≡ some d
digit_value-upper_digit d h = ground arith

digit_value-hex_digit : (d : ℕ) → d < 16 → digit_value (hex_digit d) ≡ some d
digit_value-hex_digit d h = ground arith

pub length-hex_text : (bytes : List ℕ) → length (hex_text upper_pair bytes) ≡ 2 * length bytes
length-hex_text [] = refl
length-hex_text (byte ∷ bytes) = omega (arith, length-hex_text bytes)

twice : (n : ℕ) → 2 * suc n ≡ suc (suc (2 * n))
twice n = omega arith

-- What a loop over some bytes writes into an array: their digits, and a 0 behind them.
pub encode_hex_lem :
    (high low : ℕ → ℕ) (bytes array : List ℕ)
    → 2 * length bytes ≤ length array
    → encode_hex (λ b. high b ∷ low b ∷ []) bytes (0 ∷ array)
      ≡ ok (hex_text (λ b. high b ∷ low b ∷ []) bytes ++ 0 ∷ drop (2 * length bytes) array)
unfolding encode_hex
encode_hex_lem high low [] array h = refl
encode_hex_lem high low (byte ∷ bytes) [] h = absurd (omega arith)
encode_hex_lem high low (byte ∷ bytes) (y ∷ []) h = absurd (omega arith)
encode_hex_lem high low (byte ∷ bytes) (y ∷ z ∷ array) h =
    rw (encode_hex_lem high low bytes array (omega arith)) (rw (twice (length bytes)) refl)

-- The first byte of the array does not matter, if there are bytes.
pub encode_hex-any :
    (pair : ℕ → List ℕ) (bytes array : List ℕ) (old : ℕ)
    → 0 < length bytes
    → encode_hex pair bytes (old ∷ array) ≡ encode_hex pair bytes (0 ∷ array)
unfolding encode_hex
encode_hex-any pair [] array old h = absurd (omega arith)
encode_hex-any pair (byte ∷ bytes) [] old h = refl
encode_hex-any pair (byte ∷ bytes) (y ∷ []) old h = refl
encode_hex-any pair (byte ∷ bytes) (y ∷ z ∷ array) old h = refl

digits_together : (b : ℕ) → b < 256 → b / 16 * 16 + b % 16 ≡ b
digits_together b h = omega arith

-- What `hex_to_bin` reads of the text of some bytes, and then of the rest.
pub hex_to_bin-hex_text :
    (strtol : ℕ → ℕ → ℕ) (bytes rest array : List ℕ) (more : ℕ)
    → All IsByte bytes
    → length bytes ≤ length array
    → hex_to_bin strtol (length bytes + more) (hex_text upper_pair bytes ++ rest) array
      ≡ (hex_to_bin strtol more rest (drop (length bytes) array) >>= λ r. ok (bytes ++ r))
unfolding hex_to_bin
hex_to_bin-hex_text strtol [] rest array more h room =
    ap (λ n. hex_to_bin strtol n rest array) (let e : 0 + more ≡ more = omega arith in e)
    ∙ sym (same (hex_to_bin strtol more rest array))
  where
    same : (r : Result (List ℕ)) → (r >>= λ xs. ok xs) ≡ r
    same (ok xs) = refl
    same (exits e) = refl
    same undefined = refl
hex_to_bin-hex_text strtol (byte ∷ bytes) rest [] more h room = absurd (omega arith)
hex_to_bin-hex_text strtol (byte ∷ bytes) rest (x ∷ array) more h room =
    rw
      (
        suc_plus (length bytes) more,
        hex_to_bin-hex_text strtol bytes rest array more h.1 (omega arith),
        digit_value-upper_digit (byte / 16) (omega (arith, h.0)),
        digit_value-upper_digit (byte % 16) (omega arith),
        digits_together byte h.0,
      )
      (behind (hex_to_bin strtol more rest (drop (length bytes) array)))
  where
    suc_plus : (n m : ℕ) → suc n + m ≡ suc (n + m)
    suc_plus n m = omega arith

    behind :
        (r : Result (List ℕ))
        → ((r >>= λ xs. ok (bytes ++ xs)) >>= λ xs. ok (byte ∷ xs))
          ≡ (r >>= λ xs. ok (byte ∷ bytes ++ xs))
    behind (ok xs) = refl
    behind (exits e) = refl
    behind undefined = refl

-- An array with room for fewer bytes than there are rounds.
pub hex_to_bin-overruns :
    (strtol : ℕ → ℕ → ℕ) (rounds : ℕ) (text array : List ℕ)
    → length array < rounds
    → hex_to_bin strtol rounds text array ≡ undefined
unfolding hex_to_bin
hex_to_bin-overruns strtol zero text array h = absurd (omega arith)
hex_to_bin-overruns strtol (suc rounds) [] array h = refl
hex_to_bin-overruns strtol (suc rounds) (c ∷ []) array h = refl
hex_to_bin-overruns strtol (suc rounds) (c ∷ d ∷ text) [] h = refl
hex_to_bin-overruns strtol (suc rounds) (c ∷ d ∷ text) (x ∷ array) h =
    rw (hex_to_bin-overruns strtol rounds text array (omega arith)) refl

-- An array without room for the last 0.
pub encode_hex-overruns :
    (pair : ℕ → List ℕ) (bytes array : List ℕ)
    → 0 < length bytes
    → length array ≤ 2 * length bytes
    → encode_hex pair bytes array ≡ undefined
unfolding encode_hex
encode_hex-overruns pair [] array h room = absurd (omega arith)
encode_hex-overruns pair (byte ∷ bytes) [] h room = refl
encode_hex-overruns pair (byte ∷ bytes) (x ∷ []) h room = refl
encode_hex-overruns pair (byte ∷ bytes) (x ∷ y ∷ []) h room = refl
encode_hex-overruns pair (byte ∷ []) (x ∷ y ∷ z ∷ array) h room = absurd (omega arith)
encode_hex-overruns pair (byte ∷ c ∷ bytes) (x ∷ y ∷ z ∷ array) h room =
    rw (encode_hex-overruns pair (c ∷ bytes) (0 ∷ array) (omega arith) (omega arith)) refl

-- What `hex2bin` reads of it.
pub hex2bin-hex_text :
    (sscanf : List ℕ → Option ℕ) (bytes array : List ℕ)
    → All IsByte bytes
    → length array ≡ length bytes
    → hex2bin sscanf array (hex_text upper_pair bytes) ≡ (true, bytes)
unfolding hex2bin
hex2bin-hex_text sscanf [] [] h room = refl
hex2bin-hex_text sscanf [] (x ∷ array) h room = absurd (omega arith)
hex2bin-hex_text sscanf (byte ∷ bytes) [] h room = absurd (omega arith)
hex2bin-hex_text sscanf (byte ∷ bytes) (x ∷ array) h room =
    rw
      (
        hex2bin-hex_text sscanf bytes array h.1 (omega arith),
        digit_value-upper_digit (byte / 16) (omega (arith, h.0)),
        digit_value-upper_digit (byte % 16) (omega arith),
      )
      (ap (λ b. (true, b ∷ bytes)) (same_byte byte h.0))
  where
    same_byte : (b : ℕ) → b < 256 → (b / 16 * 16 + b % 16) % 256 ≡ b
    same_byte b h = omega arith
