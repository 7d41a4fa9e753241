-- ===== src/Wallet/Hex.antt =====
-- Keys as hexadecimal text: the encoding loops of `generate_address` of
-- blockchain_cryptocurrency/wallet.c, `hex_to_bin` of transactions.c and `hex2bin` of verifications.c.
pub mod RoundTrip
use manhattan_group.Base.{
  ℕ, zero, suc, ◌+◌, ◌-◌, ◌*◌, ◌/◌, ◌%◌, Bool, true, false, not, ◌&&◌, ◌||◌, List, [], ◌∷◌, ◌++◌,
  length, take, drop, Option, none, some, ltb, leb, ◌==◌, if◌then◌else◌,
}
use manhattan_group.Vm.Outcome.{Result, ok, undefined, ◌>>=◌}

-- `%02X` of a byte.
abbrev pub upper_digit : ℕ → ℕ
upper_digit d = if ltb d 10 then 48 + d else 55 + d

abbrev pub upper_pair : ℕ → List ℕ
upper_pair byte = upper_digit (byte / 16) ∷ upper_digit (byte % 16) ∷ []

-- The text of some bytes, two digits for each.
abbrev pub hex_text : (ℕ → List ℕ) → List ℕ → List ℕ
hex_text pair [] = []
hex_text pair (byte ∷ bytes) = pair byte ++ hex_text pair bytes

-- A loop that prints each byte with its two digits and a 0 behind them, from where it stands in an
-- array on.
unfoldable pub encode_hex : (ℕ → List ℕ) → List ℕ → List ℕ → Result (List ℕ)
encode_hex pair [] array = ok array
encode_hex pair (byte ∷ bytes) [] = undefined
encode_hex pair (byte ∷ bytes) (x ∷ []) = undefined
encode_hex pair (byte ∷ bytes) (x ∷ y ∷ []) = undefined
encode_hex pair (byte ∷ bytes) (x ∷ y ∷ z ∷ array) =
    encode_hex pair bytes (0 ∷ array) >>= λ rest. ok (pair byte ++ rest)

-- The value of a hexadecimal digit of any case.
abbrev pub digit_value : ℕ → Option ℕ
digit_value c =
    if leb 48 c && leb c 57
    then some (c - 48)
    else if leb 65 c && leb c 70
    then some (c - 55)
    else if leb 97 c && leb c 102
    then some (c - 87)
    else none

-- What a conversion makes of two characters: a number, if the first is a digit, or else what the
-- conversion makes of a text that begins with white space, a sign, 0x or no digit.
abbrev pub pair_value {ℓ} : {A : Type ℓ} → (ℕ → A) → Option ℕ → Option ℕ → A → A
pair_value number (some a) (some b) other = number (a * 16 + b)
pair_value number (some a) none other = if a == 0 then other else number a
pair_value number none b other = other

-- `hex_to_bin`, with the rounds that are left, the text from `hex_str[i]` and the array from
-- `bin_str[i/2]` on. `strtol` gives the low byte of its value for the other texts.
module _ (strtol : ℕ → ℕ → ℕ) where
  unfoldable pub hex_to_bin : ℕ → List ℕ → List ℕ → Result (List ℕ)
  hex_to_bin zero text array = ok array
  hex_to_bin (suc rounds) [] array = undefined
  hex_to_bin (suc rounds) (c ∷ []) array = undefined
  hex_to_bin (suc rounds) (c ∷ d ∷ text) [] = undefined
  hex_to_bin (suc rounds) (c ∷ d ∷ text) (x ∷ array) = hex_to_bin rounds text array >>= λ rest.
      ok (pair_value (λ n. n) (digit_value c) (digit_value d) (strtol c d) ∷ rest)

-- How often `i < hex_len; i += 2` goes round.
abbrev pub rounds_for : ℕ → ℕ
rounds_for hex_len = (hex_len + 1) / 2

-- `hex2bin`, with the array and the text from where it stands: whether it returns 0, and the array.
-- `sscanf` says what `%2x` reads of the other texts, if it reads something.
module _ (sscanf : List ℕ → Option ℕ) where
  abbrev pub scan_pair : List ℕ → Option ℕ
  scan_pair [] = none
  scan_pair (c ∷ []) = sscanf (c ∷ [])
  scan_pair (c ∷ d ∷ text) = pair_value some (digit_value c) (digit_value d) (sscanf (c ∷ d ∷ text))

  abbrev pub put_byte : Option ℕ → List ℕ → Bool × List ℕ → Bool × List ℕ
  put_byte (some x) array (whole, rest) = (whole, x % 256 ∷ rest)
  put_byte none array r = (false, array)

  unfoldable pub hex2bin : List ℕ → List ℕ → Bool × List ℕ
  hex2bin [] text = (true, [])
  hex2bin (x ∷ array) text = put_byte (scan_pair text) (x ∷ array) (hex2bin array (drop 2 text))
