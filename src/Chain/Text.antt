-- ===== src/Chain/Text.antt =====
-- The strings and arrays of `char` that miner.c and verifications.c work on: an array is the list of
-- its bytes, the C string in it ends before its first 0, and a read or write past its end is
-- undefined. `char` is signed, as gcc has it on x86.
use manhattan_group.Base.{
  ℕ, zero, suc, ◌≡◌, ◌<◌, refl, All, arith, ◌+◌, ◌/◌, ◌%◌, true, false, List, [], ◌∷◌, ◌++◌, length,
  take, drop, ltb, leb, ◌==◌, Bool, if◌then◌else◌,
}
use manhattan_group.Base.{ℤ, pos, negsuc}
use manhattan_group.Vm.Outcome.{Result, ok, undefined, ◌>>=◌}

-- The text that `%s` prints.
abbrev pub c_string : List ℕ → Result (List ℕ)
c_string [] = undefined
c_string (zero ∷ rest) = ok []
c_string (suc c ∷ rest) = c_string rest >>= λ t. ok (suc c ∷ t)

-- A text written into an array at an offset, with the 0 behind it: `strcpy` and `sprintf`.
unfoldable pub write_text : List ℕ → ℕ → List ℕ → Result (List ℕ)
write_text array offset text =
    if leb (offset + length text + 1) (length array)
    then ok (take offset array ++ text ++ 0 ∷ drop (offset + length text + 1) array)
    else undefined

-- `strcmp(a, b) == 0`.
abbrev pub strcmp_equal : List ℕ → List ℕ → Result Bool
strcmp_equal [] ys = undefined
strcmp_equal (x ∷ xs) [] = undefined
strcmp_equal (zero ∷ xs) (zero ∷ ys) = ok true
strcmp_equal (zero ∷ xs) (suc y ∷ ys) = ok false
strcmp_equal (suc x ∷ xs) (zero ∷ ys) = ok false
strcmp_equal (suc x ∷ xs) (suc y ∷ ys) = elim (x == y) [
  | true ↦ strcmp_equal xs ys
  | false ↦ ok false
]

-- `%d` and `%ld`; the number of digits is at most the number and one.
abbrev pub digits_of : ℕ → ℕ → List ℕ → List ℕ
digits_of zero n later = later
digits_of (suc fuel) n later = elim (n / 10 == 0) [
  | true ↦ (48 + n % 10) ∷ later
  | false ↦ digits_of fuel (n / 10) ((48 + n % 10) ∷ later)
]

unfoldable pub print_ℤ : ℤ → List ℕ
print_ℤ (pos n) = digits_of (n + 1) n []
print_ℤ (negsuc n) = 45 ∷ digits_of (n + 2) (n + 1) []

abbrev pub hex_digit : ℕ → ℕ
hex_digit d = if ltb d 10 then 48 + d else 87 + d

abbrev pub hex_pair : ℕ → List ℕ
hex_pair byte = hex_digit (byte / 16) ∷ hex_digit (byte % 16) ∷ []

-- `%02x` of a signed `char`: from 0x80 on it is a negative `int`, which prints 8 digits.
abbrev pub print_hex : ℕ → List ℕ
print_hex byte =
    if ltb byte 128
    then hex_pair byte
    else hex_pair 0xff ++ hex_pair 0xff ++ hex_pair 0xff ++ hex_pair byte

abbrev pub IsNonzero : ℕ → Type 0
IsNonzero c = 0 < c

-- The C string of an array is the text in front of its first 0.
pub c_string_lem : (text rest : List ℕ) → All IsNonzero text → c_string (text ++ 0 ∷ rest) ≡ ok text
c_string_lem [] rest h = refl
c_string_lem (zero ∷ text) rest h = absurd (omega (arith, h.0))
c_string_lem (suc c ∷ text) rest h = rw (c_string_lem text rest h.1) refl
