-- ===== src/Chain/Miner/Hex.antt =====
-- What `hash_block` of miner.c writes into `block_hash_hex`: the calls of `sprintf` overlap, and each
-- but the last leaves two digits.
use mathlib.Core.List.{append_assoc}
use manhattan_group.Base.{
  ℕ, ◌+◌, ◌*◌, ◌/◌, ◌%◌, ◌≤◌, ◌<◌, ◌≡◌, refl, sym, ◌∙◌, ap, arith, List, [], ◌∷◌, ◌++◌, length,
  length-append, length-take, length-drop, take, drop, take-append, All, All-append, ltb,
  if◌then◌else◌, Bool-cases, inl, inr, le→leb,
}
use manhattan_group.Vm.Outcome.{ok}
use manhattan_group.Chain.Text.{
  c_string, write_text, hex_digit, hex_pair, print_hex, IsNonzero, c_string_lem,
}
use manhattan_group.Chain.Miner.{write_hex}

-- The two digits that are left of a byte: those of the byte, or `ff` from 0x80 on.
abbrev pub kept_digits : ℕ → List ℕ
kept_digits byte = if ltb byte 128 then hex_pair byte else hex_pair 0xff

-- The digits that a later call overwrites.
overwritten : ℕ → List ℕ
overwritten byte = if ltb byte 128 then [] else hex_pair 0xff ++ hex_pair 0xff ++ hex_pair byte

abbrev pub hex_text : List ℕ → List ℕ
hex_text [] = []
hex_text (byte ∷ []) = print_hex byte
hex_text (byte ∷ c ∷ bytes) = kept_digits byte ++ hex_text (c ∷ bytes)

print_hex-split : (byte : ℕ) → print_hex byte ≡ kept_digits byte ++ overwritten byte
unfolding overwritten
print_hex-split byte = elim (Bool-cases (ltb byte 128)) [ inl e ↦ rw e refl | inr e ↦ rw e refl ]

length-kept_digits : (byte : ℕ) → length (kept_digits byte) ≡ 2
length-kept_digits byte = elim (Bool-cases (ltb byte 128)) [ inl e ↦ rw e refl | inr e ↦ rw e refl ]

length-print_hex : (byte : ℕ) → length (print_hex byte) ≤ 8
length-print_hex byte = elim (Bool-cases (ltb byte 128)) [
  | inl e ↦ rw e (omega arith)
  | inr e ↦ rw e (omega arith)
]

write_text_lem :
    (array : List ℕ) (offset : ℕ) (text : List ℕ)
    → offset + length text + 1 ≤ length array
    → write_text array offset text
      ≡ ok (take offset array ++ text ++ 0 ∷ drop (offset + length text + 1) array)
unfolding write_text
write_text_lem array offset text h = rw (le→leb _ _ h) refl

-- An array that holds `text` from its start, with a 0 behind it.
abbrev pub Holds : List ℕ → List ℕ → Type 0
Holds array text = (rest : List ℕ) × (array ≡ text ++ 0 ∷ rest)

-- The array after a write.
abbrev overlay : List ℕ → ℕ → List ℕ → List ℕ
overlay array offset text = take offset array ++ text ++ 0 ∷ drop (offset + length text + 1) array

module _ (array : List ℕ) (offset : ℕ) (text : List ℕ)
    (room : offset + length text + 1 ≤ length array) where
  length-overlay : length (overlay array offset text) ≡ length array
  length-overlay =
      let e : length (take offset array ++ text ++ 0 ∷ drop (offset + length text + 1) array)
          ≡ length array =
        omega (
          arith,
          length-append (take offset array ++ text) (0 ∷ drop (offset + length text + 1) array),
          length-append (take offset array) text,
          length-take offset array (omega arith),
          length-drop (offset + length text + 1) array,
        ) in
      e

  take-overlay :
      (kept lost : List ℕ)
      → text ≡ kept ++ lost
      → take (offset + length kept) (overlay array offset text) ≡ take offset array ++ kept
  take-overlay kept lost e =
      ap (λ xs. take (offset + length kept) xs) regrouped
      ∙ take-append (take offset array ++ kept) (lost ++ 0 ∷ drop (offset + length text + 1) array)
          (offset + length kept)
          (omega
            (arith, length-append (take offset array) kept, length-take offset array (omega arith)))
    where
      regrouped :
          overlay array offset text
          ≡ (take offset array ++ kept) ++ (lost ++ 0 ∷ drop (offset + length text + 1) array)
      regrouped =
          ap (λ xs. (take offset array ++ xs) ++ 0 ∷ drop (offset + length text + 1) array) e
          ∙ ap (λ xs. xs ++ 0 ∷ drop (offset + length text + 1) array)
              (sym (append_assoc (take offset array) kept lost))
          ∙ append_assoc (take offset array ++ kept) lost _

write_hex_step :
    (i byte : ℕ) (bytes array : List ℕ)
    → i * 2 + 9 ≤ length array
    → write_hex i (byte ∷ bytes) array
      ≡ write_hex (i + 1) bytes (overlay array (i * 2) (print_hex byte))
unfolding write_hex
write_hex_step i byte bytes array h =
    rw (write_text_lem array (i * 2) (print_hex byte) (omega (arith, length-print_hex byte))) refl

write_hex_from :
    (bytes : List ℕ) (byte i : ℕ) (array : List ℕ)
    → i * 2 + 2 * length bytes + 9 ≤ length array
    → (hex : List ℕ) × (write_hex i (byte ∷ bytes) array ≡ ok hex)
      × Holds hex (take (i * 2) array ++ hex_text (byte ∷ bytes))
write_hex_from [] byte i array h = (
  overlay array (i * 2) (print_hex byte),
  write_hex_step i byte [] array (omega arith) ∙ (unfold write_hex in refl),
  (drop (i * 2 + length (print_hex byte) + 1) array, refl),
)
write_hex_from (c ∷ bytes) byte i array h =
    let room : i * 2 + length (print_hex byte) + 1 ≤ length array =
      omega (arith, length-print_hex byte) in
    let array₁ = overlay array (i * 2) (print_hex byte) in
    let (hex, written, (rest, e)) =
      write_hex_from bytes c (i + 1) array₁
        (omega (arith, length-overlay array (i * 2) (print_hex byte) room)) in
    (
      hex,
      write_hex_step i byte (c ∷ bytes) array (omega arith) ∙ written,
      (rest, e ∙ ap (λ xs. xs ++ 0 ∷ rest) (joined room)),
    )
  where
    digits : i * 2 + length (kept_digits byte) ≡ (i + 1) * 2
    digits = omega (arith, length-kept_digits byte)

    joined :
        i * 2 + length (print_hex byte) + 1 ≤ length array
        → take ((i + 1) * 2) (overlay array (i * 2) (print_hex byte)) ++ hex_text (c ∷ bytes)
          ≡ take (i * 2) array ++ hex_text (byte ∷ c ∷ bytes)
    joined room =
        ap (λ xs. xs ++ hex_text (c ∷ bytes))
          (ap (λ n. take n (overlay array (i * 2) (print_hex byte))) (sym digits)
            ∙ take-overlay array (i * 2) (print_hex byte) room (kept_digits byte) (overwritten byte)
                (print_hex-split byte))
        ∙ append_assoc (take (i * 2) array) (kept_digits byte) (hex_text (c ∷ bytes))

hex_digit-IsNonzero : (d : ℕ) → IsNonzero (hex_digit d)
hex_digit-IsNonzero d = elim (Bool-cases (ltb d 10)) [
  | inl e ↦ rw e (omega arith)
  | inr e ↦ rw e (omega arith)
]

hex_pair-IsNonzero : (byte : ℕ) → All IsNonzero (hex_pair byte)
hex_pair-IsNonzero byte = (hex_digit-IsNonzero (byte / 16), (hex_digit-IsNonzero (byte % 16), tt))

kept_digits-IsNonzero : (byte : ℕ) → All IsNonzero (kept_digits byte)
kept_digits-IsNonzero byte = elim (Bool-cases (ltb byte 128)) [
  | inl e ↦ rw e (hex_pair-IsNonzero byte)
  | inr e ↦ rw e (hex_pair-IsNonzero 0xff)
]

overwritten-IsNonzero : (byte : ℕ) → All IsNonzero (overwritten byte)
unfolding overwritten
overwritten-IsNonzero byte = elim (Bool-cases (ltb byte 128)) [
  | inl e ↦ rw e tt
  | inr e ↦ rw e (
      All-append IsNonzero (hex_pair 0xff ++ hex_pair 0xff) (hex_pair byte)
        (All-append IsNonzero (hex_pair 0xff) (hex_pair 0xff) (hex_pair-IsNonzero 0xff)
          (hex_pair-IsNonzero 0xff))
        (hex_pair-IsNonzero byte))
]

hex_text-IsNonzero : (bytes : List ℕ) → All IsNonzero (hex_text bytes)
hex_text-IsNonzero [] = tt
hex_text-IsNonzero (byte ∷ []) = rw (print_hex-split byte) (
    All-append IsNonzero (kept_digits byte) (overwritten byte) (kept_digits-IsNonzero byte)
      (overwritten-IsNonzero byte))
hex_text-IsNonzero (byte ∷ c ∷ bytes) =
    All-append IsNonzero (kept_digits byte) (hex_text (c ∷ bytes)) (kept_digits-IsNonzero byte)
      (hex_text-IsNonzero (c ∷ bytes))

-- Two digits for each byte at least.
pub length-hex_text : (bytes : List ℕ) → 2 * length bytes ≤ length (hex_text bytes)
length-hex_text [] = omega arith
length-hex_text (byte ∷ []) = omega (
  arith,
  ap length (print_hex-split byte),
  length-append (kept_digits byte) (overwritten byte),
  length-kept_digits byte,
)
length-hex_text (byte ∷ c ∷ bytes) = omega (
  arith,
  length-append (kept_digits byte) (hex_text (c ∷ bytes)),
  length-kept_digits byte,
  length-hex_text (c ∷ bytes),
)

-- The loop of `hash_block` writes inside an array with room for twice the bytes and 7 more, and what
-- it leaves there as a C string is, for each byte but the last, its two hexadecimal digits if the byte
-- is below 0x80 and else `ff`, and for the last byte all that `%02x` of a signed `char` prints.
pub write_hex_lem :
    (bytes array : List ℕ)
    → 0 < length bytes
    → 2 * length bytes + 7 ≤ length array
    → (hex : List ℕ) × (write_hex 0 bytes array ≡ ok hex) × (c_string hex ≡ ok (hex_text bytes))
write_hex_lem [] array some_bytes room = absurd (omega arith)
write_hex_lem (byte ∷ bytes) array some_bytes room =
    let (hex, written, (rest, e)) = write_hex_from bytes byte 0 array (omega arith) in
    (
      hex,
      written,
      rw e (c_string_lem (hex_text (byte ∷ bytes)) rest (hex_text-IsNonzero (byte ∷ bytes))),
    )
