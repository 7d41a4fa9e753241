-- ===== src/Vm/Opcode.antt =====
-- The instructions that `execute_bytecode` tells apart, and the labels of its switch.
use manhattan_group.Base.{ℕ, ◌-◌, Bool, ◌&&◌, ◌||◌, leb, ◌==◌, if◌then◌else◌}

-- `nothing` is a case with an empty body: 0x1e, the instructions on the chain but BALANCE, GAS,
-- JUMPDEST and the system instructions.
pub data Op : Type 0 where
  stop add mul sub div sdiv rem smod addmod mulmod exp signextend : Op
  lt gt slt sgt eq iszero bitwise_and bitwise_or bitwise_xor bitwise_not byte shl shr sar : Op
  nothing balance pop mload mstore mstore8 sload sstore jump jumpi pc msize push0 : Op
  push dup swap log invalid : ℕ → Op

abbrev pub between : ℕ → ℕ → ℕ → Bool
between lo c hi = leb lo c && leb c hi

unfoldable pub decode_low : ℕ → Op
decode_low c =
    if c == 0x00
    then stop
    else if c == 0x01
    then add
    else if c == 0x02
    then mul
    else if c == 0x03
    then sub
    else if c == 0x04
    then div
    else if c == 0x05
    then sdiv
    else if c == 0x06
    then rem
    else if c == 0x07
    then smod
    else if c == 0x08
    then addmod
    else if c == 0x09
    then mulmod
    else if c == 0x0a
    then exp
    else if c == 0x0b
    then signextend
    else invalid c

unfoldable pub decode_compare : ℕ → Op
decode_compare c =
    if c == 0x10
    then lt
    else if c == 0x11
    then gt
    else if c == 0x12
    then slt
    else if c == 0x13
    then sgt
    else if c == 0x14
    then eq
    else if c == 0x15
    then iszero
    else if c == 0x16
    then bitwise_and
    else if c == 0x17
    then bitwise_or
    else if c == 0x18
    then bitwise_xor
    else if c == 0x19
    then bitwise_not
    else if c == 0x1a
    then byte
    else if c == 0x1b
    then shl
    else if c == 0x1c
    then shr
    else if c == 0x1d
    then sar
    else if c == 0x1e
    then nothing
    else invalid c

unfoldable pub decode_flow : ℕ → Op
decode_flow c =
    if c == 0x31
    then balance
    else if between 0x30 c 0x48
    then nothing
    else if c == 0x50
    then pop
    else if c == 0x51
    then mload
    else if c == 0x52
    then mstore
    else if c == 0x53
    then mstore8
    else if c == 0x54
    then sload
    else if c == 0x55
    then sstore
    else if c == 0x56
    then jump
    else if c == 0x57
    then jumpi
    else if c == 0x58
    then pc
    else if c == 0x59
    then msize
    else if between 0x5a c 0x5b
    then nothing
    else if c == 0x5f
    then push0
    else invalid c

unfoldable pub decode_high : ℕ → Op
decode_high c =
    if between 0x60 c 0x7f
    then push (c - 95)
    else if between 0x80 c 0x8f
    then dup (c - 127)
    else if between 0x90 c 0x9f
    then swap (c - 143)
    else if between 0xa0 c 0xa4
    then log (c - 160)
    else if between 0xf0 c 0xf5 || c == 0xfa || between 0xfd c 0xff
    then nothing
    else invalid c

unfoldable pub decode : ℕ → Op
unfolding decode_low decode_compare decode_flow decode_high
decode c =
    if leb c 0x0f
    then decode_low c
    else if leb c 0x1f
    then decode_compare c
    else if leb c 0x5f
    then decode_flow c
    else decode_high c
