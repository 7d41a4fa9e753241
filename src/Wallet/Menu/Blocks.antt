-- ===== src/Wallet/Menu/Blocks.antt =====
-- The table of blocks over a session of the menu.
use mathlib.Core.Path.{subst}
use manhattan_group.Base.{
  ℕ, suc, ◌^◌, ◌≤◌, ◌<◌, ◌≡◌, List, ◌++◌, length, map, Bool, Option, some, arith,
}
use manhattan_group.Base.{ℤ, pos}
use manhattan_group.Vm.Outcome.{Result, ok, Returns, Returns-bind}
use manhattan_group.Chain.Database.{mine_answered}
use manhattan_group.Chain.Database.Two.{
  IsChain, IsChain-later, start_answered-IsChain, mine_answered-IsChain,
}
use manhattan_group.Wallet.Keys.{WalletRow, Signer, generate_address, Generated}
use manhattan_group.Wallet.Transaction.{Arrays, Input, TransactionRow, Created, create_transaction}
use manhattan_group.Wallet.Menu.{
  Operations, Session, state_of, run_menu, run_menu-Kept, Returns-then, after_call,
  after_call-Returns, Databases, Outside, operations, with_stored,
}

-- The clock at each operation: it starts at `clock n`, reads the time in `start_blockchain` and in
-- `create_block`, and ends before `clock (n + 1)`.
pub record InOrder (outside : Outside) : Type 0 where
  pub clock : ℕ → ℕ
  pub begun : ℕ → ℕ
  pub made : ℕ → ℕ
  pub before_lem : (n : ℕ) → outside.before n ≡ pos (suc (begun n))
  pub now_lem : (n : ℕ) → outside.now n ≡ pos (made n)
  pub starts : (n : ℕ) → clock n ≤ suc (begun n)
  pub goes_on : (n : ℕ) → suc (begun n) ≤ made n
  pub ends : (n : ℕ) → made n ≤ clock (suc n)
  pub fits : (n : ℕ) → made n < 2 ^ 31

module _ (signer : Signer) (sha3_384 sha384 b58enc : List ℕ → List ℕ) (strtol : ℕ → ℕ → ℕ)
    (tests : ℕ → List WalletRow → Result (ℕ × List Bool)) (structure : Input → List ℕ → List ℕ)
    (arrays : Arrays) (behind : List ℕ) (cells : TransactionRow → List (Option (List ℕ)))
    (outside : Outside) (size : (text : List ℕ) → length (sha384 text) ≡ 48)
    (link_room : (n : ℕ) → length (outside.fresh n).previous_hash ≡ 96)
    (hex_room : (n : ℕ) → length (outside.fresh n).block_hash_hex ≡ 128)
    (times : InOrder outside) where
  abbrev O : Operations
  O = operations signer sha3_384 sha384 b58enc strtol tests structure arrays behind cells outside

  -- The blocks of a state are those of a chain at the clock of its turn.
  abbrev Chained : Databases → Type 0
  Chained s = IsChain (times.clock s.turn) s.blocks

  next_turn : (s : Databases) → Chained s → IsChain (times.clock (suc s.turn)) s.blocks
  next_turn s h =
      IsChain-later (times.clock s.turn) (times.clock (suc s.turn)) s.blocks
        (omega (arith, times.starts s.turn, times.goes_on s.turn, times.ends s.turn)) h

  starts-Chained : (s : Databases) → Chained s → Returns Chained (O.start s)
  starts-Chained s h = rw (times.before_lem s.turn) (
      IsChain-later (times.made s.turn) (times.clock (suc s.turn)) _ (times.ends s.turn) (
        start_answered-IsChain (outside.answers s.turn) (times.clock s.turn) (times.begun s.turn)
          (times.made s.turn) s.blocks (times.starts s.turn) (times.goes_on s.turn)
          (times.fits s.turn) h))

  mines-Chained :
      (s : Databases) → Chained s → Returns (λ (r : Databases × Bool). Chained r.0) (O.mining s)
  mines-Chained s h =
      rw (times.before_lem s.turn, times.now_lem s.turn)
        (let m =
            mine_answered sha384 (outside.answers s.turn) outside.earlier (outside.fresh s.turn)
              (map cells s.pool) (pos (suc (times.begun s.turn))) (pos (times.made s.turn))
              s.blocks in
          Returns-bind (IsChain (times.made s.turn)) (λ (r : Databases × Bool). Chained r.0) m.0
            (λ blocks. after_call (record s { turn = suc s.turn; blocks = blocks }) m.1)
            (mine_answered-IsChain sha384 size outside.earlier (outside.answers s.turn)
              (outside.fresh s.turn) (map cells s.pool) (times.made s.turn) (link_room s.turn)
              (hex_room s.turn) (times.fits s.turn) (times.clock s.turn) (times.begun s.turn)
              s.blocks (times.starts s.turn) (times.goes_on s.turn) h)
            (λ blocks chain.
              after_call-Returns Chained (record s { turn = suc s.turn; blocks = blocks }) m.1
                (IsChain-later (times.made s.turn) (times.clock (suc s.turn)) blocks
                  (times.ends s.turn) chain)))

  generates-Chained : (s : Databases) → Chained s → Returns Chained (O.generate s)
  generates-Chained s h =
      Returns-then Chained
        (λ (g : Generated signer sha3_384 b58enc). record s {
          turn = suc s.turn;
          wallet = s.wallet ++ g.1.0;
        })
        (generate_address signer sha3_384 b58enc (outside.generate_opened s.turn)
          (outside.table_made s.turn) (outside.rounds s.turn) (tests s.turn) s.wallet)
        (λ g. next_turn s h)

  creates-Chained : (s : Databases) → Chained s → Returns Chained (O.create s)
  creates-Chained s h =
      Returns-then Chained
        (λ (c : Created). record s {
          turn = suc s.turn;
          pool =
              with_stored signer sha3_384 sha384 b58enc strtol tests structure arrays behind cells
                outside s.pool c;
        })
        (create_transaction signer sha3_384 strtol structure arrays behind
          (outside.create_calls s.turn) (outside.stdin s.turn) (map some s.wallet))
        (λ c. next_turn s h)

  -- Where the clock does not go back and stays below 2 ^ 31 (the hash has 48 bytes, the arrays of a
  -- block have their sizes): in a session of the menu in which no operation is undefined, whether it
  -- ends, asks again or exits, whatever is chosen and entered, and whatever the databases, liboqs and the
  -- allocator answer, a table of blocks that is empty, or holds a genesis row, or that row and one mined
  -- row that links to it, is one of these three at the end of the session.
  pub run_menu_blocks :
      (choices : List ℤ) (s : Databases) (session : Session O)
      → IsChain (times.clock s.turn) s.blocks
      → run_menu O choices s ≡ ok session
      → IsChain (times.clock (state_of O session).turn) (state_of O session).blocks
  run_menu_blocks choices s session h e =
      subst (Returns (λ (x : Session O). Chained (state_of O x))) e (
        run_menu-Kept O Chained generates-Chained creates-Chained mines-Chained starts-Chained
          choices s h)
