-- ===== src/Wallet/Menu.antt =====
-- `main` of blockchain_cryptocurrency/wallet.c: the menu, over the operations of the other parts.
pub mod Blocks
use mathlib.Core.Path.{subst}
use manhattan_group.Base.{
  ℕ, suc, ◌≡◌, refl, ◌⊎◌, inl, inr, Bool, true, false, ◌&&◌, length, map, List, [], ◌∷◌, ◌++◌,
  Option, none, some, leb, ◌==◌, if◌then◌else◌,
}
use manhattan_group.Base.{ℤ, pos, negsuc}
use manhattan_group.Vm.Outcome.{
  Result, ok, exits, undefined, ◌>>=◌, Returns, Returns-bind, Returns-if, Returns-any,
}
use manhattan_group.Chain.Block.{Block}
use manhattan_group.Chain.Rows.{Row}
use manhattan_group.Chain.Database.{Answers, start_answered, mine_answered}
use manhattan_group.Wallet.Transaction.Create.{create_transaction_undefined}
use manhattan_group.Wallet.Keys.{
  secret_key_size, WalletRow, RoundCalls, Signer, generate_address, Generated,
}
use manhattan_group.Wallet.Transaction.{
  Arrays, Input, TransactionRow, Created, fails, stores, CreateCalls, create_transaction,
}

-- What the menu calls: each operation takes the state of the three databases to the next one. The
-- second component of a mining's result says whether it returns, or exits.
pub record Operations : Type 1 where
  pub State : Type 0
  pub generate : State → Result State
  pub create : State → Result State
  pub mining : State → Result (State × Bool)
  pub start : State → Result State

-- The entries of the menu, as the switch tells them apart.
pub data Entry : Type 0 where
  generate_addresses : Entry
  print_out : Entry
  make_transaction : Entry
  mine_block : Entry
  print_blockchain : Entry
  verify : Entry
  leave : Entry
  only_numbers : Entry

unfoldable pub entry_of : ℤ → Entry
entry_of (negsuc n) = only_numbers
entry_of (pos n) =
    if n == 1
    then generate_addresses
    else if n == 2
    then print_out
    else if n == 3
    then make_transaction
    else if n == 4
    then print_out
    else if n == 5
    then mine_block
    else if n == 6
    then print_blockchain
    else if leb 7 n && leb n 12
    then verify
    else if n == 13
    then leave
    else only_numbers

module _ (O : Operations) where
  -- How the menu goes on with the state: it asks again, it has returned, or an operation has exited.
  pub data Session : Type 0 where
    returned : O.State → Session
    asks : O.State → Session
    exited : O.State → Session

  abbrev pub state_of : Session → O.State
  state_of (returned s) = s
  state_of (asks s) = s
  state_of (exited s) = s

  -- The entries 7 to 12 validate `t` and `b`, which were never written.
  abbrev pub choose : Entry → O.State → (O.State → Result Session) → Result Session
  choose generate_addresses s rest = O.generate s >>= rest
  choose print_out s rest = rest s
  choose make_transaction s rest = O.create s >>= rest
  choose mine_block s rest = O.mining s >>= λ r. if r.1 then rest r.0 else ok (exited r.0)
  choose print_blockchain s rest = O.start s >>= rest
  choose verify s rest = undefined
  choose leave s rest = ok (returned s)
  choose only_numbers s rest = rest s

  -- With the numbers that are entered, after which it asks for the next one.
  unfoldable pub run_menu : List ℤ → O.State → Result Session
  unfolding entry_of
  run_menu [] s = ok (asks s)
  run_menu (choice ∷ choices) s = choose (entry_of choice) s (run_menu choices)

  -- What every operation keeps, a session keeps.
  module _ {ℓ} (P : O.State → Type ℓ)
      (generate_keeps : (s : O.State) → P s → Returns P (O.generate s))
      (create_keeps : (s : O.State) → P s → Returns P (O.create s))
      (mining_keeps : (s : O.State) → P s → Returns (λ (r : O.State × Bool). P r.0) (O.mining s))
      (start_keeps : (s : O.State) → P s → Returns P (O.start s)) where
    abbrev pub Kept : Session → Type ℓ
    Kept session = P (state_of session)

    choose-Kept :
        (entry : Entry) (s : O.State) (rest : O.State → Result Session)
        → P s
        → ((t : O.State) → P t → Returns Kept (rest t))
        → Returns Kept (choose entry s rest)
    choose-Kept generate_addresses s rest h k =
        Returns-bind P Kept (O.generate s) rest (generate_keeps s h) k
    choose-Kept print_out s rest h k = k s h
    choose-Kept make_transaction s rest h k =
        Returns-bind P Kept (O.create s) rest (create_keeps s h) k
    choose-Kept mine_block s rest h k =
        Returns-bind (λ (r : O.State × Bool). P r.0) Kept (O.mining s)
          (λ r. if r.1 then rest r.0 else ok (exited r.0)) (mining_keeps s h)
          (λ r h'. Returns-if Kept r.1 (rest r.0) (ok (exited r.0)) (k r.0 h') h')
    choose-Kept print_blockchain s rest h k =
        Returns-bind P Kept (O.start s) rest (start_keeps s h) k
    choose-Kept verify s rest h k = tt
    choose-Kept leave s rest h k = h
    choose-Kept only_numbers s rest h k = k s h

    pub run_menu-Kept : (choices : List ℤ) (s : O.State) → P s → Returns Kept (run_menu choices s)
    unfolding run_menu
    run_menu-Kept [] s h = h
    run_menu-Kept (choice ∷ choices) s h =
        choose-Kept (entry_of choice) s (run_menu choices) h (run_menu-Kept choices)

-- A result that is made into a state with some property, whatever it is.
pub Returns-then {ℓ κ μ} :
    {A : Type ℓ} {B : Type κ} (P : B → Type μ) (f : A → B) (r : Result A)
    → ((a : A) → P (f a))
    → Returns P (r >>= λ a. ok (f a))
Returns-then P f (ok a) h = h a
Returns-then P f (exits c) h = tt
Returns-then P f undefined h = tt

-- The state after a call, and whether the call returns or exits.
abbrev pub after_call {ℓ κ} : {A : Type ℓ} {B : Type κ} → B → Result A → Result (B × Bool)
after_call b (ok a) = ok (b, true)
after_call b (exits c) = ok (b, false)
after_call b undefined = undefined

pub after_call-Returns {ℓ κ μ} :
    {A : Type ℓ} {B : Type κ} (P : B → Type μ) (b : B) (r : Result A)
    → P b
    → Returns (λ (x : B × Bool). P x.0) (after_call b r)
after_call-Returns P b (ok a) h = h
after_call-Returns P b (exits c) h = h
after_call-Returns P b undefined h = tt

-- The three databases, and the number of the operation.
pub record Databases : Type 0 where
  pub turn : ℕ
  pub wallet : List WalletRow
  pub pool : List TransactionRow
  pub blocks : List Row

-- What an operation takes from outside: its calls, its input and its times, by the turn.
pub record Outside : Type 0 where
  pub generate_opened : ℕ → Bool
  pub table_made : ℕ → Bool
  pub rounds : ℕ → ℕ → RoundCalls
  pub create_calls : ℕ → CreateCalls
  pub stdin : ℕ → List ℕ
  pub answers : ℕ → Answers
  pub earlier : Bool
  pub fresh : ℕ → Block
  pub before : ℕ → ℤ
  pub now : ℕ → ℤ

module _ (signer : Signer) (sha3_384 sha384 b58enc : List ℕ → List ℕ) (strtol : ℕ → ℕ → ℕ)
    (tests : ℕ → List WalletRow → Result (ℕ × List Bool)) (structure : Input → List ℕ → List ℕ)
    (arrays : Arrays) (behind : List ℕ) (cells : TransactionRow → List (Option (List ℕ)))
    (outside : Outside) where
  abbrev pub with_stored : List TransactionRow → Created → List TransactionRow
  with_stored pool fails = pool
  with_stored pool (stores none) = pool
  with_stored pool (stores (some row)) = pool ++ row ∷ []

  -- The operations of wallet.c, transactions.c, miner.c and blockchain.c.
  abbrev pub operations : Operations
  operations = record {
    State = Databases;
    generate = λ s.
        generate_address signer sha3_384 b58enc (outside.generate_opened s.turn)
          (outside.table_made s.turn) (outside.rounds s.turn) (tests s.turn) s.wallet
        >>= λ g. ok (record s { turn = suc s.turn; wallet = s.wallet ++ g.1.0 });
    create = λ s.
        create_transaction signer sha3_384 strtol structure arrays behind
          (outside.create_calls s.turn) (outside.stdin s.turn) (map some s.wallet)
        >>= λ c. ok (record s { turn = suc s.turn; pool = with_stored s.pool c });
    mining = λ s.
        let m =
          mine_answered sha384 (outside.answers s.turn) outside.earlier (outside.fresh s.turn)
            (map cells s.pool) (outside.before s.turn) (outside.now s.turn) s.blocks in
        m.0 >>= λ blocks. after_call (record s { turn = suc s.turn; blocks = blocks }) m.1;
    start = λ s. ok (record s {
      turn = suc s.turn;
      blocks = (start_answered (outside.answers s.turn) (outside.before s.turn) s.blocks).1;
    });
  }

  -- With the array for the private key that `sign_transaction` declares and the `txid` of `struct
  -- transaction`, where SHA3-384 gives 48 bytes: a session of the menu in which no operation is
  -- undefined, whether it ends, asks again or exits, leaves the pool of transactions as it was, whatever is
  -- chosen, entered and found.
  pub run_menu_pool :
      (choices : List ℤ) (s : Databases) (session : Session operations)
      → length arrays.private_bin ≡ secret_key_size
      → length arrays.txid ≡ 96
      → ((message : List ℕ) → length (sha3_384 message) ≡ 48)
      → run_menu operations choices s ≡ ok session
      → (state_of operations session).pool ≡ s.pool
  run_menu_pool choices s session size id_size hash_size e =
      subst (Returns (λ (x : Session operations). (state_of operations x).pool ≡ s.pool)) e (
        run_menu-Kept operations (λ t. t.pool ≡ s.pool) generates creates mines (λ t h. h) choices s
          refl)
    where
      Same : Databases → Type 0
      Same t = t.pool ≡ s.pool

      generates : (t : Databases) → Same t → Returns Same (operations.generate t)
      generates t h =
          Returns-then Same
            (λ (g : Generated signer sha3_384 b58enc). record t {
              turn = suc t.turn;
              wallet = t.wallet ++ g.1.0;
            })
            (generate_address signer sha3_384 b58enc (outside.generate_opened t.turn)
              (outside.table_made t.turn) (outside.rounds t.turn) (tests t.turn) t.wallet)
            (λ g. h)

      mines :
          (t : Databases)
          → Same t
          → Returns (λ (r : Databases × Bool). Same r.0) (operations.mining t)
      mines t h =
          let m =
            mine_answered sha384 (outside.answers t.turn) outside.earlier (outside.fresh t.turn)
              (map cells t.pool) (outside.before t.turn) (outside.now t.turn) t.blocks in
          Returns-bind (λ (_ : List Row). Unit {0}) (λ (r : Databases × Bool). Same r.0) m.0
            (λ blocks. after_call (record t { turn = suc t.turn; blocks = blocks }) m.1)
            (Returns-any m.0)
            (λ blocks _.
              after_call-Returns Same (record t { turn = suc t.turn; blocks = blocks }) m.1 h)

      creates : (t : Databases) → Same t → Returns Same (operations.create t)
      creates t h = by_end _ (
          create_transaction_undefined signer sha3_384 strtol structure arrays behind
            (outside.create_calls t.turn) (outside.stdin t.turn) (map some t.wallet) size id_size
            hash_size)
        where
          by_end :
              (r : Result Created)
              → (r ≡ ok fails) ⊎ (r ≡ undefined)
              → Returns Same
                  (r >>= λ c. ok (record t { turn = suc t.turn; pool = with_stored t.pool c }))
          by_end r (inl ends) = rw ends h
          by_end r (inr ends) = rw ends tt
