-- ===== src/Lib.antt =====
-- Manhattan Group: verification of its virtual machine, its blocks, its keys and its network.
--
-- The repository is a blockchain in C, in parts that do not call each other yet (README.md):
-- smart_contract_platform/vm.c runs contract bytecode, blockchain_cryptocurrency/ holds the wallet,
-- the transactions and the miner, node_discovery/ and propagation_latency/ the peer-to-peer network.
--
-- Base: the Boolean tests, lists, signed integers and laws of bit operations that the rest shares.
-- Vm/Outcome: what a call does: it returns, it exits with a message, or it is undefined behaviour.
-- Vm/Int64: `int64_t` as gcc compiles it on a 64-bit machine.
-- Vm/Stack: `Stack` and `Memory`, `stack_create`, `stack_push`, `stack_pop`, `stack_dup`,
--   `stack_swap`, `stack_LOG`, `stack_clear` and the storage functions of vm.c, under their names
--   (`stack_log` for `stack_LOG`). Stack/Blocks and Stack/Logs hold the theorems on them;
--   Stack/Printed has `print_stack`, Stack/Heap the blocks of memory that `stack_create` allocates and
--   `stack_destroy` frees.
-- Vm/Arith, Vm/Compare, Vm/Access: the values and effects of the cases of `execute_bytecode`, one
--   definition for each opcode; their child modules hold the theorems.
-- Vm/Opcode, Vm/Execute: the labels of the switch, and the loop of `execute_bytecode`; `perform`
--   and `step` run one instruction. Execute/Rounds, Execute/Fuel and Execute/Jumps prove about them.
-- Vm/Main: the programs that `main` of vm.c runs.
-- Vm/Valid: the invariant of the machine, and that every instruction preserves it.
-- Vm/Compiler: expressions with conditionals, their values and their translation to bytecode, which is
--   not in the repository: a specification of `execute_bytecode` on whole programs. Compiler/Runs has
--   the laws of parts of a run, Compiler/Steps the rounds, Compiler/Branches and Compiler/Correct the
--   parts of an expression, Compiler/Whole a program. Compiler/Loop is a loop in bytecode, with its
--   rounds in Loop/Rounds and its results in Loop/Same.
-- Chain/Text, Chain/Digits, Chain/Block: C strings and printing, and `struct block` of
--   blockchain_cryptocurrency/functions.h.
-- Chain/Miner: `hash_block` and `create_block` of blockchain_cryptocurrency/miner.c. Miner/Proof and
--   Miner/Total are about the search for a nonce, Miner/Hex about the digits of the hash, Miner/Create
--   about new blocks.
-- Chain/Verify: `validate_block` and `validate_blockchain` of blockchain_cryptocurrency/verifications.c;
--   Verify/Work and Verify/Links are about what they accept, Verify/Shifted about the text of a block.
-- Chain/Rows: the rows that `start_blockchain` of blockchain_cryptocurrency/blockchain.c and
--   `add_block` of miner.c insert. Chain/Mine: `get_previous_hash` and `mine` of miner.c over these rows.
--   Chain/Database: the same functions where calls of SQLite and the allocator fail, and the tables that
--   they leave; Database/Inserted and Database/Two prove about these, Database/Whole that it is `mine`
--   where every call succeeds.
-- Net/Socket, Net/Io: a connected socket whose `recv` follows a schedule of events, and the files that
--   an exchange works on.
-- Net/Exchange: `connect_to_server` and `the_server` of node_discovery/functions.h. Exchange/Whole is
--   about an exchange that succeeds, Exchange/Closed about a peer that closes too early.
-- Net/Nodes: `process_nodes_db` and `insert_node` of the same file, over an interface of a table, which
--   Nodes/Merge takes as a parameter with its law; Nodes/Random: `get_random_node`; Nodes/Threads: the
--   three threads of node_discovery/node_discovery.c as steps, with what every run keeps in
--   Threads/Safe and a round of the client in Threads/Round. Nodes/Interleaved takes the loop of
--   `process_nodes_db` apart into steps, between which the other threads run; Interleaved/Kept is about
--   what these runs keep, Interleaved/Merged proves that a call is such a run, and is about a file that
--   is lost. Nodes/Meeting is about two nodes that connect to each other.
-- Net/OwnAddress: `get_public_ip`, `extract_ipv4`, and a round of `thread_tasks`.
-- Net/Propagation: the functions of propagation_latency/functions.h; Propagation/Message proves about
--   `receive_message`. Propagation/Main: `main` of propagation_latency/propagation.c.
-- Chain/Coinbase: coinbase.c, a program of its own.
-- Wallet/Hex: keys as hexadecimal text, with `hex_to_bin` of blockchain_cryptocurrency/transactions.c and
--   `hex2bin` of verifications.c.
-- Wallet/Keys: `generate_key_pair`, `generate_new_address` and `generate_address` of
--   blockchain_cryptocurrency/wallet.c, `validate_key_pair` and `test_keys_in_wallet` of
--   verifications.c. Keys/Filled and Keys/Stored are about the rows of the wallet.
-- Wallet/Transaction: `sign_transaction`, `get_txid` and `create_transaction` of transactions.c, with the
--   theorems in Transaction/Sign, Transaction/Id and Transaction/Create;
--   Transaction/Validate has `validate_transaction` of verifications.c. Wallet/Menu: `main` of wallet.c, over an interface of its operations that the
--   functions above fill; Menu/Blocks is about the blocks over a session. Wallet/Table: `print_table`
--   of wallet.c.
--
-- A stack is the list of its values, the top first, with the capacity beside it; `top` is the length
-- less one. A value is an integer, and `IsInt64` says that it is in the range of `int64_t`. The loop
-- of `execute_bytecode` runs on fuel, one unit for each instruction: bytecode may loop for ever, and
-- without jumps the length and one more is enough. The loop of EXP halves an exponent below 2 ^ 63, so
-- its 64 rounds are never used up. The search for a nonce has one unit for each `int` from 0 on, after
-- which the counter overflows. SHA-384 is a parameter, and so are the rows of the transaction pool;
-- `create_block` and `start_blockchain` take the answers to their other queries as arguments, which
-- `mine` takes from its table. In Chain/Database an answer for each call says whether it succeeds; a
-- query on a closed database, or through a null pointer, is undefined, and undefined behaviour leaves
-- no table to speak of, while an exit leaves the one before it. The arrays of a block are lists of their bytes, and `char` is signed.
-- A list of events says what each call of `recv` comes back with, so that a theorem on every list is
-- one on every network; the loops over `recv` recur on that list, and end without a result where it
-- ends. The loop over `fread` has as much fuel as the file has bytes, and each round takes one. What
-- SQLite, the sockets, `malloc` and `regexec` answer is a parameter, and what is written with `fwrite`
-- is taken to be in the file at once. The threads make their calls in any order, each
-- call at once but for the loop that Nodes/Interleaved takes apart.
-- The keys of Dilithium2 and their texts have the sizes that the macros of functions.h give; the arrays
-- that `create_transaction` and `sign_transaction` fill are parameters with what lies behind them, so a
-- theorem says by their lengths whether a byte past the end can be written; so are the bytes behind the
-- texts in `h_wallet` of `generate_address`. Undefined behaviour, a write past an array included, has
-- no result: a theorem on defined runs says nothing of what a program does after it.
--
-- Not modelled: most of what is printed, and the freeing of memory but for Stack/Heap.
-- base58.c is a copy of libbase58: `b58enc` is a parameter, as are liboqs and OpenSSL.
mod Base
pub mod Vm
pub mod Chain
pub mod Net
pub mod Wallet
