-- ===== src/Vm/Stack/Heap.antt =====
-- The blocks of memory that `stack_create` of vm.c allocates and frees, and `stack_destroy`.
use manhattan_group.Base.{arith, ℕ, ◌*◌, ◌/◌, ◌≡◌, Bool, true, false, List, if◌then◌else◌}
use manhattan_group.Vm.Outcome.{Result, ok, exits, undefined}
use manhattan_group.Vm.Stack.{Stack, stack_create}

-- Which blocks are allocated: the stack, and those its `data`, `memory`, `memory->data` and `storage`
-- point to.
pub record Blocks : Type 0 where
  pub stack : Bool
  pub items : Bool
  pub memory : Bool
  pub memory_bytes : Bool
  pub storage : Bool

abbrev pub no_blocks : Blocks
no_blocks = record {
  stack = false;
  items = false;
  memory = false;
  memory_bytes = false;
  storage = false;
}

-- How the calls of `malloc` of `stack_create` end, in order.
pub record Granted : Type 0 where
  pub stack : Bool
  pub items : Bool
  pub memory : Bool
  pub memory_bytes : Bool
  pub storage : Bool

-- The last test: either of the two calls may have failed, and `storage` is not freed.
abbrev pub create_last : Bool → Bool → Bool × Blocks
create_last true true = (
  true,
  record { stack = true; items = true; memory = true; memory_bytes = true; storage = true },
)
create_last bytes false = (false, no_blocks)
create_last false true = (false, record no_blocks { storage = true })

-- Whether `stack_create` returns or exits, and the blocks that are allocated then.
unfoldable pub create_blocks : Granted → Bool × Blocks
create_blocks g =
    if g.stack
    then (if g.items
        then (if g.memory then create_last g.memory_bytes g.storage else (false, no_blocks))
        else (false, no_blocks))
    else (false, no_blocks)

-- The blocks of the stack and of its data are freed.
unfoldable pub stack_destroy : Blocks → Blocks
stack_destroy b = record b { items = false; stack = false }

-- By the size of a request, as `stack_create` takes the answers.
abbrev pub by_size : (ℕ → Bool) → ℕ → Granted
by_size granted capacity = record {
  stack = granted 32;
  items = granted (capacity * 8);
  memory = granted 16;
  memory_bytes = granted 32;
  storage = granted (8 * (32 / 8));
}

abbrev pub returns : Result Stack → Bool
returns (ok s) = true
returns (exits e) = false
returns undefined = false

-- The two models of `stack_create` return under the same answers.
pub create_blocks-stack_create :
    (granted : ℕ → Bool) (fresh : List ℕ) (capacity : ℕ)
    → (create_blocks (by_size granted capacity)).0 ≡ returns (stack_create granted fresh capacity)
unfolding create_blocks stack_create
create_blocks-stack_create granted fresh capacity = ground arith

-- Where `stack_create` returns, three blocks stay allocated after `stack_destroy`.
pub stack_destroy-create_blocks :
    (g : Granted)
    → (create_blocks g).0 ≡ true
    → stack_destroy ((create_blocks g).1)
      ≡ record no_blocks { memory = true; memory_bytes = true; storage = true }
unfolding create_blocks stack_destroy
stack_destroy-create_blocks g h = ground arith
