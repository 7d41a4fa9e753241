-- ===== src/Net/Io.antt =====
-- What the functions of node_discovery/functions.h work on when they exchange files: the two files,
-- the socket, and what they have sent. Each call that can fail is a parameter; what a function has
-- done before it returns 1 stays done.
use manhattan_group.Base.{ℕ, Bool, true, false, List, Option}
use manhattan_group.Net.Socket.{Socket}

-- `nodes.db` and `nodes_.db`, as far as it exists.
pub record World : Type 0 where
  pub local_file : List ℕ
  pub temp_file : Option (List ℕ)
  pub socket : Socket
  pub sent : List ℕ

pub data Outcome {ℓ} (A : Type ℓ) : Type ℓ where
  done : A → World → Outcome A
  returns_1 : World → Outcome A
  never_returns : Outcome A
  undefined : Outcome A

abbrev pub Io {ℓ} : Type ℓ → Type ℓ
Io A = World → Outcome A

abbrev pub after {ℓ κ} : {A : Type ℓ} {B : Type κ} → Outcome A → (A → Io B) → Outcome B
after (done a w) f = f a w
after (returns_1 w) f = returns_1 w
after never_returns f = never_returns
after undefined f = undefined

infixl 5 ◌>>=◌ ◌>>◌
abbrev pub ◌>>=◌ {ℓ κ} : {A : Type ℓ} {B : Type κ} → Io A → (A → Io B) → Io B
(m >>= f) w = after (m w) f

abbrev pub ◌>>◌ {ℓ} : {B : Type ℓ} → Io (Unit {0}) → Io B → Io B
m >> k = m >>= λ _. k

-- A call that has to succeed.
abbrev pub requires : Bool → Io (Unit {0})
requires true w = done tt w
requires false w = returns_1 w
