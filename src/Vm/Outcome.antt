-- ===== src/Vm/Outcome.antt =====
-- What a C function of vm.c does: it returns, it calls `exit(1)` after a message, or it runs into
-- behaviour that C leaves undefined (signed overflow, a shift by 64 or more, an access outside an
-- array).
use manhattan_group.Base.{ℕ, ◌≡◌, refl, ◌⊎◌, inl, inr, Bool, true, false, if◌then◌else◌, arith}

-- The messages that stand before `exit(1)`.
pub data ExitCause : Type 0 where
  stack_overflow stack_underflow allocation_failed : ExitCause
  division_by_zero modulo_by_zero exponent_overflow : ExitCause
  not_enough_elements byte_offset_out_of_range memory_out_of_bounds : ExitCause
  database_failed : ExitCause
  invalid_opcode : ℕ → ExitCause

pub data Result {ℓ} (A : Type ℓ) : Type ℓ where
  ok : A → Result A
  exits : ExitCause → Result A
  undefined : Result A

infixl 5 ◌>>=◌ ◌>>◌
abbrev pub ◌>>=◌ {ℓ κ} : {A : Type ℓ} {B : Type κ} → Result A → (A → Result B) → Result B
ok a >>= f = f a
exits e >>= f = exits e
undefined >>= f = undefined

abbrev pub ◌>>◌ {ℓ} : {B : Type ℓ} → Result (Unit {0}) → Result B → Result B
m >> k = m >>= λ _. k

abbrev pub exit_if : Bool → ExitCause → Result (Unit {0})
exit_if true e = exits e
exit_if false e = ok tt

-- A postcondition of the normal returns.
abbrev pub Returns {ℓ κ} : {A : Type ℓ} → (A → Type κ) → Result A → Type κ
Returns P (ok a) = P a
Returns P (exits e) = Unit
Returns P undefined = Unit

pub Returns-bind {ℓ κ μ ν} :
    {A : Type ℓ} {B : Type κ} (P : A → Type μ) (Q : B → Type ν) (m : Result A) (f : A → Result B)
    → Returns P m
    → ((a : A) → P a → Returns Q (f a))
    → Returns Q (m >>= f)
Returns-bind P Q (ok a) f h k = k a h
Returns-bind P Q (exits e) f h k = tt
Returns-bind P Q undefined f h k = tt

pub Returns-exit_if {ℓ κ} :
    {A : Type ℓ} (P : A → Type κ) (b : Bool) (e : ExitCause) (k : Result A)
    → Returns P k
    → Returns P (exit_if b e >> k)
Returns-exit_if P true e k h = tt
Returns-exit_if P false e k h = h

pub Returns-if {ℓ κ} :
    {A : Type ℓ} (P : A → Type κ) (b : Bool) (x y : Result A)
    → Returns P x
    → Returns P y
    → Returns P (if b then x else y)
Returns-if P true x y hx hy = hx
Returns-if P false x y hx hy = hy

pub Returns_of_eq {ℓ κ} :
    {A : Type ℓ} (P : A → Type κ) (m : Result A) (a : A) → m ≡ ok a → Returns P m → P a
Returns_of_eq P (ok b) a e h = ground arith
Returns_of_eq P (exits c) a e h = absurd (cc)
Returns_of_eq P undefined a e h = absurd (cc)

pub Returns-any {ℓ} : {A : Type ℓ} (m : Result A) → Returns (λ _. Unit {0}) m
Returns-any (ok a) = tt
Returns-any _ = tt

-- To split on a computed result and keep the equation.
pub Result-cases {ℓ} :
    {A : Type ℓ} (m : Result A)
    → ((a : A) × (m ≡ ok a)) ⊎ (((e : ExitCause) × (m ≡ exits e)) ⊎ (m ≡ undefined))
Result-cases (ok a) = inl (a, refl)
Result-cases (exits e) = inr (inl (e, refl))
Result-cases undefined = inr (inr refl)

-- A chain that returns has returned at its first step.
pub bind-ok {ℓ κ} :
    {A : Type ℓ} {B : Type κ} (m : Result A) (f : A → Result B) (b : B)
    → (m >>= f) ≡ ok b
    → (a : A) × (m ≡ ok a) × (f a ≡ ok b)
bind-ok (ok a) f b e = (a, refl, e)
bind-ok (exits c) f b e = absurd (cc)
bind-ok undefined f b e = absurd (cc)

pub bind_assoc {ℓ κ μ} :
    {A : Type ℓ} {B : Type κ} {C : Type μ} (m : Result A) (f : A → Result B) (g : B → Result C)
    → ((m >>= f) >>= g) ≡ (m >>= λ a. f a >>= g)
bind_assoc (ok a) f g = refl
bind_assoc (exits e) f g = refl
bind_assoc undefined f g = refl
