-- ===== src/Chain/Database/Two.antt =====
-- The length of the chain, whatever the calls answer.
use manhattan_group.Base.{
  ℕ, suc, ◌+◌, ◌^◌, ◌≤◌, ◌<◌, ◌≡◌, refl, ◌∙◌, ap, ◌⊎◌, inl, inr, Bool, true, false, List, [], ◌∷◌,
  length, Option, none, some, ltb, if◌then◌else◌, arith,
}
use manhattan_group.Base.{ℤ, pos, ◌-ℤ◌}
use mathlib.Core.Path.{subst}
use manhattan_group.Vm.Outcome.{Result, ok, exits, undefined, Returns}
use manhattan_group.Chain.Block.{Block}
use manhattan_group.Chain.Rows.{Row, to_int32, epoch, start_blockchain}
use manhattan_group.Chain.Rows.First.{epoch-IsNonzero}
use manhattan_group.Chain.Mine.{get_previous_hash, newest, later_row, insert_row, started}
use manhattan_group.Chain.Mine.Once.{genesis_row, other_length, time_before, time_now}
use manhattan_group.Net.Nodes.{same_text}
use manhattan_group.Chain.Database.{
  Answers, row_count, start_answered, table_after, insertion, mine_answered,
}
use manhattan_group.Chain.Database.Inserted.{insertion-fields}

-- With a genesis row at its head the table is left alone, whatever the rows were counted as.
start_same :
    (a : Answers) (now : ℤ) (b : ℕ) (rows : List Row)
    → (start_answered a now (genesis_row b ∷ rows)).1 ≡ genesis_row b ∷ rows
unfolding start_answered start_blockchain
start_same a now b rows = ground arith

start_new :
    (a : Answers) (now : ℤ)
    → ((start_answered a now []).1 ≡ [])
      ⊎ ((start_answered a now []).1
          ≡ record (genesis_row 0) { timestamp = to_int32 (now -ℤ pos 1) } ∷ [])
unfolding start_answered start_blockchain
start_new a now = by_run a.chain_opened a.genesis_run a.counted
  where
    first : Row
    first = record (genesis_row 0) { timestamp = to_int32 (now -ℤ pos 1) }

    begun : Bool → Bool → Bool → List Row
    begun opened runs counted =
        let e : ℤ × List Row =
          if opened
          then (
            pos 0,
            if runs then started [] (start_blockchain (row_count counted []) now) else [],
          )
          else (pos 1, []) in
        e.1

    by_run :
        (opened runs counted : Bool)
        → (begun opened runs counted ≡ []) ⊎ (begun opened runs counted ≡ first ∷ [])
    by_run true true true = inr refl
    by_run true true false = inr refl
    by_run true false counted = inl refl
    by_run false runs counted = inl refl

start_empty :
    (a : Answers) (b : ℕ)
    → b < 2 ^ 31
    → ((start_answered a (pos (suc b)) []).1 ≡ [])
      ⊎ ((start_answered a (pos (suc b)) []).1 ≡ genesis_row b ∷ [])
start_empty a b small = rw (time_before b small) at (start_new a (pos (suc b)))

-- An insertion is reached and succeeds, the table is left alone, or nothing is said of it.
table_after-cases :
    (table : List Row) (r : Result (Option Row))
    → (table_after table r ≡ ok table)
      ⊎ (table_after table r ≡ undefined)
      ⊎ ((row : Row) × (r ≡ ok (some row)) × (table_after table r ≡ ok (insert_row table row)))
table_after-cases table (ok none) = inl refl
table_after-cases table (ok (some row)) = inr (inr (row, refl, refl))
table_after-cases table (exits c) = inl refl
table_after-cases table undefined = inr (inl refl)

Returns-map {ℓ κ μ} :
    {A : Type ℓ} (P : A → Type κ) (Q : A → Type μ) (r : Result A)
    → Returns Q r
    → ((a : A) → Q a → P a)
    → Returns P r
Returns-map P Q (ok a) h f = f a h
Returns-map P Q (exits e) h f = tt
Returns-map P Q undefined h f = tt

-- What a table of the miner holds, with the time of the last call: nothing, a genesis row, or a
-- genesis row and a later one that links to it.
abbrev pub IsChain : ℕ → List Row → Type 0
IsChain clock [] = Unit
IsChain clock (genesis ∷ []) = (b : ℕ) × (b < clock) × (genesis ≡ genesis_row b)
IsChain clock (genesis ∷ row ∷ []) =
    (b : ℕ) × (t : ℕ) × (b < t)
    × (genesis ≡ genesis_row b)
    × (row.timestamp ≡ pos t)
    × (row.previous_hash ≡ epoch)
    × (96 ≤ length row.block_hash)
IsChain clock (genesis ∷ row ∷ next ∷ rows) = ⊥

pub IsChain-later : (c t : ℕ) (table : List Row) → c ≤ t → IsChain c table → IsChain t table
IsChain-later c t [] h chain = tt
IsChain-later c t (genesis ∷ []) h (b, young, e) = (b, omega arith, e)
IsChain-later c t (genesis ∷ row ∷ []) h chain = chain
IsChain-later c t (genesis ∷ row ∷ next ∷ rows) h chain = chain

pub start_answered-IsChain :
    (a : Answers) (c b t : ℕ) (table : List Row)
    → c ≤ suc b
    → suc b ≤ t
    → t < 2 ^ 31
    → IsChain c table
    → IsChain t (start_answered a (pos (suc b)) table).1
start_answered-IsChain a c b t [] old order young chain = elim (start_empty a b (omega arith)) [
  | inl e ↦ rw e tt
  | inr e ↦ rw e (b, omega arith, refl)
]
start_answered-IsChain a c b t (genesis ∷ []) old order young (b', before, e) =
    rw (e, start_same a (pos (suc b)) b' []) (b', omega arith, refl)
start_answered-IsChain a c b t (genesis ∷ row ∷ []) old order young
      (b', n, later, e, time, link, long) =
    rw (e, start_same a (pos (suc b)) b' (row ∷ [])) (b', n, later, refl, time, link, long)
start_answered-IsChain a c b t (genesis ∷ row ∷ next ∷ rows) old order young chain = absurd chain

module _ (sha384 : List ℕ → List ℕ) (size : (text : List ℕ) → length (sha384 text) ≡ 48)
    (earlier : Bool) where
  module _ (a : Answers) (fresh : Block) (pool : List (List (Option (List ℕ)))) (t : ℕ)
      (link_room : length fresh.previous_hash ≡ 96) (hex_room : length fresh.block_hash_hex ≡ 128)
      (young : t < 2 ^ 31) where
    -- Without a row there is no hash to copy.
    after_none :
        Returns (IsChain t) (table_after [] (insertion sha384 a earlier fresh pool (pos t) []))
    unfolding get_previous_hash newest
    after_none = elim (table_after-cases [] (insertion sha384 a earlier fresh pool (pos t) [])) [
      | inl same ↦ rw same tt
      | inr (inl lost) ↦ rw lost tt
      | inr (inr (row, reached, after)) ↦
          let (h, found, short, link, long, time) =
            insertion-fields sha384 size earlier a fresh pool (pos t) [] row link_room hex_room
              reached in
          absurd (cc)
    ]

    after_genesis :
        (b : ℕ)
        → b < t
        → Returns (IsChain t) (
            table_after
              (genesis_row b ∷ [])
              (insertion sha384 a earlier fresh pool (pos t) (genesis_row b ∷ [])))
    unfolding get_previous_hash newest
    after_genesis b order =
        elim (table_after-cases (genesis_row b ∷ [])
          (insertion sha384 a earlier fresh pool (pos t) (genesis_row b ∷ []))) [
            | inl same ↦ rw same (b, order, refl)
            | inr (inl lost) ↦ rw lost tt
            | inr (inr (row, reached, after)) ↦
                let (h, found, short, link, long, time) =
                  insertion-fields sha384 size earlier a fresh pool (pos t) (genesis_row b ∷ []) row
                    link_room hex_room reached in
                let is_epoch : h ≡ epoch = cc in
                let new : same_text epoch row.block_hash ≡ false =
                  other_length epoch row.block_hash (omega (arith, long)) in
                rw (after, new)
                  (
                    b,
                    t,
                    order,
                    refl,
                    time ∙ time_now t young,
                    link (rw is_epoch epoch-IsNonzero) ∙ is_epoch,
                    long,
                  )
          ]

    -- With the digits of a hash in the newest row no row is inserted.
    after_mined :
        (b n : ℕ) (row : Row)
        → b < n
        → row.timestamp ≡ pos n
        → 96 ≤ length row.block_hash
        → Returns
            (λ after. after ≡ genesis_row b ∷ row ∷ [])
            (table_after
              (genesis_row b ∷ row ∷ [])
              (insertion sha384 a earlier fresh pool (pos t) (genesis_row b ∷ row ∷ [])))
    unfolding get_previous_hash newest
    after_mined b n row order time long =
        elim (table_after-cases (genesis_row b ∷ row ∷ [])
          (insertion sha384 a earlier fresh pool (pos t) (genesis_row b ∷ row ∷ []))) [
            | inl same ↦ rw same refl
            | inr (inl lost) ↦ rw lost tt
            | inr (inr (next, reached, after)) ↦
                let (h, found, short, link, long', time') =
                  insertion-fields sha384 size earlier a fresh pool (pos t)
                    (genesis_row b ∷ row ∷ []) next link_room hex_room reached in
                let last : later_row earlier (genesis_row b) (some row) ≡ row =
                  rw (time, is_later b n order) refl in
                let copied : row.block_hash ≡ h = cc in
                absurd (omega (arith, short, long, ap length copied))
          ]
      where
        is_later : (b t : ℕ) → b < t → ltb (b + 0) (t + 0) ≡ true
        is_later b t h = ground arith

    inserted-IsChain :
        (table : List Row)
        → IsChain t table
        → Returns
            (IsChain t)
            (table_after table (insertion sha384 a earlier fresh pool (pos t) table))
    inserted-IsChain [] chain = after_none
    inserted-IsChain (genesis ∷ []) (b, order, e) = rw e (after_genesis b order)
    inserted-IsChain (genesis ∷ row ∷ []) (b, n, later, e, time, link, long) = rw e (
        Returns-map (IsChain t) (λ after. after ≡ genesis_row b ∷ row ∷ [])
          (table_after (genesis_row b ∷ row ∷ [])
            (insertion sha384 a earlier fresh pool (pos t) (genesis_row b ∷ row ∷ [])))
          (after_mined b n row later time long)
          (λ after same. rw same (b, n, later, refl, time, link, long)))
    inserted-IsChain (genesis ∷ row ∷ next ∷ rows) chain = absurd chain

    pub mine_answered-IsChain :
        (c b : ℕ) (table : List Row)
        → c ≤ suc b
        → suc b ≤ t
        → IsChain c table
        → Returns
            (IsChain t)
            (mine_answered sha384 a earlier fresh pool (pos (suc b)) (pos t) table).0
    unfolding mine_answered
    mine_answered-IsChain c b table old order chain =
        inserted-IsChain (start_answered a (pos (suc b)) table).1
          (start_answered-IsChain a c b t table old order young chain)

  -- A table of blocks that the program can leave, from no table on, and the time of the last call. Each
  -- call of `mine` has its own answers, pool and uninitialised block; it may return or exit.
  pub data Mines : ℕ → List Row → Type 0 where
    new : Mines 0 []
    mined :
        {c : ℕ} {table after : List Row} (a : Answers) (fresh : Block)
        (pool : List (List (Option (List ℕ)))) (b t : ℕ)
        → Mines c table
        → length fresh.previous_hash ≡ 96
        → length fresh.block_hash_hex ≡ 128
        → c ≤ suc b
        → suc b ≤ t
        → t < 2 ^ 31
        → (mine_answered sha384 a earlier fresh pool (pos (suc b)) (pos t) table).0 ≡ ok after
        → Mines t after

  -- Where the clock does not go back and stays below 2 ^ 31 (the hash has 48 bytes, the arrays of a
  -- block have their sizes): whatever SQLite and the allocator answer, after any number of calls of `mine`, each of which returns or exits and none
  -- of which is undefined, the table of blocks is empty, or holds the genesis row, or that row and one mined row, which has the genesis
  -- row's hash as its previous hash and a later timestamp.
  pub mines_two : {clock : ℕ} {table : List Row} → Mines clock table → IsChain clock table
  mines_two new = tt
  mines_two
        (mined {c} {table} {after} a fresh pool b t before link_room hex_room old order young ran) =
      subst (Returns (IsChain t)) ran (
        mine_answered-IsChain a fresh pool t link_room hex_room young c b table old order
          (mines_two before))
