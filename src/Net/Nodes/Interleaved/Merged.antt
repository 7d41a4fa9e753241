-- ===== src/Net/Nodes/Interleaved/Merged.antt =====
-- Runs of the loop of `process_nodes_db`: one that nothing interrupts, and one that loses a file.
use manhattan_group.Base.{
  ℕ, ◌+◌, ◌≡◌, refl, sym, ◌∙◌, inl, inr, ◌≤◌, ◌<◌, ◌^◌, Bool, true, false, List, [], ◌∷◌, Option,
  none, some, All, length, Bool-cases, if◌then◌else◌,
}
use mathlib.Core.Path.{subst}
use mathlib.Core.Option.{some-injective}
use manhattan_group.Net.Socket.{Event}
use manhattan_group.Net.Socket.Loop.{Arrives}
use manhattan_group.Net.Exchange.Whole.{server_well, the_server_lem}
use manhattan_group.Net.Nodes.{
  NodeRow, NodeStore, ProcessCalls, insert_rows, process_nodes_db, finish_process, Processed,
}
use manhattan_group.Net.Nodes.Threads.{choosing, processing, Environment}
use manhattan_group.Net.Nodes.Interleaved.{
  outside, merging, removing, Fine, reads, FineStep, server_serves, begins, refuses, inserts,
  breaks_off, comes_to_end, removes, FineRuns, stays, and_then,
}

module _ (S : NodeStore) (E : Environment S) where
  FineRuns-trans : (σ τ υ : Fine S) → FineRuns S E σ τ → FineRuns S E τ υ → FineRuns S E σ υ
  FineRuns-trans σ τ υ first (stays _) = first
  FineRuns-trans σ τ υ first (and_then _ ρ _ before last) =
      and_then σ ρ υ (FineRuns-trans σ τ ρ first before) last

  one_step : (σ τ : Fine S) → FineStep S E σ τ → FineRuns S E σ τ
  one_step σ τ step = and_then σ σ τ (stays σ) step

  module _ (calls : ProcessCalls) where
    abbrev in_loop : ℕ → List NodeRow → S.State → Option (List ℕ) → Fine S
    in_loop i rows s temp = record { table = s; temp = temp; phase = merging calls i rows }

    abbrev behind_loop : Option (List ℕ) → Bool × S.State → Fine S
    behind_loop temp (true, t) = record { table = t; temp = temp; phase = removing calls }
    behind_loop temp (false, t) = record { table = t; temp = temp; phase = outside choosing }

    loop-FineRuns :
        (i : ℕ) (rows : List NodeRow) (s : S.State) (temp : Option (List ℕ))
        → FineRuns S E (in_loop i rows s temp) (behind_loop temp (insert_rows S calls i rows s))
    unfolding insert_rows
    loop-FineRuns i [] s temp =
        one_step (in_loop i [] s temp) (behind_loop temp (true, s))
          (comes_to_end (in_loop i [] s temp) calls i refl)
    loop-FineRuns i (row ∷ rows) s temp = elim (Bool-cases (calls.prepared i)) [
      | inl e ↦ rw e (
          let t = if calls.stepped i then S.insert s row else s in
          FineRuns-trans (in_loop i (row ∷ rows) s temp) (in_loop (i + 1) rows t temp) _
            (one_step (in_loop i (row ∷ rows) s temp) (in_loop (i + 1) rows t temp)
              (inserts (in_loop i (row ∷ rows) s temp) calls i row rows refl e))
            (loop-FineRuns (i + 1) rows t temp))
      | inr e ↦ rw e (
          one_step (in_loop i (row ∷ rows) s temp) (behind_loop temp (false, s))
            (breaks_off (in_loop i (row ∷ rows) s temp) calls i row rows refl e))
    ]

    abbrev ready : S.State → Option (List ℕ) → Fine S
    ready s temp = record { table = s; temp = temp; phase = outside processing }

    abbrev processed : Processed S → Fine S
    processed r = record { table = r.1.0; temp = r.1.1; phase = outside choosing }

    finish-FineRuns :
        (σ : Fine S) (file : List ℕ) (r : Bool × S.State)
        → FineRuns S E σ (behind_loop (some file) r)
        → FineRuns S E σ (processed (finish_process S calls file r))
    finish-FineRuns σ file (false, t) run = run
    finish-FineRuns σ file (true, t) run =
        and_then σ (behind_loop (some file) (true, t)) _ run
          (removes (behind_loop (some file) (true, t)) calls refl)

    -- A call of `process_nodes_db` that nothing interrupts is a run of its steps: from the state before
    -- the call to the one that the whole call leaves, whichever of its calls fail.
    pub process_nodes_db-FineRuns :
        (s : S.State) (temp : Option (List ℕ))
        → FineRuns S E (ready s temp) (processed (process_nodes_db S E.rows_of calls s temp))
    unfolding process_nodes_db
    process_nodes_db-FineRuns s none =
        one_step (ready s none) (processed (1, (s, none))) (refuses (ready s none) refl)
    process_nodes_db-FineRuns s (some file) = elim (Bool-cases (reads S calls)) [
      | inl e ↦ rw e (
          finish-FineRuns (ready s (some file)) file (insert_rows S calls 0 (E.rows_of file) s) (
            FineRuns-trans (ready s (some file)) (in_loop 0 (E.rows_of file) s (some file)) _
              (one_step (ready s (some file)) (in_loop 0 (E.rows_of file) s (some file))
                (begins (ready s (some file)) file calls refl refl e))
              (loop-FineRuns 0 (E.rows_of file) s (some file))))
      | inr e ↦ rw e (
          one_step (ready s (some file)) (processed (1, (s, some file)))
            (refuses (ready s (some file)) refl))
    ]

    abbrev in_removal : S.State → Option (List ℕ) → Fine S
    in_removal s temp = record { table = s; temp = temp; phase = removing calls }

    -- Where the client's loop is about to remove `nodes_.db`, which it has merged, and the server gets
    -- another file that a peer offers: there is a run in which that file lies in `nodes_.db`, and is
    -- removed with the table as it was, so nothing of it is merged. (The calls of the server and `unlink`
    -- succeed; the file is below 2 ^ 31 bytes, the first `recv` gets the 4 bytes of its size, and the
    -- network gives as many further events as it has bytes.)
    pub received_lost :
        (s : S.State) (temp : Option (List ℕ)) (file : List ℕ) (k : ℕ) (events : List Event)
        → calls.unlinked ≡ true
        → E.Offers file
        → length file < 2 ^ 31
        → 3 ≤ k
        → All Arrives events
        → length file ≤ length events
        → (τ : Fine S) × (υ : Fine S) × FineRuns S E (in_removal s temp) τ
          × FineRuns S E τ υ
          × (τ.temp ≡ some file)
          × (τ.table ≡ s)
          × (υ.temp ≡ none)
          × (υ.table ≡ s)
          × (υ.phase ≡ outside choosing)
    received_lost s temp file k events unlinked offered small first all enough =
        let (w, served, (kept, saved, sent)) =
          the_server_lem (E.file_of s) file temp k events small first all enough in
        let τ : Fine S = in_removal s w.temp_file in
        (
          τ,
          record { table = s; temp = none; phase = outside choosing },
          one_step (in_removal s temp) τ (
              server_serves (in_removal s temp) server_well _ w (inl served)
                (λ f e. inr (subst E.Offers (some-injective file f (sym saved ∙ e)) offered))),
          one_step τ _ (
              subst
                (λ (b : Bool). FineStep S E τ (record {
                  table = s;
                  temp = if b then none else τ.temp;
                  phase = outside choosing;
                }))
                unlinked (removes τ calls refl)),
          saved,
          refl,
          refl,
          refl,
          refl,
        )
