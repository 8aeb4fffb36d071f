-- ===== src/Repository/RateLimit/Answers.antt =====
-- internal/repository/postgres.go: `AcquireRateLimitSlots` in calm surroundings.
use mathlib.Core.Path.{subst}
use insider_one.Prelude.{
  ℕ, suc, ◌-◌, ◌≡◌, refl, sym, ap, ◌∙◌, String, Bool, true, false, ◌||◌, some, List, [], ◌∷◌, ◌++◌,
  map, find, exists, arith, ltb, leb, ◌==◌, if◌then◌else◌, Bool-cases, inl, inr,
}
use text.Mathlib.TextPositions.{eq_refl}
use insider_one.Domain.{Time}
use insider_one.Repository.Schema.{Row, WindowRow, Database}
use insider_one.Repository.RateLimit.{
  truncate_second, max_integer, upsert_statement, is_window, upsert_window, used_of, take_slots,
  no_slots, acquire_tx, acquire_rate_limit_slots,
}
use insider_one.Runtime.{
  Env, World, ok, Fallible, pure, ◌>>=◌, clock, begin_tx, commit, query, tx_exec,
}
use insider_one.Runtime.Steps.{tick_on}
use insider_one.Runtime.Ends.{Ends, IsCalm, Ends->>=, Ends-clock, Ends-exec, Ends-tx_exec}

module _ (key : String) (start : Time) (limit : ℕ) where
  find-append :
      (r : WindowRow) (ws : List WindowRow)
      → exists (is_window key start) ws ≡ false
      → is_window key start r ≡ true
      → find (is_window key start) (ws ++ r ∷ []) ≡ some r
  find-append r [] h e = ground arith
  find-append r (w ∷ ws) h e = ground (arith, find-append r ws)

  abbrev relimit : WindowRow → WindowRow
  relimit r = if is_window key start r then record r { limit_count = limit } else r

  relimit-same : (w : WindowRow) → is_window key start (relimit w) ≡ is_window key start w
  relimit-same w = ground arith

  relimit-found :
      (w : WindowRow) (ws : List WindowRow)
      → is_window key start w ≡ true
      → find (is_window key start) (map relimit (w ∷ ws)) ≡ some (relimit w)
  relimit-found w ws e =
      ap (λ b. if b then some (relimit w) else find (is_window key start) (map relimit ws))
        (relimit-same w ∙ e)

  relimit-passed :
      (w : WindowRow) (ws : List WindowRow)
      → is_window key start w ≡ false
      → (r : WindowRow) → find (is_window key start) (map relimit ws) ≡ some r
      → find (is_window key start) (map relimit (w ∷ ws)) ≡ some r
  relimit-passed w ws e r p =
      ap (λ b. if b then some (relimit w) else find (is_window key start) (map relimit ws))
        (relimit-same w ∙ e)
      ∙ p

  find-relimited :
      (ws : List WindowRow)
      → exists (is_window key start) ws ≡ true
      → (r : WindowRow) × (find (is_window key start) (map relimit ws) ≡ some r)
  find-relimited [] h = absurd (ground arith)
  find-relimited (w ∷ ws) h = elim (Bool-cases (is_window key start w)) [
    | inl e ↦ (relimit w, relimit-found w ws e)
    | inr e ↦ let (r, p) = find-relimited ws (ground arith) in (r, relimit-passed w ws e r p)
  ]

  -- The SELECT finds the window that the upsert leaves.
  find-upsert_window :
      (ws : List WindowRow)
      → (r : WindowRow) × (find (is_window key start) (upsert_window key start limit ws) ≡ some r)
  unfolding upsert_window
  find-upsert_window ws = elim (Bool-cases (exists (is_window key start) ws)) [
    | inl e ↦ rw e (find-relimited ws e)
    | inr e ↦ rw e (_, find-append _ ws e itself)
  ]
    where
      itself :
          is_window key start
            (record { key = key; window_start = start; limit_count = limit; used_count = 0 })
          ≡ true
      itself = ground (arith, eq_refl key)

module _ (env : Env) (calm : IsCalm env) where
  abbrev Leaves : List Row → World → Type 0
  Leaves rows w = w.db.notifications ≡ rows

  commit_and_return :
      (n : ℕ) (tx : Database) (rows : List Row) (w : World)
      → tx.notifications ≡ rows
      → Ends (λ _ w'. Leaves rows w') ((commit env tx >>= λ _. pure n) w)
  unfolding commit
  commit_and_return n tx rows w h =
      Ends->>= _ _ (commit env tx) w
        (Ends-exec env calm w (λ _ w'. w'.db.notifications ≡ rows) (λ _. (ok tt, tx)) h)

  take_slots-answers :
      (key : String) (start n : ℕ) (tx : Database) (rows : List Row) (w : World)
      → tx.notifications ≡ rows
      → Ends (λ _ w'. Leaves rows w') (take_slots env key start n tx w)
  unfolding take_slots
  take_slots-answers key start n tx rows w h =
      Ends->>= _ _ _ w (Ends-tx_exec env calm w _ _ tx (commit_and_return n _ rows (tick_on w) h))

  branch-answers :
      (b : Bool) (key : String) (start n : ℕ) (tx : Database) (rows : List Row) (w : World)
      → tx.notifications ≡ rows
      → Ends
          (λ _ w'. Leaves rows w')
          ((if b then no_slots env tx else take_slots env key start n tx) w)
  unfolding no_slots
  branch-answers true key start n tx rows w h = commit_and_return 0 tx rows w h
  branch-answers false key start n tx rows w h = take_slots-answers key start n tx rows w h

  module _ (key : String) (limit requested : ℕ) (small : leb limit max_integer ≡ true) where
    -- The transaction from the SELECT on.
    from_read : Time → Database → Fallible ℕ
    from_read start tx₁ = do
      (used, tx₂) ←
          tx_exec env (λ db. (used_of (find (is_window key start) db.windows) env.no_rows, db)) tx₁
      if leb limit used
          then no_slots env tx₂
          else take_slots env key start
              (if ltb (limit - used) requested then limit - used else requested) tx₂

    from_read-answers :
        (start : Time) (tx : Database) (r : WindowRow) (rows : List Row) (w : World)
        → find (is_window key start) tx.windows ≡ some r
        → tx.notifications ≡ rows
        → Ends (λ _ w'. Leaves rows w') (from_read start tx w)
    unfolding from_read
    from_read-answers start tx r rows w found h =
        Ends->>= _ _
          (tx_exec env (λ db. (used_of (find (is_window key start) db.windows) env.no_rows, db)) tx)
          w
          (Ends-tx_exec env calm w _
            (λ db. (used_of (find (is_window key start) db.windows) env.no_rows, db)) tx
            (subst
              (λ o.
                Ends
                  (λ used w'.
                    Ends (λ _ w''. Leaves rows w'')
                      ((if leb limit used
                          then no_slots env tx
                          else take_slots env key start
                              (if ltb (limit - used) requested then limit - used else requested) tx)
                        w'))
                  (used_of o env.no_rows, tick_on w))
              (sym found)
              (branch-answers (leb limit r.used_count) key start _ tx rows (tick_on w) h)))

    from_begin-answers :
        (now : Time) (w₀ w : World)
        → w.db ≡ w₀.db
        → Ends
            (λ _ w'. Leaves w₀.db.notifications w')
            ((tx_exec env (upsert_statement env key (env.stored (truncate_second now)) limit) w₀.db
                >>= λ (done, tx). from_read (env.stored (truncate_second now)) tx)
              w)
    unfolding upsert_statement
    from_begin-answers now w₀ w same =
        let start = env.stored (truncate_second now) in
        let (r, found) = find-upsert_window key start limit w₀.db.windows in
        Ends->>= _ _ _ w (
          Ends-tx_exec env calm w _ _ w₀.db (
            rw small (
              from_read-answers start
                (record w₀.db { windows = upsert_window key start limit w₀.db.windows }) r
                w₀.db.notifications (tick_on w) found refl)))

    acquire_tx-answers :
        (w : World)
        → Ends (λ _ w'. Leaves w.db.notifications w') (acquire_tx env key limit requested w)
    unfolding acquire_tx begin_tx query from_read
    acquire_tx-answers w = Ends->>= _ _ (begin_tx env) w (
        Ends-exec env calm w _ (λ db. (ok db, db))
          (Ends->>= _ _ (clock env) (tick_on w) (
            Ends-clock env calm (tick_on w) _
              (from_begin-answers (env.now (suc w.tick)) w (tick_on (tick_on w)) refl))))

    -- In calm surroundings the call for slots, under a limit that is an INTEGER, returns and changes no notification.
    pub acquire_rate_limit_slots-answers :
        (w : World)
        → Ends
            (λ _ w'. w'.db.notifications ≡ w.db.notifications)
            (acquire_rate_limit_slots env key limit requested w)
    unfolding acquire_rate_limit_slots
    acquire_rate_limit_slots-answers w = elim (Bool-cases (limit == 0 || requested == 0)) [
      | inl e ↦ rw e refl
      | inr e ↦ rw e (acquire_tx-answers w)
    ]
