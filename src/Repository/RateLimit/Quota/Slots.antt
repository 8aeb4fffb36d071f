-- ===== src/Repository/RateLimit/Quota/Slots.antt =====
-- internal/repository/postgres.go: the rows of `notification_rate_limits`, upserted and charged.
use insider_one.Prelude.{
  ℕ, ◌+◌, ◌≤◌, ◌≡◌, refl, String, true, false, some, List, [], ◌∷◌, ◌++◌, map, arith, find, exists,
  All, Pairs, All-append, All-map, All-of-exists, Pairs-snoc, Pairs-map, eq_iff, str_eq,
  if◌then◌else◌, Bool-cases, inl, inr,
}
use insider_one.Domain.{Time}
use insider_one.Repository.Schema.{WindowRow}
use insider_one.Repository.RateLimit.{is_window, upsert_window, use_slots}

-- The primary key of the windows.
abbrev pub WindowsApart : WindowRow → WindowRow → Type 0
WindowsApart r s = r.key ≡ s.key → r.window_start ≡ s.window_start → ⊥

-- No two windows have one key and second, and none has more slots in use than `limit`.
pub record IsWithinQuota (limit : ℕ) (ws : List WindowRow) : Type 0 where
  pub apart : Pairs WindowsApart ws
  pub used : All (λ (r : WindowRow). r.used_count ≤ limit) ws

-- The slots in use under a key, in all windows.
abbrev pub used_under : String → List WindowRow → ℕ
used_under key [] = 0
used_under key (r ∷ ws) = (if str_eq r.key key then r.used_count else 0) + used_under key ws

-- Upserting a window uses no slot.
module _ (key : String) (start : Time) (limit : ℕ) where
  abbrev fresh_window : WindowRow
  fresh_window = record { key = key; window_start = start; limit_count = limit; used_count = 0 }

  abbrev relimited : WindowRow → WindowRow
  relimited r = if is_window key start r then record r { limit_count = limit } else r

  relimited-same :
      (r : WindowRow)
      → ((relimited r).key ≡ r.key)
        × ((relimited r).window_start ≡ r.window_start)
        × ((relimited r).used_count ≡ r.used_count)
  relimited-same r = ground arith

  used_under-relimited :
      (k : String) (ws : List WindowRow) → used_under k (map relimited ws) ≡ used_under k ws
  used_under-relimited k [] = refl
  used_under-relimited k (r ∷ ws) = ground (arith, relimited-same r, used_under-relimited k ws)

  used_under-append :
      (k : String) (ws : List WindowRow) → used_under k (ws ++ fresh_window ∷ []) ≡ used_under k ws
  used_under-append k [] = ground arith
  used_under-append k (r ∷ ws) = ground (arith, used_under-append k ws)

  relimited-apart : (r s : WindowRow) → WindowsApart r s → WindowsApart (relimited r) (relimited s)
  relimited-apart r s h a b = ground (arith, relimited-same r, relimited-same s)

  fresh-apart : (r : WindowRow) → is_window key start r ≡ false → WindowsApart r fresh_window
  fresh-apart r h a b = ground (arith, eq_iff r.key key)

  pub upsert_window-IsWithinQuota :
      (bound : ℕ) (ws : List WindowRow)
      → IsWithinQuota bound ws
      → IsWithinQuota bound (upsert_window key start limit ws)
  unfolding upsert_window
  upsert_window-IsWithinQuota bound ws h = elim (Bool-cases (exists (is_window key start) ws)) [
    | inl e ↦ rw e (record {
      apart = Pairs-map WindowsApart relimited ws relimited-apart h.apart;
      used =
          All-map (λ (r : WindowRow). r.used_count ≤ bound)
            (λ (r : WindowRow). r.used_count ≤ bound) relimited ws
            (λ r p. ground (arith, relimited-same r)) h.used;
    })
    | inr e ↦ rw e (record {
      apart =
          Pairs-snoc WindowsApart ws fresh_window h.apart (
            All-of-exists (λ r. WindowsApart r fresh_window) (is_window key start) ws fresh-apart
              e);
      used = All-append (λ (r : WindowRow). r.used_count ≤ bound) ws _ h.used (omega arith, tt);
    })
  ]

  pub used_under-upsert_window :
      (k : String) (ws : List WindowRow)
      → used_under k (upsert_window key start limit ws) ≡ used_under k ws
  unfolding upsert_window
  used_under-upsert_window k ws = ground (arith, used_under-relimited k ws, used_under-append k ws)

-- Using slots of the window that was read.
module _ (key : String) (start : Time) (n : ℕ) where
  abbrev charged : WindowRow → WindowRow
  charged r = if is_window key start r then record r { used_count = r.used_count + n } else r

  charged-apart : (r s : WindowRow) → WindowsApart r s → WindowsApart (charged r) (charged s)
  charged-apart r s h a b = ground arith

  -- Behind the window itself nothing is charged.
  charged_behind :
      (r : WindowRow) (ws : List WindowRow)
      → is_window key start r ≡ true
      → All (WindowsApart r) ws
      → map charged ws ≡ ws
  charged_behind r [] e h = refl
  charged_behind r (s ∷ ws) e h =
      ground (arith, eq_iff r.key key, eq_iff s.key key, charged_behind r ws e h.1)

  charge :
      (bound : ℕ) (ws : List WindowRow) (r : WindowRow)
      → IsWithinQuota bound ws
      → find (is_window key start) ws ≡ some r
      → r.used_count + n ≤ bound
      → All (λ (r : WindowRow). r.used_count ≤ bound) (map charged ws)
        × (used_under key (map charged ws) ≡ used_under key ws + n)
  charge bound [] r h e fits = cc
  charge bound (s ∷ ws) r h e fits = elim (Bool-cases (is_window key start s)) [
    | inl here ↦
        let same : s ≡ r = ground arith in
        rw (charged_behind s ws here h.apart.0)
          (rw here ((ground arith, h.used.1), ground (arith, eq_iff s.key key)))
    | inr there ↦
        let (fine, total) =
          charge bound ws r (record { apart = h.apart.1; used = h.used.1 }) (ground arith) fits in
        rw there ((h.used.0, fine), omega arith)
  ]

  pub charged-IsWithinQuota :
      (bound : ℕ) (ws : List WindowRow) (r : WindowRow)
      → IsWithinQuota bound ws
      → find (is_window key start) ws ≡ some r
      → r.used_count + n ≤ bound
      → IsWithinQuota bound (use_slots key start n ws)
        × (used_under key (use_slots key start n ws) ≡ used_under key ws + n)
  unfolding use_slots
  charged-IsWithinQuota bound ws r h e fits =
      let (used, total) = charge bound ws r h e fits in
      (
        record { apart = Pairs-map WindowsApart charged ws charged-apart h.apart; used = used },
        total,
      )
