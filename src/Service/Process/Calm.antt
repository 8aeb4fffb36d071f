-- ===== src/Service/Process/Calm.antt =====
-- internal/service/service.go, `ProcessChannel` in calm surroundings: a whole cycle.
use mathlib.Core.Path.{subst}
use insider_one.Prelude.{
  ℕ, ◌≤◌, arith, suc, ◌≡◌, refl, sym, ap, String, Bool, [], map, keep_if, length, ◌==◌, Bool-cases,
  inl, inr,
}
use insider_one.Prelude.Text.{◌<>◌}
use insider_one.Domain.{Time, Channel}
use insider_one.Repository.Schema.{scan_notification}
use insider_one.Repository.Write.{update_rows}
use insider_one.Repository.Claim.{
  candidates, is_among, is_queued, set_processing, claim_rows, claim_due, queue_depth_by_channel,
}
use insider_one.Repository.RateLimit.{max_integer, acquire_rate_limit_slots}
use insider_one.Repository.RateLimit.Answers.{acquire_rate_limit_slots-answers}
use insider_one.Runtime.{
  Env, World, Result, ok, err, ◌>>=◌, attempt, ask, clock, check_ctx, modify_metrics,
}
use insider_one.Runtime.Steps.{tick_on, query-ok}
use insider_one.Runtime.Ends.{Ends, IsCalm, Ends->>=, Ends-weaken, Ends-check_ctx, Ends-exec}
use insider_one.Service.{Service, note_depth}
use insider_one.Service.Process.{deliver_all, claim_and_deliver, process_channel}
use insider_one.Service.Process.Settled.{KeepsSettled}
use insider_one.Service.Process.Deliveries.{deliver_all-Settled}
use insider_one.Service.Process.Unclaimed.{returned, unclaimed, at_id, Free}

-- What the claim returns has no such id, so the rows of that id were not claimed.
module _ (env : Env) (calm : IsCalm env) (s : Service) (channel : Channel)
    (small : s.rate_limit ≤ max_integer) where
  -- From the claim on.
  after_claim :
      (locked : String → Bool) (now updated : Time) (limit : ℕ) (w : World)
      → let (r, db) = claim_rows locked channel now updated limit w.db in
        Ends
          (λ ns w'. Ends (λ _ w''. KeepsSettled w.db w''.db) (deliver_all env s channel ns w'))
          (r, record w { tick = suc w.tick; db = db })
  unfolding claim_rows
  after_claim locked now updated limit w =
      let chosen = candidates locked channel now limit w.db.notifications in
      let rows = update_rows (is_among chosen) (set_processing updated) w.db.notifications in
      let ns = map scan_notification (keep_if (is_among chosen) rows) in
      let w' = record w { tick = suc w.tick; db = record w.db { notifications = rows } } in
      let d = deliver_all env s channel ns w' in
      Ends-weaken _ _ d.0 d.1
        (λ _ h id k. elim (Bool-cases (returned chosen updated id rows)) [
          | inl e ↦ at_id id d.1.db ns e h.1
          | inr e ↦ h.0 id (unclaimed chosen updated id w.db.notifications e k)
        ])
        (deliver_all-Settled env calm s channel ns w')

  claimed :
      (allowed : ℕ) (w : World)
      → Ends
          (λ _ w'. KeepsSettled w.db w'.db)
          ((claim_due env channel allowed >>= deliver_all env s channel) w)
  unfolding claim_due clock ask ◌>>=◌
  claimed allowed w =
      let w₃ = tick_on (tick_on (tick_on w)) in
      let locked = env.locked (suc (suc w.tick)) in
      let now = env.stored (env.now w.tick) in
      let updated = env.stored (env.now (suc w.tick)) in
      Ends->>= (λ _ w'. KeepsSettled w.db w'.db) (deliver_all env s channel)
        (claim_due env channel allowed) w
        (Ends-exec env calm w₃ _ (claim_rows locked channel now updated allowed)
          (after_claim locked now updated allowed w₃))

  claim_and_deliver-answers :
      (allowed : ℕ) (w : World)
      → Ends (λ _ w'. KeepsSettled w.db w'.db) (claim_and_deliver env s channel allowed w)
  unfolding claim_and_deliver
  claim_and_deliver-answers allowed w = elim (Bool-cases (allowed == 0)) [
    | inl e ↦ rw e (λ id h. h)
    | inr e ↦ rw e (claimed allowed w)
  ]

  note_depth-same :
      (depth : Result ℕ) (w : World) → Ends (λ _ w'. w'.db ≡ w.db) (note_depth channel depth w)
  unfolding note_depth modify_metrics
  note_depth-same (ok depth) w = refl
  note_depth-same (err e) w = refl

  -- From the slots on.
  slots_and_claim :
      (w : World)
      → Ends
          (λ _ w'. KeepsSettled w.db w'.db)
          ((acquire_rate_limit_slots env ("delivery:" <> channel) s.rate_limit s.claim_limit
              >>= claim_and_deliver env s channel)
            w)
  slots_and_claim w =
      let slots =
        acquire_rate_limit_slots env ("delivery:" <> channel) s.rate_limit s.claim_limit in
      Ends->>= (λ _ w'. KeepsSettled w.db w'.db) (claim_and_deliver env s channel) slots w
        (Ends-weaken _ _ (slots w).0 (slots w).1
          (λ n same.
            let d = claim_and_deliver env s channel n (slots w).1 in
            Ends-weaken _ _ d.0 d.1 (λ _ h id k. h id (subst (Free [] 0 id) (sym same) k))
              (claim_and_deliver-answers n (slots w).1))
          (acquire_rate_limit_slots-answers env calm ("delivery:" <> channel) s.rate_limit
            s.claim_limit (ground arith) w))

  noted_and_slots :
      (depth : Result ℕ) (w : World)
      → Ends
          (λ _ w'. KeepsSettled w.db w'.db)
          ((note_depth channel depth >>= λ _.
              acquire_rate_limit_slots env ("delivery:" <> channel) s.rate_limit s.claim_limit
              >>= claim_and_deliver env s channel)
            w)
  noted_and_slots depth w =
      let rest =
        acquire_rate_limit_slots env ("delivery:" <> channel) s.rate_limit s.claim_limit
        >>= claim_and_deliver env s channel in
      let note = note_depth channel depth in
      Ends->>= (λ _ w'. KeepsSettled w.db w'.db) (λ _. rest) note w
        (Ends-weaken _ _ (note w).0 (note w).1
          (λ _ same.
            subst (λ db. Ends (λ _ w'. KeepsSettled db w'.db) (rest (note w).1)) same
              (slots_and_claim (note w).1))
          (note_depth-same depth w))

  read_depth :
      (w : World) → Ends (λ _ w'. w'.db ≡ w.db) (attempt (queue_depth_by_channel env channel) w)
  unfolding attempt queue_depth_by_channel
  read_depth w =
      ap (λ (x : Result ℕ × World). x.1.db)
        (query-ok env w (λ db. ok (length (keep_if (is_queued channel) db.notifications)))
          (calm.works w.tick))

  after_check :
      (w : World)
      → Ends
          (λ _ w'. KeepsSettled w.db w'.db)
          ((attempt (queue_depth_by_channel env channel) >>= λ depth.
              note_depth channel depth >>= λ _.
              acquire_rate_limit_slots env ("delivery:" <> channel) s.rate_limit s.claim_limit
              >>= claim_and_deliver env s channel)
            w)
  after_check w =
      let read = attempt (queue_depth_by_channel env channel) in
      let rest = λ (depth : Result ℕ). note_depth channel depth >>= λ _.
      acquire_rate_limit_slots env ("delivery:" <> channel) s.rate_limit s.claim_limit
      >>= claim_and_deliver env s channel in
      Ends->>= (λ _ w'. KeepsSettled w.db w'.db) rest read w
        (Ends-weaken _ _ (read w).0 (read w).1
          (λ depth same.
            subst (λ db. Ends (λ _ w'. KeepsSettled db w'.db) (rest depth (read w).1)) same
              (noted_and_slots depth (read w).1))
          (read_depth w))

-- Where PostgreSQL takes every statement of a worker's cycle with its values, so that no text of the
-- provider's answers has a NUL, the rate limit is an INTEGER, and the context does not end, the
-- cycle returns without an error, and each id under which no notification was `processing` before it
-- has none that is so after it.
pub process_channel-KeepsSettled :
    (env : Env) (s : Service) (channel : Channel) (w : World)
    → IsCalm env
    → s.rate_limit ≤ max_integer
    → Ends (λ _ w'. KeepsSettled w.db w'.db) (process_channel env s channel w)
unfolding process_channel
process_channel-KeepsSettled env s channel w calm small =
    Ends->>= _ _ (check_ctx env) w
      (Ends-check_ctx env calm w _ (after_check env calm s channel small (tick_on w)))
