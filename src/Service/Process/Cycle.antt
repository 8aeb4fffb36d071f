-- ===== src/Service/Process/Cycle.antt =====
-- internal/service/service.go, `ProcessChannel`: one cycle of a worker and the lifecycle of the rows.
use insider_one.Prelude.{
  ℕ, suc, ◌+◌, ◌<◌, ◌≤◌, ◌≡◌, refl, ◌≢◌, ◌==◌, String, Bool, List, [], ◌∷◌, arith, All, map,
  keep_if,
}
use insider_one.Prelude.Text.{◌<>◌}
use insider_one.Domain.{Time, Channel, Notification, delivered, failed, scheduled, dead_letter}
use insider_one.Provider.{SendResult}
use insider_one.Provider.Unchanged.{send-Unchanged}
use insider_one.Repository.Schema.{Database, scan_notification}
use insider_one.Repository.Write.{
  mark_delivered, mark_failed, mark_dead_letter, schedule_retry, set_delivered, set_failed,
  set_retry,
}
use insider_one.Repository.Claim.{
  claim_due, claim_rows, candidates, is_among, queue_depth_by_channel,
}
use insider_one.Repository.RateLimit.Windows.{acquire_rate_limit_slots-Lives}
use insider_one.Repository.Lifecycle.{Evolves, WellFormed, Lives}
use insider_one.Repository.Lifecycle.Updates.{Evolves-refl, Evolves-trans}
use insider_one.Repository.Lifecycle.Claims.{claim_rows-Lives}
use insider_one.Repository.Lifecycle.InFlight.{
  InFlight, DistinctIds, claimed-InFlight, scanned-DistinctIds,
}
use insider_one.Repository.Lifecycle.Statements.{lives}
use insider_one.Runtime.{
  Result, ok, err, Fault, taken, refused, lost, Env, World, ◌>>=◌, ask, clock, exec, under_fault,
}
use insider_one.Runtime.Keeps.{
  Keeps, Keeps-pure, Keeps->>=, Keeps-if, Keeps-attempt, Keeps-clock, Keeps-check_ctx, Keeps-query,
  Keeps-modify_metrics,
}
use insider_one.Runtime.From.{
  KeepsFrom, KeepsFrom-Unchanged, KeepsFrom-then, KeepsFrom-ignore, Unchanged, unchanged,
}
use insider_one.Service.{Service, note_depth}
use insider_one.Service.Rules.Effects.{Keeps-backoff}
use insider_one.Service.Process.{
  Outcome, accepted, retry, exhausted, rejected, outcome, settle, count_outcome, failure_message,
  deliver, deliver_all, claim_and_deliver, process_channel,
}
use insider_one.Service.Process.Flight.{
  Flies, flies, Mine, mark-Flies, note_event-Flies, set_delivered-Marks, set_failed-Marks,
  set_dead-Marks, set_retry-Marks,
}

-- Another attempt is left where the outcome is a retry.
retry_room :
    (r : SendResult) (attempts max_attempts : ℕ)
    → outcome r attempts max_attempts ≡ retry
    → attempts + 1 < max_attempts
unfolding outcome
retry_room r attempts max_attempts h = ground arith

-- No attempt is left where it is exhausted.
exhausted_room :
    (r : SendResult) (attempts max_attempts : ℕ)
    → outcome r attempts max_attempts ≡ exhausted
    → max_attempts ≤ attempts + 1
unfolding outcome
exhausted_room r attempts max_attempts h = ground arith

module _ (env : Env) (n : Notification) (ns : List Notification)
    (apart : All (λ m. n.id ≢ m.id) ns) where
  settle-Flies :
      (o : Outcome) (r : SendResult) (start : Time)
      → (o ≡ retry → n.attempts + 1 < n.max_attempts)
      → (o ≡ exhausted → n.max_attempts ≤ n.attempts + 1)
      → KeepsFrom (Mine n ns apart) (Flies ns) (settle env o n r start)
  unfolding settle mark_delivered mark_failed mark_dead_letter schedule_retry
  settle-Flies accepted r start room spent =
      KeepsFrom-Unchanged _ (Flies ns) (flies n ns apart) (Keeps-clock Unchanged unchanged env)
        (λ now.
          KeepsFrom-then _ (Flies ns) (flies n ns apart)
            (KeepsFrom-ignore _ (Flies ns) (flies n ns apart) (
              mark-Flies n ns apart env (λ t. set_delivered r.response.message_id t)
                (λ t. set_delivered-Marks n r.response.message_id t)))
            (λ _. note_event-Flies n ns apart env n delivered _ _ _ _ _))
  settle-Flies retry r start room spent =
      KeepsFrom-Unchanged _ (Flies ns) (flies n ns apart) (Keeps-clock Unchanged unchanged env)
        (λ now.
          KeepsFrom-Unchanged _ (Flies ns) (flies n ns apart)
            (Keeps-backoff Unchanged unchanged env n.attempts)
            (λ delay.
              KeepsFrom-then _ (Flies ns) (flies n ns apart)
                (KeepsFrom-ignore _ (Flies ns) (flies n ns apart) (
                  mark-Flies n ns apart env
                    (λ t. set_retry (failure_message r) (env.stored (now + delay)) t)
                    (λ t.
                      set_retry-Marks n (failure_message r) (env.stored (now + delay)) t
                        (room refl))))
                (λ _. note_event-Flies n ns apart env n scheduled _ _ _ _ _)))
  settle-Flies exhausted r start room spent =
      KeepsFrom-then _ (Flies ns) (flies n ns apart)
        (KeepsFrom-ignore _ (Flies ns) (flies n ns apart) (
          mark-Flies n ns apart env (λ t. set_failed dead_letter (failure_message r) t)
            (λ t. set_dead-Marks n (failure_message r) t (spent refl))))
        (λ _. note_event-Flies n ns apart env n dead_letter _ _ _ _ _)
  settle-Flies rejected r start room spent =
      KeepsFrom-then _ (Flies ns) (flies n ns apart)
        (KeepsFrom-ignore _ (Flies ns) (flies n ns apart) (
          mark-Flies n ns apart env (λ t. set_failed failed (failure_message r) t)
            (λ t. set_failed-Marks n (failure_message r) t)))
        (λ _. note_event-Flies n ns apart env n failed _ _ _ _ _)

  count_outcome-Flies :
      (channel : Channel) (start : Time) (o : Outcome)
      → Keeps (Flies ns) (count_outcome env channel start o)
  unfolding count_outcome
  count_outcome-Flies channel start accepted =
      Keeps->>= (Flies ns) (flies n ns apart) (Keeps-clock (Flies ns) (flies n ns apart) env)
        (λ now. Keeps-modify_metrics (Flies ns) (flies n ns apart) _)
  count_outcome-Flies channel start other =
      Keeps->>= (Flies ns) (flies n ns apart) (Keeps-clock (Flies ns) (flies n ns apart) env)
        (λ now. Keeps-modify_metrics (Flies ns) (flies n ns apart) _)

  deliver-Flies :
      (s : Service) (channel : Channel)
      → KeepsFrom (Mine n ns apart) (Flies ns) (deliver env s channel n)
  unfolding deliver
  deliver-Flies s channel =
      KeepsFrom-Unchanged _ (Flies ns) (flies n ns apart) (Keeps-check_ctx Unchanged unchanged env)
        (λ _.
          KeepsFrom-Unchanged _ (Flies ns) (flies n ns apart) (Keeps-clock Unchanged unchanged env)
            (λ start.
              KeepsFrom-Unchanged _ (Flies ns) (flies n ns apart) (send-Unchanged env s.provider _)
                (λ r.
                  KeepsFrom-then _ (Flies ns) (flies n ns apart)
                    (settle-Flies (outcome r n.attempts n.max_attempts) r start
                      (retry_room r n.attempts n.max_attempts)
                      (exhausted_room r n.attempts n.max_attempts))
                    (λ _. count_outcome-Flies channel start _))))

-- The tables are well formed, and the rows have gone on from `before`.
abbrev Arrives : Database → Database → Type 0
Arrives before db = WellFormed db × Evolves before.notifications db.notifications

module _ (env : Env) (s : Service) (channel : Channel) where
  after_deliver :
      (ns : List Notification) (before : Database) (r : Result (Unit {0})) (w : World)
      → WellFormed w.db
        × InFlight ns w.db.notifications
        × Evolves before.notifications w.db.notifications
      → ((w : World)
          → WellFormed w.db
          → InFlight ns w.db.notifications
          → Arrives w.db (deliver_all env s channel ns w).1.db)
      → Arrives before
          (elim r as (λ _. Result (Unit {0}) × World) [
            | ok a ↦ deliver_all env s channel ns w
            | err e ↦ (err e, w)
          ]).1.db
  after_deliver ns before (ok a) w (v, i, e) next =
      let (v', e') = next w v i in (v', Evolves-trans _ _ _ e e')
  after_deliver ns before (err x) w (v, i, e) next = (v, e)

  -- The loop over claimed notifications with distinct ids.
  deliver_all-Arrives :
      (ns : List Notification) (w : World)
      → DistinctIds ns
      → WellFormed w.db
      → InFlight ns w.db.notifications
      → Arrives w.db (deliver_all env s channel ns w).1.db
  unfolding deliver_all ◌>>=◌
  deliver_all-Arrives [] w apart v i = (v, Evolves-refl w.db.notifications)
  deliver_all-Arrives (n ∷ ns) w apart v i =
      after_deliver ns w.db (deliver env s channel n w).0 (deliver env s channel n w).1
        ((deliver-Flies env n ns apart.0 s channel).at w i.0 v i.1)
        (λ w' v' i'. deliver_all-Arrives ns w' apart.1 v' i')

  after_claim :
      (locked : String → Bool) (now updated : Time) (limit : ℕ) (f : Fault) (w : World)
      → WellFormed w.db
      → let s' : Result (List Notification) × World =
          under_fault f (claim_rows locked channel now updated limit w.db) w in
        Arrives w.db
          (elim s'.0 as (λ _. Result (Unit {0}) × World) [
            | ok ns ↦ deliver_all env s channel ns s'.1
            | err e ↦ (err e, s'.1)
          ]).1.db
  unfolding under_fault claim_rows
  after_claim locked now updated limit taken w v =
      let (v', e) = claim_rows-Lives locked channel now updated limit w.db v in
      let chosen = candidates locked channel now limit w.db.notifications in
      let later = (claim_rows locked channel now updated limit w.db).1 in
      let (v'', e') =
        deliver_all-Arrives (map scan_notification (keep_if (is_among chosen) later.notifications))
          (record w { db = later })
          (scanned-DistinctIds (is_among chosen) later.notifications v'.ids) v'
          (claimed-InFlight chosen w.db.notifications updated v'.ids) in
      (v'', Evolves-trans _ _ _ e e')
  after_claim locked now updated limit (refused x) w v = (v, Evolves-refl w.db.notifications)
  after_claim locked now updated limit (lost x) w v =
      claim_rows-Lives locked channel now updated limit w.db v

  claim_and_deliver-Lives : (allowed : ℕ) → Keeps Lives (claim_and_deliver env s channel allowed)
  unfolding claim_and_deliver
  claim_and_deliver-Lives allowed =
      Keeps-if Lives lives (allowed == 0) (Keeps-pure Lives lives tt) (claimed allowed)
    where
      claimed :
          (allowed : ℕ) → Keeps Lives (claim_due env channel allowed >>= deliver_all env s channel)
      claimed allowed =
          unfold claim_due clock ask exec ◌>>=◌ in
          record {
            at = λ w v.
                after_claim (env.locked (suc (suc w.tick))) (env.stored (env.now w.tick))
                  (env.stored (env.now (suc w.tick))) allowed (env.fault (suc (suc (suc w.tick)))) _
                  v;
          }

  note_depth-Lives : (depth : Result ℕ) → Keeps Lives (note_depth channel depth)
  unfolding note_depth
  note_depth-Lives (ok depth) = Keeps-modify_metrics Lives lives _
  note_depth-Lives (err e) = Keeps-pure Lives lives tt

  -- A worker's cycle keeps the tables well formed and lets the rows go on, also where it stops
  -- half way.
  pub process_channel-Lives : Keeps Lives (process_channel env s channel)
  unfolding process_channel queue_depth_by_channel
  process_channel-Lives = Keeps->>= Lives lives (Keeps-check_ctx Lives lives env) (λ _.
      Keeps->>= Lives lives (Keeps-attempt Lives lives (Keeps-query Lives lives env _)) (λ depth.
        Keeps->>= Lives lives (note_depth-Lives depth) (λ _.
          Keeps->>= Lives lives
            (acquire_rate_limit_slots-Lives env ("delivery:" <> channel) s.rate_limit s.claim_limit)
            claim_and_deliver-Lives)))
