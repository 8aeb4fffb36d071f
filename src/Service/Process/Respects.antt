-- ===== src/Service/Process/Respects.antt =====
-- internal/service/service.go, `ProcessChannel`, for relations that hold of a Mark method wherever it is
-- called.
use insider_one.Prelude.{ℕ, ◌==◌, List, [], ◌∷◌}
use insider_one.Prelude.Text.{◌<>◌}
use insider_one.Domain.{Time, Channel, Notification}
use insider_one.Provider.{SendResult}
use insider_one.Provider.Unchanged.{send-Unchanged}
use insider_one.Repository.Claim.{queue_depth_by_channel}
use insider_one.Repository.RateLimit.{acquire_rate_limit_slots}
use insider_one.Repository.Schema.{Database}
use insider_one.Runtime.{Env, Result, ok, err}
use insider_one.Runtime.Keeps.{
  Keeps, Keeps-pure, Keeps->>=, Keeps-if, Keeps-attempt, Keeps-ignore, Keeps-clock, Keeps-check_ctx,
  Keeps-query, Keeps-modify_metrics,
}
use insider_one.Runtime.From.{Keeps_of_Unchanged}
use insider_one.Service.{Service, note_depth}
use insider_one.Repository.Laws.{RepositoryLaws, DeliveryLaws}
use insider_one.Service.Create.Respects.{note_event-Keeps}
use insider_one.Service.Rules.Effects.{Keeps-backoff}
use insider_one.Service.Process.{
  Outcome, accepted, retry, exhausted, rejected, settle, count_outcome, deliver, deliver_all,
  claim_and_deliver, process_channel,
}

module _ (R : Database → Database → Type 0) (env : Env) (laws : RepositoryLaws R env)
    (marks : DeliveryLaws R env) where
  settle-Keeps :
      (o : Outcome) (n : Notification) (r : SendResult) (start : Time)
      → Keeps R (settle env o n r start)
  unfolding settle
  settle-Keeps accepted n r start =
      Keeps->>= R laws.preorder (Keeps-clock R laws.preorder env) (λ now.
        Keeps->>= R laws.preorder (Keeps-ignore R laws.preorder (marks.deliver n.id _))
          (λ _. note_event-Keeps R env laws n _ _ _ _ _ _))
  settle-Keeps retry n r start = Keeps->>= R laws.preorder (Keeps-clock R laws.preorder env) (λ now.
      Keeps->>= R laws.preorder (Keeps-backoff R laws.preorder env n.attempts) (λ delay.
        Keeps->>= R laws.preorder (Keeps-ignore R laws.preorder (marks.postpone n.id _ _))
          (λ _. note_event-Keeps R env laws n _ _ _ _ _ _)))
  settle-Keeps exhausted n r start =
      Keeps->>= R laws.preorder (Keeps-ignore R laws.preorder (marks.give_up n.id _))
        (λ _. note_event-Keeps R env laws n _ _ _ _ _ _)
  settle-Keeps rejected n r start =
      Keeps->>= R laws.preorder (Keeps-ignore R laws.preorder (marks.fail n.id _))
        (λ _. note_event-Keeps R env laws n _ _ _ _ _ _)

  count_outcome-Keeps :
      (channel : Channel) (start : Time) (o : Outcome) → Keeps R (count_outcome env channel start o)
  unfolding count_outcome
  count_outcome-Keeps channel start accepted =
      Keeps->>= R laws.preorder (Keeps-clock R laws.preorder env)
        (λ now. Keeps-modify_metrics R laws.preorder _)
  count_outcome-Keeps channel start other =
      Keeps->>= R laws.preorder (Keeps-clock R laws.preorder env)
        (λ now. Keeps-modify_metrics R laws.preorder _)

  module _ (s : Service) (channel : Channel) where
    deliver-Keeps : (n : Notification) → Keeps R (deliver env s channel n)
    unfolding deliver
    deliver-Keeps n = Keeps->>= R laws.preorder (Keeps-check_ctx R laws.preorder env) (λ _.
        Keeps->>= R laws.preorder (Keeps-clock R laws.preorder env) (λ start.
          Keeps->>= R laws.preorder
            (Keeps_of_Unchanged R laws.preorder (send-Unchanged env s.provider _))
            (λ r.
              Keeps->>= R laws.preorder (settle-Keeps _ n r start)
                (λ _. count_outcome-Keeps channel start _))))

    deliver_all-Keeps : (ns : List Notification) → Keeps R (deliver_all env s channel ns)
    unfolding deliver_all
    deliver_all-Keeps [] = Keeps-pure R laws.preorder tt
    deliver_all-Keeps (n ∷ ns) =
        Keeps->>= R laws.preorder (deliver-Keeps n) (λ _. deliver_all-Keeps ns)

    claim_and_deliver-Keeps : (allowed : ℕ) → Keeps R (claim_and_deliver env s channel allowed)
    unfolding claim_and_deliver
    claim_and_deliver-Keeps allowed =
        Keeps-if R laws.preorder (allowed == 0) (Keeps-pure R laws.preorder tt)
          (Keeps->>= R laws.preorder (marks.claim channel allowed) deliver_all-Keeps)

    note_depth-Keeps : (depth : Result ℕ) → Keeps R (note_depth channel depth)
    unfolding note_depth
    note_depth-Keeps (ok depth) = Keeps-modify_metrics R laws.preorder _
    note_depth-Keeps (err e) = Keeps-pure R laws.preorder tt

    pub process_channel-Keeps :
        Keeps R (acquire_rate_limit_slots env ("delivery:" <> channel) s.rate_limit s.claim_limit)
        → Keeps R (process_channel env s channel)
    unfolding process_channel queue_depth_by_channel
    process_channel-Keeps acquired =
        Keeps->>= R laws.preorder (Keeps-check_ctx R laws.preorder env) (λ _.
          Keeps->>= R laws.preorder
            (Keeps-attempt R laws.preorder (Keeps-query R laws.preorder env _))
            (λ depth.
              Keeps->>= R laws.preorder (note_depth-Keeps depth)
                (λ _. Keeps->>= R laws.preorder acquired claim_and_deliver-Keeps)))
