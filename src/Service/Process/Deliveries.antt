-- ===== src/Service/Process/Deliveries.antt =====
-- internal/service/service.go, `ProcessChannel` in calm surroundings: the loop.
use mathlib.Core.Path.{subst}
use insider_one.Prelude.{suc, ◌≡◌, refl, sym, List, [], ◌∷◌, All}
use insider_one.Domain.{Time, Channel, Notification}
use insider_one.Provider.{SendResult, send, send}
use insider_one.Provider.Answers.{send-answers}
use insider_one.Provider.Message.{DeliveryRequest}
use insider_one.Repository.Schema.{Database}
use insider_one.Runtime.{Env, World, ◌>>=◌, clock, ask, check_ctx, modify_metrics}
use insider_one.Runtime.Steps.{tick_on}
use insider_one.Runtime.Ends.{Ends, IsCalm, Ends->>=, Ends-weaken, Ends-clock, Ends-check_ctx}
use insider_one.Service.{Service}
use insider_one.Service.Process.{
  Outcome, accepted, retry, exhausted, rejected, outcome, settle, count_outcome, deliver,
  deliver_all,
}
use insider_one.Service.Process.Settled.{IsSettled, KeepsSettled, settle-Settled}

module _ (env : Env) (calm : IsCalm env) where
  count_outcome-same :
      (channel : Channel) (start : Time) (o : Outcome) (w : World)
      → Ends (λ _ w'. w'.db ≡ w.db) (count_outcome env channel start o w)
  unfolding count_outcome clock ask modify_metrics ◌>>=◌
  count_outcome-same channel start accepted w = refl
  count_outcome-same channel start retry w = refl
  count_outcome-same channel start exhausted w = refl
  count_outcome-same channel start rejected w = refl

  module _ (s : Service) (channel : Channel) where
    -- From the answer on.
    answered_and_counted :
        (n : Notification) (start : Time) (r : SendResult) (before : Database) (w : World)
        → w.db ≡ before
        → Ends
            (λ _ w'. KeepsSettled before w'.db × IsSettled n.id w'.db)
            ((settle env (outcome r n.attempts n.max_attempts) n r start >>= λ _.
                count_outcome env channel start (outcome r n.attempts n.max_attempts))
              w)
    answered_and_counted n start r before w same =
        let o = outcome r n.attempts n.max_attempts in
        let m = settle env o n r start in
        Ends->>= (λ _ w'. KeepsSettled before w'.db × IsSettled n.id w'.db)
          (λ _. count_outcome env channel start o) m w
          (Ends-weaken _ _ (m w).0 (m w).1
            (λ _ h.
              let c = count_outcome env channel start o (m w).1 in
              Ends-weaken _ _ c.0 c.1
                (λ _ e.
                  subst (λ db. KeepsSettled before db × IsSettled n.id db) (sym e)
                    (subst (λ db. KeepsSettled db (m w).1.db × IsSettled n.id (m w).1.db) same h))
                (count_outcome-same channel start o (m w).1))
            (settle-Settled env calm o n r start w))

    -- One round of the loop.
    deliver-Settled :
        (n : Notification) (w : World)
        → Ends (λ _ w'. KeepsSettled w.db w'.db × IsSettled n.id w'.db) (deliver env s channel n w)
    unfolding deliver
    deliver-Settled n w =
        let req : DeliveryRequest = record {
          to = n.recipient;
          channel = n.channel;
          content = n.content;
        } in
        let w₂ = tick_on (tick_on w) in
        let p = send env s.provider req w₂ in
        let start = env.now (suc w.tick) in
        Ends->>= _ _ (check_ctx env) w (
          Ends-check_ctx env calm w _ (
            Ends->>= _ _ (clock env) (tick_on w) (
              Ends-clock env calm (tick_on w) _ (
                Ends->>= (λ _ w'. KeepsSettled w.db w'.db × IsSettled n.id w'.db)
                  (λ r. settle env (outcome r n.attempts n.max_attempts) n r start >>= λ _.
                    count_outcome env channel start (outcome r n.attempts n.max_attempts))
                  (send env s.provider req) w₂
                  (Ends-weaken _ _ p.0 p.1 (λ r e. answered_and_counted n start r w.db p.1 e)
                    (send-answers env s.provider req w₂))))))

    -- All the rounds.
    pub deliver_all-Settled :
        (ns : List Notification) (w : World)
        → Ends
            (λ _ w'. KeepsSettled w.db w'.db × All (λ n. IsSettled n.id w'.db) ns)
            (deliver_all env s channel ns w)
    unfolding deliver_all
    deliver_all-Settled [] w = (λ id h. h, tt)
    deliver_all-Settled (n ∷ ns) w =
        let d = deliver env s channel n w in
        Ends->>= (λ _ w'. KeepsSettled w.db w'.db × All (λ m. IsSettled m.id w'.db) (n ∷ ns))
          (λ _. deliver_all env s channel ns) (deliver env s channel n) w
          (Ends-weaken _ _ d.0 d.1
            (λ _ h.
              let e = deliver_all env s channel ns d.1 in
              Ends-weaken _ _ e.0 e.1 (λ _ k. (λ id p. k.0 id (h.0 id p), (k.0 n.id h.1, k.1)))
                (deliver_all-Settled ns d.1))
            (deliver-Settled n w))
