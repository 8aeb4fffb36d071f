-- ===== src/Service/Operations/Refines.antt =====
-- internal/service/service.go: runs of the service as a refinement of one machine for each notification.
use insider_one.Prelude.{◌≡◌, List, [], ◌∷◌, All}
use insider_one.Repository.Lifecycle.{Evolves, IsBorn, WellFormed}
use insider_one.Repository.Machine.{Moves}
use insider_one.Repository.Schema.{Row}
use insider_one.Runtime.{Env, World}
use insider_one.Service.{Service}
use insider_one.Service.Operations.{Operation, run}
use insider_one.Service.Operations.Theorems.{run-WellFormed, run-Evolves}

-- Each row has gone on by moves of the machine, in its place, and each row behind them has come from
-- a first status and no attempts.
abbrev pub Refines : List Row → List Row → Type 0
Refines [] later = All IsBorn later
Refines (r ∷ rows) [] = ⊥
Refines (r ∷ rows) (s ∷ later) =
    (s.id ≡ r.id)
    × Moves r.max_attempts r.status r.attempts s.status s.attempts
    × Refines rows later

Evolves-Refines :
    (rows later : List Row) → Evolves rows later → All IsBorn later → Refines rows later
Evolves-Refines [] later h k = k
Evolves-Refines (r ∷ rows) [] h k = h
Evolves-Refines (r ∷ rows) (s ∷ later) h k =
    (h.0.same.id, h.0.moves, Evolves-Refines rows later h.1 k.1)

-- A run refines the machine, where its operations follow one another: no operation, and no other
-- process, works on the tables in the middle of one. From well-formed tables, whatever the operations
-- and the surroundings do, the status and the attempts of each notification go from what they were
-- by moves of the machine for its maximum of attempts: taken, delivered, postponed while attempts are
-- left, given up when none is, rejected, or cancelled while open. A notification that is new has come
-- by such moves from pending or scheduled and no attempts.
pub run-Refines :
    (env : Env) (s : Service) (ops : List Operation) (w : World)
    → WellFormed w.db
    → Refines w.db.notifications (run env s ops w).db.notifications
run-Refines env s ops w h =
    Evolves-Refines _ _ (run-Evolves env s ops w h) (run-WellFormed env s ops w h).born
