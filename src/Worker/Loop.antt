-- ===== src/Worker/Loop.antt =====
-- internal/worker/manager.go, `runChannel`: the loop of one worker. The cases that `select` takes, one
-- after another, are a list; the timeout of a cycle is a matter of the context's error.
use insider_one.Prelude.{ℕ, zero, suc, ◌≡◌, refl, List, [], ◌∷◌}
use insider_one.Domain.{Channel}
use insider_one.Runtime.{Env, World, ok, Fallible, pure, ◌>>=◌, attempt}
use insider_one.Service.{Service}
use insider_one.Service.Operations.{Operation, work, run, perform}
use insider_one.Service.Process.{process_channel}

-- What `select` finds ready.
pub data Event : Type 0 where
  done tick : Event

module _ (env : Env) (s : Service) (channel : Channel) where
  -- `runChannel`, for the cases taken so far.
  unfoldable pub run_channel : List Event → Fallible (Unit {0})
  run_channel [] = pure tt
  run_channel (done ∷ events) = pure tt
  run_channel (tick ∷ events) = do
    logged ← attempt (process_channel env s channel)
    run_channel events

  -- The number of ticks before the context is done.
  abbrev pub ticks : List Event → ℕ
  ticks [] = 0
  ticks (done ∷ events) = 0
  ticks (tick ∷ events) = suc (ticks events)

  abbrev pub cycles : ℕ → List Operation
  cycles zero = []
  cycles (suc n) = work channel ∷ cycles n

  -- A worker runs one cycle for each tick before its context is done, whatever each cycle returns, and
  -- none after: it ends without error, in the world that so many cycles one after another make.
  pub run_channel-ticks :
      (events : List Event) (w : World)
      → run_channel events w ≡ (ok tt, run env s (cycles (ticks events)) w)
  unfolding run_channel run perform ◌>>=◌ attempt
  run_channel-ticks [] w = refl
  run_channel-ticks (done ∷ events) w = refl
  run_channel-ticks (tick ∷ events) w = run_channel-ticks events (process_channel env s channel w).1
