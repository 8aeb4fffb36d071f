-- ===== src/App/Limits.antt =====
-- internal/app/app.go: the rate limit of the application that `New` makes.
use insider_one.Prelude.{ℕ, ◌≤◌, String, ◌≡◌, ◌∙◌, ap, List, All}
use insider_one.Prelude.Int.{pos, pos_part}
use insider_one.App.{App, new}
use insider_one.App.Wiring.{new-IsWired}
use insider_one.Config.{Getenv, load}
use insider_one.Domain.{Time}
use insider_one.Repository.RateLimit.Quota.{IsWithinQuota}
use insider_one.Repository.RateLimit.Seconds.{OnSeconds, StoresSeconds, used_in_second}
use insider_one.Runtime.{Env, World, Result, ok}
use insider_one.Service.Interleaved.{RepositoryCall, interleave}
use insider_one.Service.Interleaved.Rate.{InsertsFresh, interleave-within}
use insider_one.Telemetry.{Sdk}

-- Let `New` make an application in an environment whose rate limit, by default 100, is `limit`; let
-- the timestamps' column keep whole seconds, and the tables' windows start with whole seconds and be
-- within that limit. However the repository calls of the application's goroutines come between one
-- another, where what they insert is new, and whatever the surroundings do, the windows that start
-- within one second from any time have together at most `limit` slots in use, under each key.
pub new-interleave-within :
    (env : Env) (sdk : Sdk) (database : Result (Unit {0})) (quote : String → String)
    (getenv : Getenv) (w w' : World) (a : App) (limit : ℕ) (calls : List RepositoryCall)
    (key : String) (from : Time)
    → (new env sdk database quote getenv w).0 ≡ ok a
    → (load getenv).rate_limit_per_second ≡ pos limit
    → StoresSeconds env
    → All InsertsFresh calls
    → IsWithinQuota limit w'.db.windows
    → OnSeconds w'.db.windows
    → used_in_second key from (interleave env a.service calls w').db.windows ≤ limit
new-interleave-within env sdk database quote getenv w w' a limit calls key from made e stores fresh
      q o =
    let wired = new-IsWired env sdk database quote getenv w a made in
    let same : a.service.rate_limit ≡ limit = ap pos_part (wired.2 ∙ e) in
    rw (← same) (interleave-within env a.service calls w' key from stores fresh (rw same q) o)
