-- ===== src/Service/Rules/Effects.antt =====
-- internal/service/service.go: the effect on the tables of making an id and a delay.
use insider_one.Prelude.{ℕ, Option, none, some, List}
use insider_one.Repository.Schema.{Database}
use insider_one.Runtime.{Env}
use insider_one.Runtime.Keeps.{IsPreorder, Keeps, Keeps-pure, Keeps-ask, Keeps->>=, Keeps-clock}
use insider_one.Service.Rules.{fresh_id, new_id, backoff}

module _ (R : Database → Database → Type 0) (pre : IsPreorder R) (env : Env) where
  Keeps-fresh_id : (bytes : Option (List ℕ)) → Keeps R (fresh_id env bytes)
  unfolding fresh_id
  Keeps-fresh_id (some bytes) = Keeps-pure R pre _
  Keeps-fresh_id none = Keeps->>= R pre (Keeps-clock R pre env) (λ now. Keeps-pure R pre _)

  pub Keeps-new_id : Keeps R (new_id env)
  unfolding new_id
  Keeps-new_id = Keeps->>= R pre (Keeps-ask R pre env.random) (λ bytes. Keeps-fresh_id (bytes 16))

  pub Keeps-backoff : (attempts : ℕ) → Keeps R (backoff env attempts)
  unfolding backoff
  Keeps-backoff attempts =
      Keeps->>= R pre (Keeps-ask R pre env.random) (λ bytes. Keeps-pure R pre _)
