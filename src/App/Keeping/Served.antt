-- ===== src/App/Keeping/Served.antt =====
-- internal/app/app.go: the tables before and after one request.
use insider_one.App.{App}
use insider_one.App.Handlers.{Codec}
use insider_one.App.Keeping.Serving.{serve-respects}
use insider_one.App.Routes.{Mux, serve}
use insider_one.Httpx.Message.{Request}
use insider_one.Repository.Laws.Methods.{repository_laws}
use insider_one.Repository.Lifecycle.{Evolves, WellFormed, Lives}
use insider_one.Repository.Lifecycle.Statements.{Lives-statements}
use insider_one.Runtime.{Env, World}

-- One request, on whatever route and with whatever body, whether it is let through or not, and
-- whatever the surroundings do, while no other process works on the tables: from well-formed tables it
-- leaves well-formed ones, and the notifications that were there have evolved. Each is in its
-- place with its identity, its attempts have not fallen, its status and attempts have gone by moves of
-- the abstract machine, and a final one is unchanged.
pub serve-WellFormed :
    (env : Env) (codec : Codec) (mux : Mux) (a : App) (r : Request) (w : World)
    → WellFormed w.db
    → let w' = (serve env codec mux a r w).1 in
      WellFormed w'.db × Evolves w.db.notifications w'.db.notifications
serve-WellFormed env codec mux a r w h =
    (serve-respects Lives env (repository_laws Lives env (Lives-statements env)) codec mux a r).at w
      h
