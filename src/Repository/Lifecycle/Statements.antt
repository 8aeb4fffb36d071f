-- ===== src/Repository/Lifecycle/Statements.antt =====
-- internal/repository/postgres.go: the statements and the lifecycle, together.
use insider_one.Prelude.{List}
use insider_one.Repository.Schema.{Database, WindowRow}
use insider_one.Repository.Laws.{StatementLaws}
use insider_one.Repository.Lifecycle.{Lives}
use insider_one.Repository.Lifecycle.Updates.{Evolves-refl, Evolves-trans}
use insider_one.Repository.Lifecycle.Inserts.{
  insert_row-Lives, insert_event-Lives, insert_request-Lives,
}
use insider_one.Repository.Lifecycle.Claims.{cancel_rows-Lives}
use insider_one.Runtime.{Env}
use insider_one.Runtime.Keeps.{IsPreorder}

Lives-trans : (a b c : Database) → Lives a b → Lives b c → Lives a c
Lives-trans a b c h k w =
    let (w', e) = h w in let (w'', e') = k w' in (w'', Evolves-trans _ _ _ e e')

pub lives : IsPreorder Lives
lives = record { refl_at = λ db w. (w, Evolves-refl db.notifications); trans_at = Lives-trans }

pub Lives-statements : (env : Env) → StatementLaws Lives env
Lives-statements env = record {
  preorder = lives;
  row = λ n db h. insert_row-Lives env n db h;
  event = insert_event-Lives env;
  request = insert_request-Lives env;
  cancel = cancel_rows-Lives env;
}

-- A statement that changes the windows alone.
pub windows-Lives : (db : Database) (ws : List WindowRow) → Lives db (record db { windows = ws })
windows-Lives db ws h = (
  record {
    ids = h.ids;
    keys = h.keys;
    within = h.within;
    born = h.born;
    owned = h.owned;
    numbered = h.numbered;
    below_next = h.below_next;
    requests = h.requests;
  },
  Evolves-refl db.notifications,
)
