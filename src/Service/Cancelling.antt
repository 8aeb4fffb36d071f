-- ===== src/Service/Cancelling.antt =====
-- internal/service/service.go, `Cancel`: what cancelling changes.
use insider_one.Prelude.{
  String, ◌≡◌, refl, ◌⊎◌, inl, true, List, [], ◌∷◌, arith, exists, str_eq, eq_iff, if◌then◌else◌,
}
use insider_one.Domain.{Time, cancelled}
use insider_one.Httpx.Context.{Context, tenant_id_of}
use insider_one.Repository.Schema.{Row, Database, tenant_id}
use insider_one.Repository.Write.{
  is_open, cancellable, set_cancelled, update_rows, cancel_rows, cancel_some, cancel_pending,
}
use insider_one.Runtime.{Env, World}
use insider_one.Runtime.Keeps.{
  IsPreorder, Keeps, Keeps-pure, Keeps->>=, Keeps-check_ctx, Keeps-clock, Keeps-exec,
}
use insider_one.Service.{cancel}

module _ (ids : List String) (tenant : String) where
  -- A row stays as it is, or it is one of the rows named, of this tenant and open, and only its
  -- status, now `cancelled`, and its time of update are new.
  abbrev CancelsRow : Row → Row → Type 0
  CancelsRow r s =
      (s ≡ r)
      ⊎ ((r.tenant_id ≡ tenant)
          × (exists (λ id. str_eq r.id id) ids ≡ true)
          × (is_open r.status ≡ true)
          × (s ≡ record r { status = cancelled; updated_at = s.updated_at }))

  abbrev CancelsRows : List Row → List Row → Type 0
  CancelsRows [] later = later ≡ []
  CancelsRows (r ∷ rows) [] = ⊥
  CancelsRows (r ∷ rows) (s ∷ later) = CancelsRow r s × CancelsRows rows later

  -- Only rows of `notifications` change, and each of them as `CancelsRow` says.
  abbrev pub CancelsOnly : Database → Database → Type 0
  CancelsOnly db db' =
      (db' ≡ record db { notifications = db'.notifications })
      × CancelsRows db.notifications db'.notifications

  CancelsRows-refl : (rows : List Row) → CancelsRows rows rows
  CancelsRows-refl [] = refl
  CancelsRows-refl (r ∷ rows) = (inl refl, CancelsRows-refl rows)

  CancelsRow-trans : (r s t : Row) → CancelsRow r s → CancelsRow s t → CancelsRow r t
  CancelsRow-trans r s t h k = grind arith

  CancelsRows-trans :
      (xs ys zs : List Row) → CancelsRows xs ys → CancelsRows ys zs → CancelsRows xs zs
  CancelsRows-trans [] [] zs h k = k
  CancelsRows-trans [] (y ∷ ys) zs h k = absurd (ground arith)
  CancelsRows-trans (x ∷ xs) [] zs h k = absurd h
  CancelsRows-trans (x ∷ xs) (y ∷ ys) [] h k = k
  CancelsRows-trans (x ∷ xs) (y ∷ ys) (z ∷ zs) h k =
      (CancelsRow-trans x y z h.0 k.0, CancelsRows-trans xs ys zs h.1 k.1)

  pub cancels : IsPreorder CancelsOnly
  cancels = record {
    refl_at = λ db. (refl, CancelsRows-refl db.notifications);
    trans_at = λ a b c h k. (grind arith, CancelsRows-trans _ _ _ h.1 k.1);
  }

  cancel_row :
      (now : Time) (r : Row)
      → CancelsRow r (if cancellable ids tenant r then set_cancelled now r else r)
  unfolding cancellable set_cancelled
  cancel_row now r = ground (arith, eq_iff r.tenant_id tenant)

  cancel_all :
      (now : Time) (rows : List Row)
      → CancelsRows rows (update_rows (cancellable ids tenant) (set_cancelled now) rows)
  cancel_all now [] = refl
  cancel_all now (r ∷ rows) = (cancel_row now r, cancel_all now rows)

module _ (env : Env) (tenant : String) where
  pub cancel_pending-CancelsOnly :
      (ids : List String)
      → Keeps (CancelsOnly ids (tenant_id tenant)) (cancel_pending env ids tenant)
  unfolding cancel_pending cancel_some cancel_rows
  cancel_pending-CancelsOnly [] = Keeps-pure _ (cancels [] (tenant_id tenant)) 0
  cancel_pending-CancelsOnly (id ∷ ids) =
      let t = tenant_id tenant in
      let pre = cancels (id ∷ ids) t in
      Keeps->>= _ pre (Keeps-clock _ pre env) (λ now.
        Keeps-exec _ pre env _
          (λ db. (refl, cancel_all (id ∷ ids) t (env.stored now) db.notifications)))

-- Whatever the connection and the context do, cancelling changes nothing but rows of
-- notifications, and a row that it changes is named by the request, belongs to the caller's
-- tenant and is pending, scheduled or processing; such a row gets the status `cancelled` and a new
-- time of update, and keeps all else.
pub cancel-CancelsOnly :
    (env : Env) (ctx : Context) (ids : List String) (w : World)
    → CancelsOnly ids (tenant_id (tenant_id_of ctx)) w.db (cancel env ctx ids w).1.db
unfolding cancel
cancel-CancelsOnly env ctx ids w =
    let pre = cancels ids (tenant_id (tenant_id_of ctx)) in
    (Keeps->>= _ pre (Keeps-check_ctx _ pre env)
        (λ _. cancel_pending-CancelsOnly env (tenant_id_of ctx) ids)).at
      w
