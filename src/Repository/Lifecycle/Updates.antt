-- ===== src/Repository/Lifecycle/Updates.antt =====
-- internal/repository/postgres.go: updates of rows, row by row.
use insider_one.Prelude.{
  ◌≤◌, String, ◌≡◌, refl, sym, ◌∙◌, Bool, true, false, List, [], ◌∷◌, ◌++◌, arith, All, exists,
  All-imp, Pairs-map, if◌then◌else◌, Bool-cases, inl, inr,
}
use insider_one.Repository.Machine.{Moves, stay, Moves-trans}
use insider_one.Repository.Schema.{Row, Database}
use insider_one.Repository.Write.{is_open, has_id, update_rows}
use insider_one.Repository.Lifecycle.{
  SameIdentity, Advances, Evolves, IsWithin, IsBorn, IdsApart, KeysApart, IsOwned, WellFormed,
  Lives,
}

pub SameIdentity-refl : (r : Row) → SameIdentity r r
SameIdentity-refl r = ground arith

pub Advances-refl : (r : Row) → Advances r r
Advances-refl r = record {
  same = SameIdentity-refl r;
  attempts = omega arith;
  moves = stay r.status r.attempts;
  settled = λ _. refl;
}

pub SameIdentity-trans : (r s t : Row) → SameIdentity r s → SameIdentity s t → SameIdentity r t
SameIdentity-trans r s t h k = ground arith

Advances-trans : (r s t : Row) → Advances r s → Advances s t → Advances r t
Advances-trans r s t h k = record {
  same = SameIdentity-trans r s t h.same k.same;
  attempts = omega arith;
  moves = Moves-trans r.max_attempts _ _ _ _ _ _ h.moves (rw (← h.same.max_attempts) k.moves);
  settled = λ e. let p = h.settled e in k.settled (rw p e) ∙ p;
}

pub Evolves-refl : (rows : List Row) → Evolves rows rows
Evolves-refl [] = tt
Evolves-refl (r ∷ rows) = (Advances-refl r, Evolves-refl rows)

pub Evolves-trans : (a b c : List Row) → Evolves a b → Evolves b c → Evolves a c
Evolves-trans [] b c h k = tt
Evolves-trans (r ∷ a) (s ∷ b) [] h k = k
Evolves-trans (r ∷ a) [] c h k = absurd h
Evolves-trans (r ∷ a) (s ∷ b) (t ∷ c) h k =
    (Advances-trans r s t h.0 k.0, Evolves-trans a b c h.1 k.1)

pub Evolves-append : (rows more : List Row) → Evolves rows (rows ++ more)
Evolves-append [] more = tt
Evolves-append (r ∷ rows) more = (Advances-refl r, Evolves-append rows more)

-- An update `f` of a row that passes `p` is lawful where it adds attempts within the maximum and
-- leaves a settled row alone.
pub record IsLawful (p : Row → Bool) (f : Row → Row) (r : Row) : Type 0 where
  pub attempts : r.attempts ≤ (f r).attempts
  pub moves : p r ≡ true → Moves r.max_attempts r.status r.attempts (f r).status (f r).attempts
  pub settled : p r ≡ true → is_open r.status ≡ false → f r ≡ r
  pub within : p r ≡ true → IsWithin r → IsWithin (f r)

-- Identities alone keep two rows apart.
IdsApart-same :
    (r s r' s' : Row) → SameIdentity r r' → SameIdentity s s' → IdsApart r s → IdsApart r' s'
IdsApart-same r s r' s' h k apart e = apart (sym h.id ∙ e ∙ k.id)

KeysApart-same :
    (r s r' s' : Row) → SameIdentity r r' → SameIdentity s s' → KeysApart r s → KeysApart r' s'
KeysApart-same r s r' s' h k apart key t a b =
    apart key (sym h.tenant_id ∙ t ∙ k.tenant_id) (sym h.idempotency_key ∙ a)
      (sym k.idempotency_key ∙ b)

module _ (p : Row → Bool) (f : Row → Row) (same : (r : Row) → SameIdentity r (f r)) where
  abbrev step : Row → Row
  step r = if p r then f r else r

  step-SameIdentity : (r : Row) → SameIdentity r (step r)
  step-SameIdentity r = elim (Bool-cases (p r)) [
    | inl e ↦ rw e (same r)
    | inr e ↦ rw e (SameIdentity-refl r)
  ]

  step-Advances : (r : Row) → IsLawful p f r → Advances r (step r)
  step-Advances r h = elim (Bool-cases (p r)) [
    | inl e ↦
        rw e (record {
          same = same r;
          attempts = h.attempts;
          moves = h.moves e;
          settled = h.settled e;
        })
    | inr e ↦ rw e (Advances-refl r)
  ]

  step-IsWithin : (r : Row) → IsLawful p f r → IsWithin r → IsWithin (step r)
  step-IsWithin r h k = elim (Bool-cases (p r)) [ inl e ↦ rw e (h.within e k) | inr e ↦ rw e k ]

  step-IsBorn : (r : Row) → IsLawful p f r → IsBorn r → IsBorn (step r)
  step-IsBorn r h (first, waiting, moves) = elim (Bool-cases (p r)) [
    | inl e ↦ rw e (
      first,
      waiting,
      rw (same r).max_attempts (Moves-trans r.max_attempts first _ _ 0 _ _ moves (h.moves e)),
    )
    | inr e ↦ rw e (first, waiting, moves)
  ]

  update_rows-IsBorn :
      (rows : List Row)
      → All (IsLawful p f) rows
      → All IsBorn rows
      → All IsBorn (update_rows p f rows)
  update_rows-IsBorn [] h k = tt
  update_rows-IsBorn (r ∷ rows) h k = (step-IsBorn r h.0 k.0, update_rows-IsBorn rows h.1 k.1)

  update_rows-Evolves :
      (rows : List Row) → All (IsLawful p f) rows → Evolves rows (update_rows p f rows)
  update_rows-Evolves [] h = tt
  update_rows-Evolves (r ∷ rows) h = (step-Advances r h.0, update_rows-Evolves rows h.1)

  update_rows-IsWithin :
      (rows : List Row)
      → All (IsLawful p f) rows
      → All IsWithin rows
      → All IsWithin (update_rows p f rows)
  update_rows-IsWithin [] h k = tt
  update_rows-IsWithin (r ∷ rows) h k = (step-IsWithin r h.0 k.0, update_rows-IsWithin rows h.1 k.1)

  exists-update_rows :
      (id : String) (rows : List Row)
      → exists (has_id id) rows ≡ true
      → exists (has_id id) (update_rows p f rows) ≡ true
  exists-update_rows id [] h = h
  exists-update_rows id (r ∷ rows) h =
      ground (arith, (step-SameIdentity r).id, exists-update_rows id rows)

  -- A lawful update keeps the tables well formed.
  pub update_rows-WellFormed :
      (db : Database)
      → WellFormed db
      → All (IsLawful p f) db.notifications
      → WellFormed (record db { notifications = update_rows p f db.notifications })
  update_rows-WellFormed db h l = record {
    ids =
        Pairs-map IdsApart step db.notifications
          (λ r s. IdsApart-same r s (step r) (step s) (step-SameIdentity r) (step-SameIdentity s))
          h.ids;
    keys =
        Pairs-map KeysApart step db.notifications
          (λ r s. KeysApart-same r s (step r) (step s) (step-SameIdentity r) (step-SameIdentity s))
          h.keys;
    within = update_rows-IsWithin db.notifications l h.within;
    born = update_rows-IsBorn db.notifications l h.born;
    owned =
        All-imp (IsOwned db.notifications) (IsOwned (update_rows p f db.notifications)) db.events
          (λ e. exists-update_rows e.notification_id db.notifications) h.owned;
    numbered = h.numbered;
    below_next = h.below_next;
    requests = h.requests;
  }

  -- A lawful update lives.
  pub update_rows-Lives :
      (db : Database)
      → (WellFormed db → All (IsLawful p f) db.notifications)
      → Lives db (record db { notifications = update_rows p f db.notifications })
  update_rows-Lives db l h =
      (update_rows-WellFormed db h (l h), update_rows-Evolves db.notifications (l h))
