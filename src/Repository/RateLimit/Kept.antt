-- ===== src/Repository/RateLimit/Kept.antt =====
-- internal/repository/postgres.go: the statements beside `AcquireRateLimitSlots`, and its windows.
use insider_one.Prelude.{ℕ, String, List, Bool-cases, inl, inr, exists}
use insider_one.Repository.Schema.{WindowRow, Database, notification_row}
use insider_one.Repository.Write.{
  has_id, key_taken, request_taken, insert_row, insert_event, insert_request, cancel_rows,
}
use insider_one.Repository.Claim.{claim_rows}
use insider_one.Repository.Laws.{StatementLaws, UpdateLaws}
use insider_one.Repository.RateLimit.{acquire_rate_limit_slots}
use insider_one.Repository.RateLimit.Quota.{IsWithinQuota, acquire_rate_limit_slots-within}
use insider_one.Runtime.{Env}
use insider_one.Runtime.Keeps.{IsPreorder, Keeps}

-- A property of the windows is kept.
abbrev pub KeepsWindows : (List WindowRow → Type 0) → Database → Database → Type 0
KeepsWindows P db db' = P db.windows → P db'.windows

module _ (P : List WindowRow → Type 0) where
  pub kept : IsPreorder (KeepsWindows P)
  kept = record { refl_at = λ db h. h; trans_at = λ a b c f g h. g (f h) }

  pub kept_statements : (env : Env) → StatementLaws (KeepsWindows P) env
  unfolding insert_row insert_event insert_request cancel_rows
  kept_statements env = record {
    preorder = kept;
    row = λ n db fresh h.
        elim (Bool-cases (exists (has_id (notification_row env.stored n).id) db.notifications)) [
          | inl e ↦ rw e h
          | inr e ↦
              rw e
                (elim (Bool-cases (
                  key_taken (notification_row env.stored n).tenant_id
                    (notification_row env.stored n).idempotency_key db.notifications)) [
                      | inl e' ↦ rw e' h
                      | inr e' ↦ rw e' h
                    ])
        ];
    event = λ event db h.
        elim (Bool-cases (exists (has_id event.notification_id) db.notifications)) [
          | inl e ↦ rw e h
          | inr e ↦ rw e h
        ];
    request = λ key batch_id tenant now db h.
        elim (Bool-cases (exists (request_taken tenant key) db.requests)) [
          | inl e ↦ rw e h
          | inr e ↦ rw e h
        ];
    cancel = λ ids tenant now db h. h;
  }

  pub kept_updates : UpdateLaws (KeepsWindows P)
  unfolding claim_rows
  kept_updates = record { update = λ p f db h. h; claim = λ locked channel now updated n db h. h }

pub acquire-KeepsQuota :
    (limit : ℕ) (env : Env) (key : String) (requested : ℕ)
    → Keeps (KeepsWindows (IsWithinQuota limit)) (acquire_rate_limit_slots env key limit requested)
acquire-KeepsQuota limit env key requested = record {
  at = λ w h. (acquire_rate_limit_slots-within env key limit requested w h).0;
}
