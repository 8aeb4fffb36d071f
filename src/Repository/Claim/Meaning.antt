-- ===== src/Repository/Claim/Meaning.antt =====
-- internal/repository/postgres.go, `ClaimDue`: what the WHERE clause and the ORDER BY ask for, in words of
-- their own.
use insider_one.Prelude.{
  ◌≡◌, refl, ◌≢◌, ◌⊎◌, ◌≤◌, ◌↔◌, String, Bool, true, false, Option, none, some, arith, eq_iff,
}
use insider_one.Domain.{Time, Channel, Status, pending, scheduled}
use insider_one.Repository.Schema.{Row}
use insider_one.Repository.Claim.{claims_before, priority_rank, claimable, is_waiting, is_due}

-- A time that is there has come.
abbrev pub HasCome : Option Time → Time → Type 0
HasCome none now = Unit
HasCome (some t) now = t ≤ now

-- A row of the channel that waits, is due, and is held by no other transaction.
pub record IsClaimable (locked : String → Bool) (channel : Channel) (now : Time) (r : Row)
    : Type 0 where
  pub asked : r.channel ≡ channel
  pub waits : (r.status ≡ pending) ⊎ (r.status ≡ scheduled)
  pub due : HasCome r.scheduled_at now
  pub free : locked r.id ≡ false

-- A row that need not wait for another: where that one is high, this one is; where that one is
-- normal, this one is high or normal; and of two that are both high, both normal, or both neither, this one is
-- not the younger.
pub record NeedNotWait (c r : Row) : Type 0 where
  pub high : r.priority ≡ "high" → c.priority ≡ "high"
  pub normal : r.priority ≡ "normal" → (c.priority ≡ "high") ⊎ (c.priority ≡ "normal")
  pub older : c.priority ≡ r.priority → c.created_at ≤ r.created_at
  pub older_low :
      r.priority ≢ "high"
      → r.priority ≢ "normal"
      → c.priority ≢ "high"
      → c.priority ≢ "normal"
      → c.created_at ≤ r.created_at

waiting : (s : Status) → is_waiting s ≡ true → (s ≡ pending) ⊎ (s ≡ scheduled)
waiting s h = ground arith

come : (at : Option Time) (now : Time) → is_due at now ≡ true → HasCome at now
come none now h = tt
come (some t) now h = ground arith

come-due : (at : Option Time) (now : Time) → HasCome at now → is_due at now ≡ true
come-due none now h = refl
come-due (some t) now h = ground arith

pub claimable_iff :
    (locked : String → Bool) (channel : Channel) (now : Time) (r : Row)
    → (claimable locked channel now r ≡ true) ↔ IsClaimable locked channel now r
unfolding claimable
claimable_iff locked channel now r = (
  λ h. record {
    asked = ground (arith, eq_iff r.channel channel);
    waits = waiting r.status (ground arith);
    due = come r.scheduled_at now (ground arith);
    free = ground arith;
  },
  λ h.
      let due = come-due r.scheduled_at now h.due in
      let same = h.asked in
      let waits = h.waits in let free = h.free in ground (arith, eq_iff r.channel channel),
)

pub claims_before-NeedNotWait : (c r : Row) → claims_before c r ≡ true → NeedNotWait c r
unfolding claims_before priority_rank
claims_before-NeedNotWait c r h = record {
  high = λ e. ground (arith, eq_iff c.priority "high", eq_iff r.priority "high");
  normal = λ e. ground (
    arith,
    eq_iff c.priority "high",
    eq_iff r.priority "high",
    eq_iff c.priority "normal",
    eq_iff r.priority "normal",
  );
  older = λ e. ground arith;
  older_low = λ a b d f. ground (
    arith,
    eq_iff c.priority "high",
    eq_iff r.priority "high",
    eq_iff c.priority "normal",
    eq_iff r.priority "normal",
  );
}
