-- ===== src/Service/Process/Unclaimed.antt =====
-- `ClaimDue`: the rows that a claim leaves alone, told by what it returns.
use mathlib.Core.Path.{subst}
use insider_one.Prelude.{
  ◌≡◌, ◌≢◌, refl, sym, ap, ◌∙◌, ◌||◌, String, Bool, true, false, List, [], ◌∷◌, map, keep_if,
  exists, All, arith, str_eq, eq_iff, if◌then◌else◌, Bool-cases, inl, inr,
}
use insider_one.Domain.{Time, processing, Notification}
use insider_one.Repository.Schema.{Row, Database, scan_notification}
use insider_one.Repository.Write.{update_rows}
use insider_one.Repository.Claim.{is_among, set_processing}
use insider_one.Service.Process.Settled.{IsSettled}

-- What the claim returns has no such id, so the rows of that id were not claimed.
module _ (chosen : List Row) (at : Time) (id : String) where
  abbrev claim_row : Bool → Row → Row
  claim_row b r = if b then set_processing at r else r

  abbrev pub claims : List Row → List Row
  claims rows = update_rows (is_among chosen) (set_processing at) rows

  -- Whether the claim returns a notification with the id.
  abbrev pub returned : List Row → Bool
  returned later =
      exists (λ (n : Notification). str_eq n.id id)
        (map scan_notification (keep_if (is_among chosen) later))

  same_id : (b : Bool) (r : Row) → is_among chosen (claim_row b r) ≡ is_among chosen r
  unfolding set_processing
  same_id true r = refl
  same_id false r = refl

  returned-cons :
      (b : Bool) (r : Row) (later : List Row)
      → is_among chosen r ≡ b
      → returned (claim_row b r ∷ later)
        ≡ (if b then (str_eq r.id id || returned later) else returned later)
  unfolding set_processing scan_notification
  returned-cons true r later e =
      ap
        (λ b.
          exists (λ (n : Notification). str_eq n.id id)
            (map scan_notification (
              if b
              then set_processing at r ∷ keep_if (is_among chosen) later
              else keep_if (is_among chosen) later)))
        (same_id true r ∙ e)
  returned-cons false r later e =
      ap
        (λ b.
          exists (λ (n : Notification). str_eq n.id id)
            (map scan_notification
              (if b then r ∷ keep_if (is_among chosen) later else keep_if (is_among chosen) later)))
        (same_id false r ∙ e)

  abbrev pub Free : List Row → Type 0
  Free rows = All (λ (r : Row). r.id ≡ id → r.status ≢ processing) rows

  unclaimed-step :
      (b : Bool) (r : Row) (later : List Row)
      → is_among chosen r ≡ b
      → returned (claim_row b r ∷ later) ≡ false
      → (r.id ≡ id → r.status ≢ processing)
      → (returned later ≡ false → Free later)
      → Free (claim_row b r ∷ later)
  unfolding set_processing
  unclaimed-step true r later e h k next =
      let h' : (str_eq r.id id || returned later) ≡ false =
        sym (returned-cons true r later e) ∙ h in
      ((λ p _. ground (arith, eq_iff r.id id)), next (ground arith))
  unclaimed-step false r later e h k next = (k, next (sym (returned-cons false r later e) ∙ h))

  -- Where the claim returns no such id, the rows of that id were not claimed.
  pub unclaimed :
      (rows : List Row) → returned (claims rows) ≡ false → Free rows → Free (claims rows)
  unclaimed [] h k = tt
  unclaimed (r ∷ rows) h k =
      unclaimed-step (is_among chosen r) r (claims rows) refl h k.0 (λ h'. unclaimed rows h' k.1)

-- What holds at every notification of a list holds at the ids in it.
pub at_id :
    (id : String) (db : Database) (ns : List Notification)
    → exists (λ (n : Notification). str_eq n.id id) ns ≡ true
    → All (λ (n : Notification). IsSettled n.id db) ns
    → IsSettled id db
at_id id db [] h k = absurd (ground arith)
at_id id db (n ∷ ns) h k = elim (Bool-cases (str_eq n.id id)) [
  | inl e ↦ subst (λ i. IsSettled i db) ((eq_iff n.id id).0 e) k.0
  | inr e ↦ at_id id db ns (ground arith) k.1
]
