-- ===== src/Repository/Claim/Order.antt =====
-- `ClaimDue`: which rows are claimed, and in preference to which others.
use insider_one.Prelude.{
  ℕ, ◌≡◌, ◌≤◌, Bool, true, false, String, List, [], ◌∷◌, arith, All, take, drop, length, keep_if,
  length-take-le, All-imp,
}
use text.Mathlib.TextPositions.{eq_refl}
use insider_one.Domain.{Time, Channel}
use insider_one.Repository.Schema.{Row}
use insider_one.Repository.Sort.{sort_by}
use insider_one.Repository.Sort.Laws.{
  All-of_sort_by, sort_by-IsSorted, All-of_take-drop, take-before-drop, All-of_keep_if,
}
use insider_one.Repository.Claim.Meaning.{
  IsClaimable, NeedNotWait, claimable_iff, claims_before-NeedNotWait,
}
use insider_one.Repository.Claim.{claims_before, claimable, candidates, is_among}

claims_before_total : (a b : Row) → claims_before a b ≡ false → claims_before b a ≡ true
unfolding claims_before
claims_before_total a b h = ground arith

claims_before_trans :
    (a b c : Row) → claims_before a b ≡ true → claims_before b c ≡ true → claims_before a c ≡ true
unfolding claims_before
claims_before_trans a b c h k = ground arith

is_among-cons :
    (x : Row) (xs rows : List Row)
    → All (λ r. is_among xs r ≡ true) rows
    → All (λ r. is_among (x ∷ xs) r ≡ true) rows
is_among-cons x xs rows h =
    All-imp (λ r. is_among xs r ≡ true) (λ r. is_among (x ∷ xs) r ≡ true) rows (λ r e. ground arith)
      h

-- Each of some rows is among them.
is_among_self : (xs : List Row) → All (λ r. is_among xs r ≡ true) xs
is_among_self [] = tt
is_among_self (x ∷ xs) = (ground (arith, eq_refl x.id), is_among-cons x xs xs (is_among_self xs))

module _ (locked : String → Bool) (channel : Channel) (now : Time) (limit : ℕ)
    (rows : List Row) where
  candidates_before :
      (length (candidates locked channel now limit rows) ≤ limit)
      × All
          (λ r.
            claimable locked channel now r ≡ true
            → is_among (candidates locked channel now limit rows) r ≡ false
            → All (λ c. claims_before c r ≡ true) (candidates locked channel now limit rows))
          rows
  unfolding candidates
  candidates_before =
      let sorted = sort_by claims_before (keep_if (claimable locked channel now) rows) in
      let chosen = take limit sorted in
      let P = λ (r : Row). is_among chosen r ≡ false → All (λ c. claims_before c r ≡ true) chosen in
      (
        length-take-le limit sorted,
        All-of_keep_if P (claimable locked channel now) rows (
            All-of_sort_by claims_before P _ (
              All-of_take-drop P limit sorted
                (All-imp (λ r. is_among chosen r ≡ true) P chosen (λ r e f. cc)
                  (is_among_self chosen))
                (All-imp (λ r. All (λ c. claims_before c r ≡ true) chosen) P (drop limit sorted)
                  (λ r e f. e)
                  (take-before-drop (λ a b. claims_before a b ≡ true) limit sorted
                    (sort_by-IsSorted claims_before claims_before_total claims_before_trans _))))),
      )

  -- At most `limit` rows are claimed. A row that is of the channel, pending or scheduled, due and held by
  -- no other transaction, and that is not among them, is passed over for none that it should go before:
  -- where it is high, all that are claimed are high; where it is normal, all are high or normal; and none
  -- of its own rank (high, normal, or neither) was created after it.
  pub candidates-first :
      (length (candidates locked channel now limit rows) ≤ limit)
      × All
          (λ r.
            IsClaimable locked channel now r
            → is_among (candidates locked channel now limit rows) r ≡ false
            → All (λ c. NeedNotWait c r) (candidates locked channel now limit rows))
          rows
  candidates-first = (
    candidates_before.0,
    All-imp _ _ rows
        (λ r h claimed left.
          All-imp _ _ (candidates locked channel now limit rows)
            (λ c. claims_before-NeedNotWait c r)
            (h ((claimable_iff locked channel now r).1 claimed) left))
        candidates_before.1,
  )
