-- ===== src/Repository/Read/Listing.antt =====
-- `List`: what a page holds.
use mathlib.Core.Path.{subst}
use insider_one.Prelude.{
  ℕ, zero, suc, ◌≡◌, ◌≤◌, ◌⊎◌, String, true, false, Option, none, some, List, [], ◌∷◌, map, take,
  drop, keep_if, length, All, Pairs, length-take-le, arith, eq_iff,
}
use insider_one.Prelude.Int.{ℤ, pos, negsuc}
use insider_one.Domain.{Time, status_text, Notification}
use insider_one.Repository.Schema.{Row, tenant_id, scan_notification, map_time}
use insider_one.Repository.Sort.{sort_by}
use insider_one.Repository.Sort.Laws.{All-sort_by, All-drop, All-keep_if, sort_by-IsSorted}
use insider_one.Repository.Read.{
  from_filter, to_filter, list_filter, newest_first, list_notifications, page,
}
use insider_one.Runtime.{
  ok, Error, Env, World, Fault, taken, refused, lost, query, exec, under_fault,
}

module _ {A B : Type 0} where
  All-map_to :
      (P : A → Type 0) (Q : B → Type 0) (f : A → B) (xs : List A)
      → ((x : A) → P x → Q (f x))
      → All P xs
      → All Q (map f xs)
  All-map_to P Q f [] g h = tt
  All-map_to P Q f (x ∷ xs) g h = (g x h.0, All-map_to P Q f xs g h.1)

  Pairs-map_to :
      (R : A → A → Type 0) (T : B → B → Type 0) (f : A → B) (xs : List A)
      → ((x y : A) → R x y → T (f x) (f y))
      → Pairs R xs
      → Pairs T (map f xs)
  Pairs-map_to R T f [] g h = tt
  Pairs-map_to R T f (x ∷ xs) g h =
      (All-map_to (R x) (T (f x)) f xs (g x) h.0, Pairs-map_to R T f xs g h.1)

module _ {A : Type 0} where
  All-take : (P : A → Type 0) (n : ℕ) (xs : List A) → All P xs → All P (take n xs)
  All-take P zero xs h = tt
  All-take P (suc n) [] h = tt
  All-take P (suc n) (x ∷ xs) h = (h.0, All-take P n xs h.1)

  Pairs-take : (R : A → A → Type 0) (n : ℕ) (xs : List A) → Pairs R xs → Pairs R (take n xs)
  Pairs-take R zero xs h = tt
  Pairs-take R (suc n) [] h = tt
  Pairs-take R (suc n) (x ∷ xs) h = (All-take (R x) n xs h.0, Pairs-take R n xs h.1)

  Pairs-drop : (R : A → A → Type 0) (n : ℕ) (xs : List A) → Pairs R xs → Pairs R (drop n xs)
  Pairs-drop R zero xs h = h
  Pairs-drop R (suc n) [] h = tt
  Pairs-drop R (suc n) (x ∷ xs) h = Pairs-drop R n xs h.1

-- The bounds of a time, each left out where it is `none`.
abbrev IsFrom : Option Time → Time → Type 0
IsFrom none t = Unit
IsFrom (some from) t = from ≤ t

abbrev IsTo : Option Time → Time → Type 0
IsTo none t = Unit
IsTo (some to) t = t ≤ to

-- What the query asks of a notification.
pub record Matches (of_tenant with_status on_channel : String) (since until : Option Time)
    (n : Notification) : Type 0 where
  pub tenant : n.tenant_id ≡ of_tenant
  pub status : (with_status ≡ "") ⊎ (status_text n.status ≡ with_status)
  pub channel : (on_channel ≡ "") ⊎ (n.channel ≡ on_channel)
  pub from : IsFrom since n.created_at
  pub to : IsTo until n.created_at

-- One page: short enough, of matching notifications, the newest first.
pub record IsPage (tenant status channel : String) (from to : Option Time) (limit : ℕ)
    (ns : List Notification) : Type 0 where
  pub short : length ns ≤ limit
  pub matching : All (Matches tenant status channel from to) ns
  pub newest : Pairs (λ (a b : Notification). b.created_at ≤ a.created_at) ns

newest_first_total : (a b : Row) → newest_first a b ≡ false → newest_first b a ≡ true
newest_first_total a b h = ground arith

newest_first_trans :
    (a b c : Row) → newest_first a b ≡ true → newest_first b c ≡ true → newest_first a c ≡ true
newest_first_trans a b c h k = ground arith

scanned-newest :
    (a b : Row)
    → newest_first a b ≡ true
    → (scan_notification b).created_at ≤ (scan_notification a).created_at
unfolding scan_notification
scanned-newest a b h = ground arith

All-unit : (rows : List Row) → All (λ r. Unit {0}) rows
All-unit [] = tt
All-unit (r ∷ rows) = (tt, All-unit rows)

module _ (tenant status channel : String) (from to : Option Time) where
  IsFrom-bound : (o : Option Time) (t : Time) → from_filter o t ≡ true → IsFrom o t
  IsFrom-bound none t h = tt
  IsFrom-bound (some f) t h = ground arith

  IsTo-bound : (o : Option Time) (t : Time) → to_filter o t ≡ true → IsTo o t
  IsTo-bound none t h = tt
  IsTo-bound (some f) t h = ground arith

  filter-Matches :
      (r : Row)
      → list_filter tenant status channel from to r ≡ true
      → Matches tenant status channel from to (scan_notification r)
  unfolding list_filter scan_notification
  filter-Matches r h = record {
    tenant = ground (arith, eq_iff r.tenant_id tenant);
    status = ground (arith, eq_iff status "", eq_iff (status_text r.status) status);
    channel = ground (arith, eq_iff channel "", eq_iff r.channel channel);
    from = IsFrom-bound from r.created_at (ground arith);
    to = IsTo-bound to r.created_at (ground arith);
  }

  page-IsPage :
      (limit : ℕ) (offset : ℤ) (negative : Error) (rows : List Row) (ns : List Notification)
      → page negative limit offset (
          map scan_notification
            (sort_by newest_first (keep_if (list_filter tenant status channel from to) rows)))
        ≡ ok ns
      → IsPage tenant status channel from to limit ns
  page-IsPage limit (negsuc offset) negative rows ns h = cc
  page-IsPage limit (pos offset) negative rows ns h =
      let kept = keep_if (list_filter tenant status channel from to) rows in
      let all = map scan_notification (sort_by newest_first kept) in
      let e : take limit (drop offset all) ≡ ns = cc in
      subst (IsPage tenant status channel from to limit) e (record {
        short = length-take-le limit (drop offset all);
        matching = All-take _ limit _ (
            All-drop _ offset _ (
              All-map_to (λ r. (list_filter tenant status channel from to r ≡ true) × Unit) _
                scan_notification _ (λ r p. filter-Matches r p.0)
                (All-sort_by newest_first _ kept (
                  All-keep_if (λ r. Unit) (list_filter tenant status channel from to) rows
                    (All-unit rows)))));
        newest = Pairs-take _ limit _ (
            Pairs-drop _ offset _ (
              Pairs-map_to (λ a b. newest_first a b ≡ true) _ scan_notification _ scanned-newest
                (sort_by-IsSorted newest_first newest_first_total newest_first_trans kept)));
      })

  under_fault-IsPage :
      (f : Fault) (limit : ℕ) (offset : ℤ) (negative : Error) (w : World) (ns : List Notification)
      → (under_fault f
          (
            page negative limit offset (
                map scan_notification (
                  sort_by newest_first
                    (keep_if (list_filter tenant status channel from to) w.db.notifications))),
            w.db,
          )
          w).0
        ≡ ok ns
      → IsPage tenant status channel from to limit ns
  unfolding under_fault
  under_fault-IsPage taken limit offset negative w ns h =
      page-IsPage limit offset negative w.db.notifications ns h
  under_fault-IsPage (refused e) limit offset negative w ns h = cc
  under_fault-IsPage (lost e) limit offset negative w ns h = cc

-- If `List` returns, it returns at most `limit` notifications, all of the caller's tenant, with
-- the status and channel asked for where one is, created within the bounds asked for, to the
-- column's precision, and each no older than the ones behind it.
pub list_notifications-IsPage :
    (env : Env) (status channel : String) (from to : Option Time) (limit : ℕ) (offset : ℤ)
    (tenant : String) (w : World) (ns : List Notification)
    → (list_notifications env status channel from to limit offset tenant w).0 ≡ ok ns
    → IsPage
        (tenant_id tenant)
        status
        channel
        (map_time env.stored from)
        (map_time env.stored to)
        limit
        ns
unfolding list_notifications query exec
list_notifications-IsPage env status channel from to limit offset tenant w ns h =
    under_fault-IsPage (tenant_id tenant) status channel (map_time env.stored from)
      (map_time env.stored to) (env.fault w.tick) limit offset env.negative_offset
      (record w { tick = suc w.tick }) ns h
