-- ===== src/App/Answers/Pages.antt =====
-- internal/app/app.go, `handleListNotifications`: the pages that the server answers with.
use insider_one.Prelude.{ℕ, ◌≤◌, ◌<◌, String, ◌≡◌, ◌↔◌, true, Option, none, some, length}
use insider_one.Prelude.Int.{ℤ, pos}
use insider_one.Prelude.Parse.{atoi}
use insider_one.App.{App}
use insider_one.App.Responses.{Envelope, notifications}
use insider_one.Domain.{Time}
use insider_one.Httpx.Context.{Context}
use insider_one.Httpx.Message.{Response, Payload, encoded}
use insider_one.Repository.Read.Listing.{IsPage}
use insider_one.Repository.Schema.{tenant_id, map_time}
use insider_one.Runtime.{Env}
use insider_one.Runtime.Ends.{Ends}
use insider_one.Runtime.Returns.{Returns}
use insider_one.Service as Services

-- The limit is the number asked for where that is positive and at most the maximum, the maximum
-- where more is asked for, and 50 where nothing, no number or none that is positive is.
abbrev pub IsLimit : String → ℕ → ℕ → Type 0
IsLimit value max limit =
    (1 ≤ limit)
    × (limit ≤ max)
    × ((n : ℕ) → atoi value ≡ some (pos n) → 1 ≤ n → n ≤ max → limit ≡ n)
    × ((n : ℕ) → atoi value ≡ some (pos n) → max < n → limit ≡ max)
    × (((n : ℕ) → atoi value ≡ some (pos n) → n ≡ 0) → limit ≡ 50)

-- The offset is the number given, and 0 where none is.
abbrev pub IsOffset : String → ℤ → Type 0
IsOffset value offset =
    ((n : ℤ) → atoi value ≡ some n → offset ≡ n) × (atoi value ≡ none → offset ≡ pos 0)

-- A list of notifications in answer to a query: its limit and its offset are as `IsLimit` and `IsOffset` say, its notifications are a page of
-- at most so many of the tenant, as `IsPage` says, and its pagination tells their number and
-- whether the page is full. Nothing is said of another body.
abbrev pub IsListing :
    (tenant status channel : String) (from to : Option Time) (limit offset : String)
    → Payload Envelope
    → Type 0
IsListing tenant status channel from to limit offset (encoded (notifications items page meta)) =
    IsLimit limit 100 page.limit
    × IsOffset offset page.offset
    × IsPage tenant status channel from to page.limit items
    × (page.returned ≡ length items)
    × ((page.has_more ≡ true) ↔ (length items ≡ page.limit))
IsListing tenant status channel from to limit offset _ = Unit

module _ (env : Env) (status channel : String) (from to : Option Time) (value start : String) where
  -- The property of a response to a query of this tenant.
  abbrev Lists : String → Response Envelope → Type 0
  Lists tenant response =
      IsListing (tenant_id tenant) status channel (map_time env.stored from)
        (map_time env.stored to) value start response.payload
