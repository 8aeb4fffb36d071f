-- ===== src/Provider/Choice.antt =====
-- internal/provider/webhook.go: which sender a channel has.
use insider_one.Prelude.{
  ◌≡◌, refl, ◌≢◌, ◌⊎◌, inl, inr, ◌↔◌, String, true, none, some, List, arith, eq_iff,
}
use insider_one.Prelude.Text.{trim_space, lower_ascii, contains}
use insider_one.Provider.{
  Client, text_at, is_noop_endpoint, noop_endpoint, endpoint_for, new_sender, new_with_endpoints,
  sender_for, webhook, noop,
}

-- An endpoint that is not one yet, but for the space around it: nothing, `noop://accepted` in letters of either
-- case, or a text with one of the placeholders for an id.
abbrev pub IsPlaceholder : String → Type 0
IsPlaceholder endpoint =
    let e = trim_space endpoint in
    (e ≡ "")
    ⊎ (lower_ascii e ≡ "noop://accepted")
    ⊎ (contains e "replace-with-your-uuid" ≡ true)
    ⊎ (contains e "YOUR-UUID" ≡ true)
    ⊎ (contains e "YOUR-REAL-UUID" ≡ true)

-- The sender of a channel at an endpoint: the sandbox for a placeholder, else a webhook.
abbrev pub SendsTo : Client → (channel endpoint : String) → Type 0
SendsTo c channel endpoint =
    (IsPlaceholder endpoint → sender_for c channel ≡ some (noop channel))
    × ((IsPlaceholder endpoint → ⊥) → sender_for c channel ≡ some (webhook channel endpoint))

placeholder : (endpoint : String) → (is_noop_endpoint endpoint ≡ true) ↔ IsPlaceholder endpoint
unfolding is_noop_endpoint noop_endpoint
placeholder endpoint =
    let e = trim_space endpoint in
    (
      λ h. ground (arith, eq_iff e "", eq_iff (lower_ascii e) "noop://accepted"),
      λ h. ground (arith, eq_iff e "", eq_iff (lower_ascii e) "noop://accepted"),
    )

module _ (endpoints : List (String × String)) where
  chosen :
      (c : String)
      → (c ≡ "sms") ⊎ (c ≡ "email") ⊎ (c ≡ "push")
      → sender_for (new_with_endpoints endpoints) c ≡ some (new_sender c (endpoint_for endpoints c))
  unfolding new_with_endpoints sender_for
  chosen c (inl e) = rw e refl
  chosen c (inr (inl e)) = rw e refl
  chosen c (inr (inr e)) = rw e refl

  other :
      (c : String)
      → c ≢ "sms"
      → c ≢ "email"
      → c ≢ "push"
      → sender_for (new_with_endpoints endpoints) c ≡ none
  unfolding new_with_endpoints sender_for
  other c h k l = ground (arith, eq_iff "sms" c, eq_iff "email" c, eq_iff "push" c)

  at_endpoint :
      (c endpoint : String)
      → (c ≡ "sms") ⊎ (c ≡ "email") ⊎ (c ≡ "push")
      → endpoint_for endpoints c ≡ endpoint
      → SendsTo (new_with_endpoints endpoints) c endpoint
  unfolding new_sender
  at_endpoint c endpoint known same =
      let all = chosen c known in
      let iff = placeholder endpoint in (λ h. let p = iff.1 h in ground arith, λ h. ground arith)

  -- A client made from endpoints has a sender for sms, email and push, and for no other channel. It
  -- sends to the channel's own endpoint where that is not empty, and else to the one under "default",
  -- or to nothing where that is missing: by the sandbox where this endpoint is blank, `noop://accepted` or has
  -- one of the placeholders, and else by a webhook.
  pub sender_for-new_with_endpoints :
      (channel : String)
      → let own = text_at channel endpoints in
        let client = new_with_endpoints endpoints in
        ((channel ≡ "sms") ⊎ (channel ≡ "email") ⊎ (channel ≡ "push")
          → (own ≢ "" → SendsTo client channel own)
            × (own ≡ "" → SendsTo client channel (text_at "default" endpoints)))
        × (channel ≢ "sms"
            → channel ≢ "email"
            → channel ≢ "push"
            → sender_for client channel ≡ none)
  unfolding endpoint_for
  sender_for-new_with_endpoints channel = (
    λ known. (
      λ h. at_endpoint channel _ known (ground (arith, eq_iff (text_at channel endpoints) "")),
      λ h. at_endpoint channel _ known (ground (arith, eq_iff (text_at channel endpoints) "")),
    ),
    other channel,
  )
