-- ===== src/Httpx/Context.antt =====
-- internal/httpx/context.go: the values under the package's keys. The logger is left out.
use insider_one.Prelude.{String, Option, none, some, str_eq, if◌then◌else◌}

pub record Context : Type 0 where
  pub request_id : Option String
  pub correlation_id : Option String
  pub tenant_id : Option String

-- `context.Background()`
abbrev pub background : Context
background = record { request_id = none; correlation_id = none; tenant_id = none }

unfoldable pub with_request_id : Context → String → Context
with_request_id ctx id = record ctx { request_id = some id }

unfoldable pub with_correlation_id : Context → String → Context
with_correlation_id ctx id = record ctx { correlation_id = some id }

unfoldable pub with_tenant_id : Context → String → Context
with_tenant_id ctx id = record ctx { tenant_id = some id }

abbrev text_or_empty : Option String → String
text_or_empty none = ""
text_or_empty (some s) = s

-- `RequestID`
unfoldable pub request_id_of : Context → String
request_id_of ctx = text_or_empty ctx.request_id

-- `CorrelationID`
unfoldable pub correlation_id_of : Context → String
correlation_id_of ctx = text_or_empty ctx.correlation_id

abbrev tenant_or_default : Option String → String
tenant_or_default none = "default"
tenant_or_default (some s) = if str_eq s "" then "default" else s

-- `TenantID`
unfoldable pub tenant_id_of : Context → String
tenant_id_of ctx = tenant_or_default ctx.tenant_id
