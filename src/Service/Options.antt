-- ===== src/Service/Options.antt =====
-- internal/service/service.go: the limits of a service that is made with options.
use insider_one.Prelude.{◌<◌, List, [], ◌∷◌, arith}
use insider_one.Provider.{Client}
use insider_one.Service.{
  Service, ServiceOption, claim_limit, rate_limit, with_option, with_options, new,
}

-- Both limits are positive.
pub record HasLimits (s : Service) : Type 0 where
  pub claim : 0 < s.claim_limit
  pub rate : 0 < s.rate_limit

with_option-HasLimits :
    (o : ServiceOption) (s : Service) → HasLimits s → HasLimits (with_option o s)
unfolding with_option
with_option-HasLimits (claim_limit limit) s h = record { claim = ground arith; rate = ground arith }
with_option-HasLimits (rate_limit limit) s h = record { claim = ground arith; rate = ground arith }

with_options-HasLimits :
    (os : List ServiceOption) (s : Service) → HasLimits s → HasLimits (with_options os s)
with_options-HasLimits [] s h = h
with_options-HasLimits (o ∷ os) s h =
    with_options-HasLimits os (with_option o s) (with_option-HasLimits o s h)

-- Whatever options a service is made with, negative and zero limits among them, it claims at least
-- one notification at a time and has at least one slot in each second.
pub new-HasLimits : (provider : Client) (os : List ServiceOption) → HasLimits (new provider os)
unfolding new
new-HasLimits provider os =
    with_options-HasLimits os _ (record { claim = omega arith; rate = omega arith })
