-- ===== src/Metrics/Counters.antt =====
-- internal/observability/metrics.go: the program's own maps and the exported instruments.
use mathlib.Core.Path.{subst}
use insider_one.Prelude.{
  ℕ, ◌+◌, ◌≡◌, sym, ap, ◌∙◌, inl, inr, true, Option, none, some, List, [], ◌∷◌, arith, str_eq,
  eq_iff, ◌==◌, ==_iff, Bool-cases, false, if◌then◌else◌,
}
use insider_one.Prelude.Int.{ℤ, pos, sub_ℕ, ◌+ℤ◌}
use insider_one.Domain.{Channel, Duration}
use insider_one.Metrics.{Metrics, update, add_ℤ, add_one, set_queue_depth, inc_success, inc_failure}

-- The UpDownCounter of a channel, if there is one, stands at the depth.
abbrev DepthAgrees : Option (Channel → ℤ) → Channel → ℕ → Type 0
DepthAgrees none c depth = Unit
DepthAgrees (some total) c depth = total c ≡ pos depth

abbrev CountAgrees : Option (Channel → ℕ) → Channel → ℕ → Type 0
CountAgrees none c count = Unit
CountAgrees (some total) c count = total c ≡ count

-- What the instruments report of a channel is what the maps hold, and each latency in the average
-- is that of one success or one failure.
abbrev pub IsConsistent : Metrics → Channel → Type 0
IsConsistent m c =
    DepthAgrees m.queue_depth_ctr c (m.queue_depth c)
    × CountAgrees m.success_ctr c (m.success_count c)
    × CountAgrees m.failure_ctr c (m.failure_count c)
    × (m.latency_count c ≡ m.success_count c + m.failure_count c)

-- The operations on the metrics.
pub data MetricsOp : Type 0 where
  set_depth : Channel → ℕ → MetricsOp
  success failure : Channel → Duration → MetricsOp

unfoldable pub apply : MetricsOp → Metrics → Metrics
apply (set_depth channel depth) m = set_queue_depth channel depth m
apply (success channel latency) m = inc_success channel latency m
apply (failure channel latency) m = inc_failure channel latency m

-- The two cases of a look-up after an assignment.
at_key {ℓ} :
    {V : Type ℓ} (m : Channel → V) (key c : Channel) (v : V)
    → str_eq key c ≡ true
    → update m key v c ≡ v
at_key m key c v e = ap (λ b. if b then v else m c) e

off_key {ℓ} :
    {V : Type ℓ} (m : Channel → V) (key c : Channel) (v : V)
    → str_eq key c ≡ false
    → update m key v c ≡ m c
off_key m key c v e = ap (λ b. if b then v else m c) e

module _ (depths : Channel → ℕ) (channel : Channel) (depth : ℕ) where
  moved :
      (total : Channel → ℤ)
      → total channel ≡ pos (depths channel)
      → total channel +ℤ sub_ℕ depth (depths channel) ≡ pos depth
  unfolding ◌+ℤ◌
  moved total h = rw h (ground arith)

  added :
      (total : Channel → ℤ) (c : Channel)
      → total c ≡ pos (depths c)
      → update total channel (total channel +ℤ sub_ℕ depth (depths channel)) c
        ≡ pos (update depths channel depth c)
  added total c h = elim (Bool-cases (str_eq channel c)) [
    | inl e ↦
        let p = sym ((eq_iff channel c).0 e) in
        at_key total channel c _ e
        ∙ moved total (subst (λ x. total x ≡ pos (depths x)) p h)
        ∙ ap pos (sym (at_key depths channel c depth e))
    | inr e ↦ off_key total channel c _ e ∙ h ∙ ap pos (sym (off_key depths channel c depth e))
  ]

  kept :
      (total : Channel → ℤ) (c : Channel)
      → (depth == depths channel) ≡ true
      → total c ≡ pos (depths c)
      → total c ≡ pos (update depths channel depth c)
  kept total c same h = elim (Bool-cases (str_eq channel c)) [
    | inl e ↦
        let p = sym ((eq_iff channel c).0 e) in
        h
        ∙ ap (λ x. pos (depths x)) p
        ∙ ap pos
            (sym ((==_iff depth (depths channel)).0 same) ∙ sym (at_key depths channel c depth e))
    | inr e ↦ h ∙ ap pos (sym (off_key depths channel c depth e))
  ]

  depth_agrees :
      (ctr : Option (Channel → ℤ)) (c : Channel)
      → DepthAgrees ctr c (depths c)
      → DepthAgrees
          (if depth == depths channel
            then ctr
            else add_ℤ ctr channel (sub_ℕ depth (depths channel)))
          c
          (update depths channel depth c)
  depth_agrees ctr c h = elim (Bool-cases (depth == depths channel)) [
    | inl e ↦ rw e (same ctr e h)
    | inr e ↦ rw e (other ctr h)
  ]
    where
      same :
          (ctr : Option (Channel → ℤ))
          → (depth == depths channel) ≡ true
          → DepthAgrees ctr c (depths c)
          → DepthAgrees ctr c (update depths channel depth c)
      same none e h = tt
      same (some total) e h = kept total c e h

      other :
          (ctr : Option (Channel → ℤ))
          → DepthAgrees ctr c (depths c)
          → DepthAgrees
              (add_ℤ ctr channel (sub_ℕ depth (depths channel)))
              c
              (update depths channel depth c)
      other none h = tt
      other (some total) h = added total c h

-- Maps that agree at a key agree there after both are counted up at one key.
one_more :
    (f g : Channel → ℕ) (channel c : Channel)
    → f c ≡ g c
    → update f channel (f channel + 1) c ≡ update g channel (g channel + 1) c
one_more f g channel c h = elim (Bool-cases (str_eq channel c)) [
  | inl e ↦
      let p = sym ((eq_iff channel c).0 e) in
      at_key f channel c _ e
      ∙ ap (λ n. n + 1) (subst (λ x. f x ≡ g x) p h)
      ∙ sym (at_key g channel c _ e)
  | inr e ↦ off_key f channel c _ e ∙ h ∙ sym (off_key g channel c _ e)
]

add_comm : (a b : ℕ) → a + b ≡ b + a
add_comm a b = omega arith

-- The total of two counts goes up with one of them.
one_more_of :
    (f g k : Channel → ℕ) (channel c : Channel)
    → f c ≡ g c + k c
    → update f channel (f channel + 1) c ≡ update g channel (g channel + 1) c + k c
one_more_of f g k channel c h = elim (Bool-cases (str_eq channel c)) [
  | inl e ↦
      let p = sym ((eq_iff channel c).0 e) in
      let q : f channel ≡ g channel + k c = ap f (sym p) ∙ h ∙ ap (λ x. g x + k c) p in
      at_key f channel c _ e
      ∙ (let r : f channel + 1 ≡ g channel + 1 + k c = omega arith in r)
      ∙ ap (λ n. n + k c) (sym (at_key g channel c _ e))
  | inr e ↦ off_key f channel c _ e ∙ h ∙ ap (λ n. n + k c) (sym (off_key g channel c _ e))
]

count_agrees :
    (ctr : Option (Channel → ℕ)) (counts : Channel → ℕ) (channel c : Channel)
    → CountAgrees ctr c (counts c)
    → CountAgrees (add_one ctr channel) c (update counts channel (counts channel + 1) c)
count_agrees none counts channel c h = tt
count_agrees (some total) counts channel c h = one_more total counts channel c h

apply-IsConsistent :
    (op : MetricsOp) (m : Metrics) (c : Channel) → IsConsistent m c → IsConsistent (apply op m) c
unfolding apply set_queue_depth inc_success inc_failure
apply-IsConsistent (set_depth channel depth) m c (d, s, f, l) =
    (depth_agrees m.queue_depth channel depth m.queue_depth_ctr c d, s, f, l)
apply-IsConsistent (success channel latency) m c (d, s, f, l) = (
  d,
  count_agrees m.success_ctr m.success_count channel c s,
  f,
  one_more_of m.latency_count m.success_count m.failure_count channel c l,
)
apply-IsConsistent (failure channel latency) m c (d, s, f, l) =
    (d, s, count_agrees m.failure_ctr m.failure_count channel c f, swapped)
  where
    swapped :
        update m.latency_count channel (m.latency_count channel + 1) c
        ≡ m.success_count c + update m.failure_count channel (m.failure_count channel + 1) c
    swapped = l' (
        one_more_of m.latency_count m.failure_count m.success_count channel c
          (l ∙ add_comm (m.success_count c) (m.failure_count c)))
      where
        l' :
            update m.latency_count channel (m.latency_count channel + 1) c
              ≡ update m.failure_count channel (m.failure_count channel + 1) c + m.success_count c
            → update m.latency_count channel (m.latency_count channel + 1) c
              ≡ m.success_count c + update m.failure_count channel (m.failure_count channel + 1) c
        l' q =
            q
            ∙ add_comm (update m.failure_count channel (m.failure_count channel + 1) c)
                (m.success_count c)

unfoldable pub apply_all : List MetricsOp → Metrics → Metrics
apply_all [] m = m
apply_all (op ∷ ops) m = apply_all ops (apply op m)

-- From metrics that are consistent for a channel, any updates in any order leave them consistent:
-- where a queue-depth, success or failure counter exists, it reports of the channel what the
-- program's own map holds, and the latencies counted are the successes and failures together.
pub apply_all-IsConsistent :
    (ops : List MetricsOp) (m : Metrics) (c : Channel)
    → IsConsistent m c
    → IsConsistent (apply_all ops m) c
unfolding apply_all
apply_all-IsConsistent [] m c h = h
apply_all-IsConsistent (op ∷ ops) m c h =
    apply_all-IsConsistent ops (apply op m) c (apply-IsConsistent op m c h)
