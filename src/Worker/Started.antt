-- ===== src/Worker/Started.antt =====
-- internal/worker/manager.go, `Start`: which workers run.
use native.Mathlib.Numerals.{unary_clauses}
use insider_one.Prelude.{
  ℕ, zero, suc, ◌+◌, ◌*◌, ◌≤◌, ◌<◌, ◌≡◌, refl, sym, ap, ◌∙◌, ◌↔◌, ◌⊎◌, inl, inr, List, [], ◌∷◌,
  ◌++◌, arith, length, length-append,
}
use insider_one.Prelude.Int.{ℤ}
use insider_one.Domain.{Channel}
use insider_one.Worker.{
  Manager, Worker, with_all, with_concurrency, new, workers_from, workers_of, start,
}

-- The worker is one of the list.
abbrev pub Runs : Worker → List Worker → Type 0
Runs worker [] = ⊥
Runs worker (v ∷ vs) = (v ≡ worker) ⊎ Runs worker vs

abbrev pub IsIn : Channel → List Channel → Type 0
IsIn channel [] = ⊥
IsIn channel (c ∷ cs) = (c ≡ channel) ⊎ IsIn channel cs

Runs-append :
    (worker : Worker) (vs us : List Worker)
    → Runs worker (vs ++ us) ↔ (Runs worker vs ⊎ Runs worker us)
Runs-append worker [] us = ((λ h. inr h), (λ h. elim h [ inl x ↦ absurd x | inr x ↦ x ]))
Runs-append worker (v ∷ vs) us = ground (arith, Runs-append worker vs us)

same_or_behind : (a b : ℕ) → a ≤ b → (a ≡ b) ⊎ (suc a ≤ b)
same_or_behind a b h = omega (arith, h)

same_worker :
    (channel : Channel) (id : ℕ) (worker : Worker)
    → channel ≡ worker.channel
    → id ≡ worker.worker_id
    → Path Worker (record { channel = channel; worker_id = id }) worker
same_worker channel id worker c i = cc

Runs-from :
    (worker : Worker) (channel : Channel) (id rounds : ℕ)
    → Runs worker (workers_from channel id rounds)
      ↔ ((worker.channel ≡ channel) × (id ≤ worker.worker_id) × (worker.worker_id < id + rounds))
unfolding workers_from
Runs-from worker channel id zero = ((λ h. absurd h), (λ h. absurd (omega (arith, h.1, h.2))))
Runs-from worker channel id (suc rounds) =
    let behind = Runs-from worker channel (suc id) rounds in
    (
      (λ h. elim h [
        | inl e ↦
            let c : channel ≡ worker.channel = ap (λ v. v.channel) e in
            let i : id ≡ worker.worker_id = ap (λ v. v.worker_id) e in
            (sym c, omega (arith, i), omega (arith, i))
        | inr r ↦ let k = behind.0 r in (k.0, omega (arith, k.1), omega (arith, k.2))
      ]),
      (λ h. elim (same_or_behind id worker.worker_id h.1) [
        | inl i ↦ inl (same_worker channel id worker (sym h.0) i)
        | inr l ↦ inr (behind.1 (h.0, l, omega (arith, h.2)))
      ]),
    )

Runs-of :
    (worker : Worker) (concurrency : ℕ) (channels : List Channel)
    → Runs worker (workers_of concurrency channels)
      ↔ (IsIn worker.channel channels × (worker.worker_id < concurrency))
unfolding workers_of
Runs-of worker concurrency [] = ((λ h. absurd h), (λ h. absurd h.0))
Runs-of worker concurrency (channel ∷ channels) =
    let here = Runs-from worker channel 0 concurrency in
    let behind = Runs-of worker concurrency channels in
    let joined =
      Runs-append worker (workers_from channel 0 concurrency) (workers_of concurrency channels) in
    (
      (λ h. elim (joined.0 h) [
        | inl x ↦ (inl (sym (here.0 x).0), omega (arith, (here.0 x).2))
        | inr y ↦ (inr (behind.0 y).0, (behind.0 y).1)
      ]),
      (λ h. elim h.0 [
        | inl e ↦ joined.1 (inl (here.1 (sym e, omega arith, omega (arith, h.1))))
        | inr i ↦ joined.1 (inr (behind.1 (i, h.1)))
      ]),
    )

length-workers_from :
    (channel : Channel) (id rounds : ℕ) → length (workers_from channel id rounds) ≡ rounds
unfolding workers_from
length-workers_from channel id zero = refl
length-workers_from channel id (suc rounds) =
    omega (arith, length-workers_from channel (suc id) rounds)

length-workers_of :
    (concurrency : ℕ) (channels : List Channel)
    → length (workers_of concurrency channels) ≡ concurrency * length channels
unfolding workers_of
length-workers_of concurrency [] = omega arith
length-workers_of concurrency (channel ∷ channels) =
    let rest = length-workers_of concurrency channels in
    let front = length-workers_from channel 0 concurrency in
    let both =
      length-append (workers_from channel 0 concurrency) (workers_of concurrency channels) in
    both ∙ simp unary_clauses (omega (arith, rest, front))

-- The options keep the channels and a concurrency that is positive.
with_all-positive :
    (opts : List ℤ) (m : Manager)
    → 1 ≤ m.concurrency
    → ((with_all opts m).channels ≡ m.channels) × (1 ≤ (with_all opts m).concurrency)
unfolding with_concurrency
with_all-positive [] m h = (refl, h)
with_all-positive (o ∷ os) m h =
    let one : ((with_concurrency o m).channels ≡ m.channels)
        × (1 ≤ (with_concurrency o m).concurrency) =
      ground arith in
    let rest = with_all-positive os (with_concurrency o m) one.1 in (rest.0 ∙ one.0, rest.1)

new-positive :
    (opts : List ℤ)
    → ((new opts).channels ≡ "sms" ∷ "email" ∷ "push" ∷ []) × (1 ≤ (new opts).concurrency)
unfolding new
new-positive opts = with_all-positive opts _ (omega arith)

-- Whatever its options, a new manager starts three workers for each unit of its concurrency, which is
-- at least one: one for each of the channels sms, email and push and each number below the
-- concurrency, and no other.
pub start-Runs :
    (opts : List ℤ)
    → (1 ≤ (new opts).concurrency)
      × (length (start (new opts)) ≡ (new opts).concurrency * 3)
      × ((worker : Worker)
          → Runs worker (start (new opts)) ↔ (
              IsIn worker.channel ("sms" ∷ "email" ∷ "push" ∷ [])
              × (worker.worker_id < (new opts).concurrency)))
unfolding start
start-Runs opts =
    let m = new opts in
    rw (new-positive opts).0 (
      (new-positive opts).1,
      length-workers_of m.concurrency ("sms" ∷ "email" ∷ "push" ∷ []),
      (λ worker. Runs-of worker m.concurrency ("sms" ∷ "email" ∷ "push" ∷ [])),
    )
