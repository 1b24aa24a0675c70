-- ===== src/Deploy/Compose/Waiting.antt =====
-- src/services/deploy/docker_compose.rs: the wait for a healthy canary comes to an end.
use xjp_deploy_agent.Prelude.{
  ltb, Bool-cases, nat_eq, string_eq, ℕ, zero, suc, ◌+◌, ◌*◌, ◌/◌, ◌≤◌, ◌<◌, ◌≡◌, refl, ◌⊎◌, inl,
  inr, some, arith,
}
use xjp_deploy_agent.Deploy.Compose.Canary.{
  CanaryRun, Check, fails, Verdict, ends, waits, verdict, interval_128, interval, wait_rounds,
}

Verdict-cases : (v : Verdict) → (v ≡ waits) ⊎ ((check : Check) × (v ≡ ends check))
Verdict-cases waits = inl refl
Verdict-cases (ends check) = inr (check, refl)

le-interval_128 : (n : ℕ) → 12800 ≤ interval_128 n
unfolding interval_128
le-interval_128 zero = omega arith
le-interval_128 (suc n) = ground (arith, le-interval_128 n)

le-interval : (n : ℕ) → 100 ≤ interval n
unfolding interval
le-interval n = omega (arith, le-interval_128 n)

interval_128-le : (n : ℕ) → interval_128 n ≤ 256000
unfolding interval_128
interval_128-le zero = omega arith
interval_128-le (suc n) = ground (arith, interval_128-le n)

pub interval-le : (n : ℕ) → interval n ≤ 2000
unfolding interval
interval-le n = omega (arith, interval_128-le n)

-- The clock shows after each round at least the pause that the round makes.
abbrev pub Pauses : CanaryRun → Type 0
Pauses c = (n : ℕ) → c.elapsed n + interval n ≤ c.elapsed (suc n)

wait_rounds-ends :
    (c : CanaryRun) (fuel n : ℕ)
    → Pauses c
    → 60000 < c.elapsed n + 100 * fuel
    → (r : Check) × (wait_rounds (suc fuel) n c ≡ some r)
unfolding wait_rounds
wait_rounds-ends c zero n p late = (fails "Timeout", ground (arith, late))
wait_rounds-ends c (suc fuel) n p late =
    let (r, e) = wait_rounds-ends c fuel (suc n) p (omega (arith, late, p n, le-interval n)) in
    elim (Bool-cases (ltb 60000 (c.elapsed n))) [
      | inl over ↦ (fails "Timeout", ground (arith, over))
      | inr within ↦ elim (Verdict-cases (verdict c.health_logs (c.checked n / 1000) (c.polls n))) [
        | inl v ↦ (r, ground (arith, within, v, e))
        | inr (check, v) ↦ (check, ground (arith, within, v))
      ]
    ]

-- Whatever docker says, the wait for the canary ends within 602 rounds, when the clock shows after each
-- round at least its pause.
pub wait_rounds_lem : (c : CanaryRun) → Pauses c → (r : Check) × (wait_rounds 602 0 c ≡ some r)
wait_rounds_lem c p = wait_rounds-ends c 601 0 p (omega arith)
