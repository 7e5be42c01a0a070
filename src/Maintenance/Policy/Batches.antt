-- ===== src/Maintenance/Policy/Batches.antt =====
-- How many batches a count of rows needs.
use native.Mathlib.Nat.{div-lt_iff_lt-mul, add-mul}
use zigbeelens.Common.{
  ℕ, ◌+◌, ◌-◌, ◌*◌, ◌≤◌, ◌<◌, ◌≡◌, ◌↔◌, ◌||◌, arith, ◌==◌, Bool-cases, inl, inr,
}
use zigbeelens.Maintenance.Policy.{batches_required}

-- The number of batches is the least number whose batches, of one row or more each, hold the rows.
pub batches_required_least :
    (eligible batch_size n : ℕ)
    → 0 < batch_size
    → (batches_required eligible batch_size ≤ n) ↔ (eligible ≤ n * batch_size)
unfolding batches_required
batches_required_least e b n positive =
    let galois = div-lt_iff_lt-mul {x = e + b - 1} {y = n + 1} positive in
    let next : (n + 1) * b ≡ n * b + b = omega (arith, add-mul n 1 b) in
    elim (Bool-cases ((e == 0) || (b == 0))) [
      | inl none ↦ rw none (λ _. ground (arith, none, positive), λ _. omega arith)
      | inr some ↦ rw some (
        λ h. omega (arith, galois.0 (omega (arith, h)), next, positive),
        λ h. omega (arith, galois.1 (omega (arith, h, next, positive))),
      )
    ]
