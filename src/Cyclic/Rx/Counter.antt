-- ===== src/Cyclic/Rx/Counter.antt =====
-- src/cyclic.rs, `track_cycle_counter`: how a received counter is read, across the 16-bit wrap.
use profinet_rs.Prelude.{
  ℕ, zero, suc, ◌+◌, ◌-◌, ◌*◌, ◌/◌, ◌%◌, ◌<◌, ◌≤◌, ◌≡◌, ap, arith, ◌==◌, if◌then◌else◌,
}
use native.Mathlib.Nat.{mul-div_cancel}
use profinet_rs.Cyclic.Rx.{expected, backwards, gap, classify_counter}

forward_gap :
    (step prev d k : ℕ)
    → 0 < step
    → prev < 65536
    → d / step ≡ k
    → 2 * step ≤ d
    → d ≤ 0x8000
    → 1 < k
    → classify_counter step prev ((prev + d) % 65536) ≡ (if k == 1 then expected else gap (k - 1))
unfolding classify_counter
forward_gap step prev d k s p e far h big =
    let forward : ((prev + d) % 65536 + 65536 - prev) % 65536 ≡ d = omega arith in
    ground (arith, ap (λ (t : ℕ). t / step) forward)

-- A counter that has gone on by `k` steps, not more than half the range, is the expected one for
-- `k` = 1, and otherwise a gap of `k - 1` frames, also where the counter wrapped.
pub classify_counter_forward :
    (step prev k : ℕ)
    → 0 < step
    → prev < 65536
    → 0 < k
    → k * step ≤ 0x8000
    → classify_counter step prev ((prev + k * step) % 65536)
      ≡ (if k == 1 then expected else gap (k - 1))
unfolding classify_counter
classify_counter_forward step prev zero s p q h = absurd (omega arith)
classify_counter_forward step prev (suc zero) s p q h = ground arith
classify_counter_forward step prev (suc (suc j)) s p q h =
    let d : ℕ = suc (suc j) * step in
    let quotient : suc (suc j) * step / step ≡ suc (suc j) = mul-div_cancel (suc (suc j)) s in
    let far : 2 * step ≤ suc (suc j) * step = grind arith in
    forward_gap step prev d (suc (suc j)) s p quotient far h (omega arith)

-- A counter that has gone back by less than half the range is out of order, if the step is at most
-- half the range.
pub classify_counter_backward :
    (step prev d : ℕ)
    → step ≤ 0x8000
    → prev < 65536
    → 0 < d
    → d < 0x8000
    → classify_counter step prev ((prev + 65536 - d) % 65536) ≡ backwards
unfolding classify_counter
classify_counter_backward step prev d s p q h = ground arith
