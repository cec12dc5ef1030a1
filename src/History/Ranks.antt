-- ===== src/History/Ranks.antt =====
-- The ranks of the percentiles in runtime_history/src/store.cpp.
use embodied_agent_runtime.Common.{ℕ, zero, suc, ◌/◌, ◌%◌, ◌+◌, ◌*◌, ◌-◌, ◌^◌, ◌≤◌, ◌<◌, arith}
use embodied_agent_runtime.History.Tasks.{nearest_rank_offset}

times_below : (p c : ℕ) → p ≤ 100 → p * c ≤ 100 * c
times_below p zero h = omega arith
times_below p (suc c) h = omega (arith, times_below p c h)

times_above : (p c : ℕ) → 1 ≤ p → c ≤ p * c
times_above p zero h = omega arith
times_above p (suc c) h = omega (arith, times_above p c h)

-- The offset, where nothing wraps round, by the product alone.
offset_lem :
    (n m : ℕ)
    → 1 ≤ m
    → m ≤ 100 * n
    → n < 2 ^ 57
    → let offset = ((m + 99) % 2 ^ 64 / 100 + (2 ^ 64 - 1)) % 2 ^ 64 in
      (offset < n) × (m ≤ 100 * (offset + 1)) × (100 * offset < m)
offset_lem n m low high few = (omega arith, omega arith, omega arith)

-- Of `count` durations, fewer than 2 ^ 57 and at least one, in ascending order, the offset is that of the nearest rank:
-- it lies within them, at least `percent` in a hundred stand at or below it, and fewer stand below it.
pub nearest_rank_offset-rank :
    (count percent : ℕ)
    → 1 ≤ count
    → count < 2 ^ 57
    → 1 ≤ percent
    → percent ≤ 100
    → let offset = nearest_rank_offset count percent in
      (offset < count) × (percent * count ≤ 100 * (offset + 1)) × (100 * offset < percent * count)
unfolding nearest_rank_offset
nearest_rank_offset-rank count percent some_rows few low high =
    offset_lem count (percent * count) (omega (arith, times_above percent count low))
      (times_below percent count high) few
