-- ===== src/CpuData/Usage.antt =====
-- The usage that plugins/mod_cpu/cpu_data.c reports.
use syswatcher.Base.{ℕ, ◌≤◌, arith}
use syswatcher.CpuData.{Stat, sanity_check, usage}

-- Whatever is read, the usage is never above the whole.
pub usage_bounded :
    (s : Stat) (now total : ℕ) → (usage s now total).0.part ≤ (usage s now total).0.whole
unfolding usage sanity_check
usage_bounded s now total = ground arith
