-- ===== src/Hub/Throws.antt =====
-- When a write of a record by packages/cyberlegion/src/store/file-store.ts throws.
use cyberlegion.Prelude.{true, ◌≡◌, arith}
use cyberlegion.Exec.Throws.{Total, Frozen}
use cyberlegion.Hub.Types.{AgentRecord}
use cyberlegion.Hub.SafeId.{is_safe_id}
use cyberlegion.Hub.{put_agent}

pub put_agent-Frozen : (r : AgentRecord) → Frozen (put_agent r)
unfolding put_agent
put_agent-Frozen r = record { frozen = λ s t e run. ground (arith, run) }

pub put_agent-Total : (r : AgentRecord) → is_safe_id r.id ≡ true → Total (put_agent r)
unfolding put_agent
put_agent-Total r k = record { total = λ s t e run. ground (arith, run, k) }
