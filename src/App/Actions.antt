-- ===== src/App/Actions.antt =====
-- The effects that the handlers share: lib/ids.ts, lib/time.ts, lib/audit.ts, `billUsage` of
-- lib/budget.ts and the queue (all under worker/src).
pub mod Keeps
use entra_shift.Common.{ℕ, ◌+◌, ◌∷◌, Option, Text}
use entra_shift.Contracts.{Instant, JobDispatchMessage, AuditAction}
use entra_shift.Db.{Database}
use entra_shift.Db.Budget.{Usage}
use entra_shift.Db.AuditLog
use entra_shift.App.{World, App, gets, act, modify, ◌>>=◌}

-- `nowIso`.
abbrev pub now_iso : App Instant
now_iso = gets (λ w. w.now)

abbrev draw : World → World
draw w = record w { draws = w.draws + 1 }

-- `uuid`, and `opaqueToken`.
abbrev pub uuid : App Text
uuid = act (λ w. (w.runtime.uuid w.draws, draw w))

abbrev pub opaque_token : App Text
opaque_token = act (λ w. (w.runtime.token w.draws, draw w))

abbrev pub write : (Database → Database) → App (Unit {0})
write f = modify (λ w. record w { db = f w.db })

-- `billUsage`: the use is recorded after the response, by `Budget.settle`.
abbrev pub bill_usage : Usage → App (Unit {0})
bill_usage u = modify (λ w. record w { background = u ∷ w.background })

abbrev pub bill_writes : ℕ → App (Unit {0})
bill_writes n = bill_usage (record { workers = 0; d1_writes = n; queue_ops = 0 })

-- `JOB_QUEUE.send`.
abbrev pub send : JobDispatchMessage → App (Unit {0})
send m = modify (λ w. record w { queue = m ∷ w.queue })

-- `audit`: one entry, under a fresh id.
unfoldable pub audit : Text → AuditAction → Option Text → Option Text → App (Unit {0})
audit actor action target detail = do
  id ← uuid
  now ← now_iso
  write (λ db. record db {
    audit_log =
        AuditLog.insert
          (record {
            id = id;
            actor_upn = actor;
            action = action;
            target = target;
            detail = detail;
            created_at = now;
          })
          db.audit_log;
  })
