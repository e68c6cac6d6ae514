-- ===== src/Scheduler.antt =====
-- recovery/scheduler.py: one turn of the recovery loop. The sleep between two turns is not modelled.
use remote_control_pjt.Prelude.{ℕ, String, if◌then◌else◌}
use remote_control_pjt.Result.{is_cancelled}
use remote_control_pjt.World.{Action, pure, raise, catch, ◌>>◌}
use remote_control_pjt.Hosts.Registry
use remote_control_pjt.JobManager.Config.{Config}
use remote_control_pjt.JobManager.Gates.{expire_approvals}
use remote_control_pjt.JobManager.Recover.{recover_due}

module _ (c : Config) where
  -- `new_session_id` is what a session created for a job draws.
  unfoldable pub tick : ℕ → (String → String) → Action (Unit {0})
  tick t new_session_id = do
    Registry.expire_stale c.local_host_id c.heartbeat_timeout t
    expire_approvals t
    recover_due c t new_session_id
    pure tt

  -- `_run`'s `try: await self.tick() except asyncio.CancelledError: raise except Exception:
  -- logger.exception(…)`
  unfoldable pub tick_logged : ℕ → (String → String) → Action (Unit {0})
  unfolding tick
  tick_logged t new_session_id =
      catch (tick t new_session_id) (λ x. if is_cancelled x then raise x else pure tt)
