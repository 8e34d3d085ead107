-- ===== src/Tests/SessionTests.antt =====
-- Tests of the lifecycle, the table of sessions and its locking.
use gg_proxy.Base.{◌≡◌, refl, some, []}
use gg_proxy.Base.Dict.{insert}
use gg_proxy.Domain.{is_legal_transition, queued, running, completed}
use gg_proxy.Domain.Lifecycle.{Reach, here, next}
use gg_proxy.Store.{patched, update_session_status}
use gg_proxy.Store.Locking.{CheckedWrite, update-CheckedWrite}
use gg_proxy.Manager.Locked.{
  update_status_locked, LockedWrite, update_status_locked-LockedWrite, update_status_locked_absorbs,
  locked,
}
use gg_proxy.Tests.Sample.{running_row, sessions, to_paused}

abbrev life : Reach queued completed
unfolding is_legal_transition
life = next {t = running} (next {t = queued} here refl) refl

update-CheckedWrite_example :
    CheckedWrite 7 to_paused 3 sessions (update_session_status 7 to_paused (some 3) sessions)
update-CheckedWrite_example = update-CheckedWrite 7 to_paused 3 sessions refl

update_status_locked-LockedWrite_example :
    LockedWrite 7 to_paused
      (λ t. [])
      sessions
      (update_status_locked 7 (some 1) to_paused (λ t. []) sessions)
update_status_locked-LockedWrite_example =
    update_status_locked-LockedWrite 7 to_paused refl (some 1) (λ t. []) sessions

update_status_locked_absorbs_example :
    update_status_locked 7 (some 1) to_paused (λ t. t) sessions
    ≡ (locked 4, insert 7 (patched to_paused 4 running_row) sessions)
update_status_locked_absorbs_example =
    update_status_locked_absorbs 7 to_paused (some 1) sessions running_row refl refl
