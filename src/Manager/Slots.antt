-- ===== src/Manager/Slots.antt =====
-- The slots of the semaphore, seen apart from the rest of the manager, and what each handler does to
-- them.
pub mod Count
pub mod Moves
pub mod Balance
pub mod Steps
pub mod History
use gg_proxy.Base.{
  ℕ, suc, ◌+◌, ◌-◌, Bool, true, false, not, ◌&&◌, Option, none, some, List, [], ◌∷◌, if◌then◌else◌,
}
use gg_proxy.Base.Dict.{Dict, lookup, insert, erase}
use gg_proxy.Base.Set.{member, add, discard}
use gg_proxy.Manager.State.{Manager, Task, Config, cancel_task}

pub record View : Type 0 where
  pub limit : ℕ
  -- how many sessions may be paused
  pub cap : ℕ
  pub free : ℕ
  pub tasks : Dict Task
  pub bridged : List ℕ
  pub paused : List ℕ
  -- paused sessions whose slot went back to the semaphore
  pub lent : List ℕ

abbrev pub view : Manager → View
view m = record {
  limit = m.config.max_concurrent;
  cap = m.config.max_paused;
  free = m.semaphore;
  tasks = m.running_tasks;
  bridged = m.bridges;
  paused = m.paused_set;
  lent = m.paused_holds_slot;
}

abbrev pub new_task : Task
new_task = record { acquired = false; cancelling = false }

abbrev pub enroll : ℕ → View → View
enroll sid v = record v { tasks = insert sid new_task v.tasks }

abbrev pub admit : ℕ → Task → View → View
admit sid t v = record v {
  free = v.free - 1;
  tasks = insert sid (record t { acquired = true }) v.tasks;
}

abbrev pub connect : ℕ → View → View
connect sid v = record v { bridged = add sid v.bridged }

abbrev pub lend : ℕ → View → View
lend sid v = record v {
  free = if member sid v.lent then v.free else v.free + 1;
  paused = add sid v.paused;
  lent = if member sid v.lent then v.lent else add sid v.lent;
}

abbrev pub regain : ℕ → View → View
regain sid v = record v {
  free = v.free - 1;
  paused = discard sid v.paused;
  lent = discard sid v.lent;
}

abbrev pub finish : ℕ → Task → View → View
finish sid t v = record v {
  free = if t.acquired && not (member sid v.lent) then v.free + 1 else v.free;
  tasks = erase sid v.tasks;
  bridged = discard sid v.bridged;
  paused = discard sid v.paused;
  lent = discard sid v.lent;
}

-- A cancelled session is no longer among the paused, nor among those whose slot is lent.
abbrev pub drop : ℕ → View → View
drop sid v = record v {
  tasks = cancel_task sid v.tasks;
  paused = if member sid v.paused then discard sid v.paused else v.paused;
  lent = if member sid v.paused then discard sid v.lent else v.lent;
}
