-- ===== src/Tests/EventTests.antt =====
-- Tests of the bus and of the alerts.
use gg_proxy.Base.{
  ◌++◌, ℕ, ◌+◌, ◌≡◌, refl, ◌⊎◌, true, false, none, some, List, [], ◌∷◌, ◌++◌, arith, ◌==◌,
  if◌then◌else◌,
}
use gg_proxy.Core.Bus.{Sub, Event, Wait, Bus, wildcard, publish, lossy, durable, fine, drop_error}
use gg_proxy.Core.Bus.Queue.{
  Step, puts, takes, waits_in_vain, run, all_put, Drops, IsBounded, run-Drops,
}
use gg_proxy.Core.Bus.Publish.{durable_stored_first, publish_reaches, append_to_all, subscribers}
use gg_proxy.Core.Durable.{Rows, max_seq, fetch_after}
use gg_proxy.Core.Durable.Replay.{persist_all, fetch_after-persist_all}
use gg_proxy.Alerts.{Router, Alert, key_of, Im, Card, dispatch, init}
use gg_proxy.Alerts.Cooldown.{run as run_alerts, alert_spacing}

abbrev queue : Sub ℕ
queue = record { maxsize = 2; items = []; closed_flag = false; dropped = 0; durable_dropped = 0 }

abbrev steps : List (Step ℕ)
steps = puts 1 ∷ puts 2 ∷ waits_in_vain ∷ puts 3 ∷ takes ∷ []

run-Drops_example :
    (n : ℕ) × ((run queue steps).1.dropped ≡ 0 + n)
    × Drops n ((run queue steps).0 ++ (run queue steps).1.items) (queue.items ++ all_put steps)
    × IsBounded (run queue steps).1
run-Drops_example = run-Drops queue steps (omega arith, omega arith)

abbrev bus : Bus ℕ
bus = record {
  subs = (5, queue ∷ []) ∷ (wildcard, queue ∷ []) ∷ [];
  closed = false;
  durable_block_timeout = 1;
  durable_store = some (9 ∷ []);
  strict_durable = false;
}

abbrev durable_event : Event ℕ
durable_event = record { topic = 5; tier = durable; body = 4 }

abbrev lossy_event : Event ℕ
lossy_event = record { topic = 5; tier = lossy; body = 4 }

abbrev no_wait : Wait ℕ
no_wait s = none

durable_stored_first_example :
    (publish true no_wait durable_event bus ≡ (drop_error, bus))
    ⊎ ((publish true no_wait durable_event bus).1.durable_store ≡ some (9 ∷ 4 ∷ []))
durable_stored_first_example =
    durable_stored_first true no_wait durable_event bus (9 ∷ []) refl refl refl

publish_reaches_example :
    ((publish true no_wait lossy_event bus).0 ≡ fine)
    × ((t : ℕ)
        → subscribers t (publish true no_wait lossy_event bus).1 ≡ (
            if t == wildcard
            then append_to_all 4 (subscribers wildcard bus)
            else if t == 5
            then append_to_all 4 (subscribers 5 bus)
            else subscribers t bus))
publish_reaches_example =
    publish_reaches true no_wait lossy_event bus refl refl (λ e. grind arith) (refl, tt) (refl, tt)

abbrev im : Im
im = record {
  build = λ k mention. some (record { channel_id = none; mention = mention });
  send = λ card. true;
}

abbrev router : Router
router = init [] [] (some im) none 300

abbrev failure : Alert
failure = record {
  event_type = "session_failed";
  owner = some "ada";
  tags = [];
  end_reason = "http:502";
}

abbrev other_failure : Alert
other_failure = record failure { owner = some "bob" }

alert_spacing_example :
    (dispatch
      (record failure { tags = "again" ∷ [] })
      400
      (run_alerts ((other_failure, 200) ∷ []) (dispatch failure 110 router).1)).0
    ≡ false
unfolding init dispatch gg_proxy.Alerts.matches gg_proxy.Alerts.cooldown_check
    gg_proxy.Alerts.last_of gg_proxy.Alerts.deliver
alert_spacing_example =
    alert_spacing failure (record failure { tags = "again" ∷ [] }) 110 400 router
      ((other_failure, 200) ∷ []) refl refl refl refl (refl, tt) (omega arith) (omega arith)
      (omega arith)

abbrev rows : Rows ℕ
rows = (1, 10) ∷ (2, 20) ∷ []

fetch_after-persist_all_example :
    fetch_after (max_seq rows) 2 (persist_all (30 ∷ 40 ∷ 50 ∷ []) rows) ≡ 30 ∷ 40 ∷ []
fetch_after-persist_all_example = fetch_after-persist_all rows (30 ∷ 40 ∷ 50 ∷ []) 2
