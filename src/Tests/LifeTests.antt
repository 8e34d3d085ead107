-- ===== src/Tests/LifeTests.antt =====
-- Tests of the ends of sessions, of retries and of the manager's shutdown.
use gg_proxy.Base.{◌≡◌, refl, true, false, none, some, [], ◌∷◌, arith}
use gg_proxy.Base.Dict.{lookup, contains}
use gg_proxy.Base.Set.{member}
use gg_proxy.Store.{Row, no_aggregates}
use gg_proxy.Manager.State.{Manager, Task, ok, err, session_not_found, shutting_down}
use gg_proxy.Manager.Submit.{submit, Credentials, UserStore}
use gg_proxy.Manager.Run.{completes, run_finish}
use gg_proxy.Manager.Run.Settle.{settled_row, run_finish-settled_row}
use gg_proxy.Manager.Pause.{Others, acked, pause, resume}
use gg_proxy.Manager.Pause.Failure.{
  PauseFailure, pause-PauseFailure, ResumeFailure, resume-ResumeFailure,
}
use gg_proxy.Manager.Frames.{EndFrame}
use gg_proxy.Manager.Retry.{Codec, Retrier, SpecJson, retry, retry_submission}
use gg_proxy.Manager.Retry.Identity.{retry_links}
use gg_proxy.Manager.Machine.{cancels, fires}
use gg_proxy.Manager.Shutdown.{shutdown, cancel_paused}
use gg_proxy.Manager.Shutdown.Closed.{IsClosed, shutdown-IsClosed}
use gg_proxy.Tests.Sample.{running_row, sessions, coordinator, config, submission}

-- Session 7 runs.
abbrev task : Task
task = record { acquired = true; cancelling = false }

abbrev busy : Manager
busy = record {
  config = config;
  accepting_new = true;
  semaphore = 0;
  running_tasks = (7, task) ∷ [];
  bridges = 7 ∷ [];
  api_key_by_session = (7, none) ∷ [];
  owner_by_session = (7, some "ada") ∷ [];
  paused_set = [];
  paused_at = [];
  paused_timers = [];
  paused_holds_slot = [];
  paused_by_key = [];
  session_states = [];
  metrics = (7, no_aggregates) ∷ [];
  store = sessions;
  audit = none;
  events = [];
  coordinator = coordinator;
  persists = true;
}

run_finish-settled_row_example :
    let m' = run_finish 7 completes 20 (λ db. db) task busy in
    (lookup 7 m'.store ≡ some (settled_row completes 20 no_aggregates running_row))
    × (contains 7 m'.running_tasks ≡ false)
    × (member 7 m'.bridges ≡ false)
    × (member 7 m'.paused_set ≡ false)
run_finish-settled_row_example =
    run_finish-settled_row 7 completes 20 task busy running_row no_aggregates refl refl (refl, tt)

-- The nested counts stand in for a count of 0.
abbrev frame : EndFrame
frame = record {
  input_tokens = some 0;
  output_tokens = some 30;
  turn_count = none;
  cost_usd = some 5;
  tokens = some (record {
    input_tokens = none;
    tokens_in = some 20;
    output_tokens = none;
    tokens_out = none;
    turn_count = some 2;
  });
}

abbrev codec : Codec
codec = record {
  decode = λ s. record {
    prompt = some "hello";
    has_plugins = true;
    executor = none;
    tags = [];
    extra_env = ("MODE", "fast") ∷ [];
  };
  redacted_spec = λ j. "{}";
  redacted_prompt = λ j. "hello";
}

abbrev bob : Retrier
bob = record { actor = some "bob"; actor_role = none }

abbrev users : UserStore
users = some (λ label. some (("ANTHROPIC_API_KEY", label) ∷ []))

abbrev key_of_bob : Credentials
key_of_bob = ("ANTHROPIC_API_KEY", "bob") ∷ []

retried : (retry codec 7 "7" bob 9 users 20 busy).0 ≡ ok key_of_bob
unfolding retry gg_proxy.Store.get_session gg_proxy.Manager.Retry.retry_found submit
    gg_proxy.Manager.Submit.credential_gate gg_proxy.Manager.Retry.retry_submission
    gg_proxy.Manager.Submit.credential_bundle_is_complete gg_proxy.Manager.Submit.not_blank
    gg_proxy.Store.create_session
retried = refl

abbrev host : Credentials
host = ("MODE", "slow") ∷ []

abbrev old_spec : SpecJson
old_spec = codec.decode running_row.spec_json

retry_links_example :
    let m' = (retry codec 7 "7" bob 9 users 20 busy).1 in
    (lookup 7 m'.store ≡ some running_row)
    × ((r : Row) × (lookup 9 m'.store ≡ some r)
        × (r.parent_session_id ≡ some 7)
        × (r.owner ≡ some "bob"))
retry_links_example =
    retry_links codec 7 "7" bob 9 users 20 busy key_of_bob running_row refl (λ e. grind arith)
      retried

shutdown-IsClosed_example :
    let m' = shutdown cancel_paused (fires 7 ∷ []) (cancels 7 "late" ∷ []) busy in
    IsClosed m' × (submit 9 submission none 30 m' ≡ (err shutting_down, m'))
shutdown-IsClosed_example =
    shutdown-IsClosed cancel_paused (fires 7 ∷ []) (cancels 7 "late" ∷ []) 9 submission none 30 busy
      refl

-- The row is deleted while the runner acknowledges.
abbrev gone : Others
gone db = []

pause-PauseFailure_example : PauseFailure 7 acked busy (pause 7 none acked 9 gone (λ db. db) busy).1
unfolding pause gg_proxy.Manager.Pause.pause_bridged gg_proxy.Manager.State.check_paused_caps
    gg_proxy.Store.get_session gg_proxy.Manager.Pause.pause_acked
    gg_proxy.Manager.Locked.update_status_locked gg_proxy.Store.update_session_status
pause-PauseFailure_example =
    pause-PauseFailure 7 none acked 9 gone (λ db. db) busy session_not_found refl

abbrev resting : Manager
resting = record busy { semaphore = 1; paused_set = 7 ∷ []; paused_holds_slot = 7 ∷ [] }

resume-ResumeFailure_example :
    ResumeFailure 7 acked resting (resume 7 none acked gone (λ db. db) resting).1
unfolding resume gg_proxy.Store.get_session gg_proxy.Manager.State.cancel_paused_timer
    gg_proxy.Manager.Pause.resume_with_slot gg_proxy.Manager.Pause.resume_acked
    gg_proxy.Manager.Locked.update_status_locked gg_proxy.Store.update_session_status
resume-ResumeFailure_example =
    resume-ResumeFailure 7 none acked gone (λ db. db) resting session_not_found refl
