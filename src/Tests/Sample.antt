-- ===== src/Tests/Sample.antt =====
-- Rows, requests and managers that the tests share.
use gg_proxy.Base.{ℕ, true, Option, none, some, [], ◌∷◌}
use gg_proxy.Domain.{SessionState, running, paused}
use gg_proxy.Store.{Row, Sessions, Patch, no_patch, no_aggregates}
use gg_proxy.Hitl.{Coordinator, PendingEntry}
use gg_proxy.Hitl.Table.{HitlRow, HitlTable, pending, accept, deny}
use gg_proxy.Hitl.Route.{ResolveRequest, Desk, BatchRequest, approve}
use gg_proxy.Manager.State.{Config}
use gg_proxy.Manager.Submit.{Submission}

abbrev pub row_of : SessionState → Option ℕ → ℕ → Row
row_of status paused_at version = record {
  status = status;
  spec_json = "{}";
  tags = [];
  submitted_at = 5;
  trace_id = none;
  backend = "inprocess";
  owner = some "ada";
  description = none;
  parent_session_id = none;
  version = version;
  started_at = some 6;
  ended_at = none;
  end_reason = none;
  runtime_id = none;
  paused_at = paused_at;
  aggregates = no_aggregates;
}

abbrev pub running_row : Row
running_row = row_of running none 3

abbrev pub paused_row : Row
paused_row = row_of paused (some 9) 4

-- Session 7 runs, session 8 is paused.
abbrev pub sessions : Sessions
sessions = (7, running_row) ∷ (8, paused_row) ∷ []

abbrev pub to_paused : Patch
to_paused = record no_patch { status = some paused }

abbrev pub entry : PendingEntry
entry = record { tool = "Bash"; args = "{}"; future = none; session_id = 7 }

abbrev pub coordinator : Coordinator
coordinator = record { waiting = (1, entry) ∷ []; store = true }

abbrev pub idle_coordinator : Coordinator
idle_coordinator = record { waiting = []; store = true }

abbrev pub hitl_row : HitlRow
hitl_row = record {
  session_id = 7;
  tool = "Bash";
  args_json = "{}";
  status = pending;
  created_at = 5;
  resolved_at = none;
  reason = none;
  resolver = none;
  version = 0;
}

abbrev pub hitl_table : HitlTable
hitl_table = (1, hitl_row) ∷ []

abbrev pub accepts : ResolveRequest
accepts = record { decision = accept; reason = some "fine"; resolver = some "ada" }

abbrev pub denies : ResolveRequest
denies = record { decision = deny; reason = none; resolver = some "bob" }

abbrev pub desk : Desk
desk = record { coordinator = coordinator; table = hitl_table; audit = none }

-- Request 1 twice, and one that does not exist.
abbrev pub batch : BatchRequest
batch = record { ids = 1 ∷ 1 ∷ 2 ∷ []; action = approve; reason = none; label = some "ada" }

abbrev pub config : Config
config = record {
  max_concurrent = 1;
  default_timeout_s = 60;
  paused_timeout_s = 100;
  max_paused = 2;
  max_paused_per_api_key = 1;
  require_per_user_credentials = true;
}

abbrev pub submission : Submission
submission = record {
  spec_redacted = "{}";
  prompt_redacted = "hello";
  executor = "inprocess";
  tags = [];
  trace_id = "";
  credentials = ("ANTHROPIC_API_KEY", "key") ∷ [];
  api_key_id = some 3;
  owner = some "ada";
  actor_label = some "ada";
  actor_role = none;
  description = none;
  parent_session_id = none;
  extra_env = [];
}
