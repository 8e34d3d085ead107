-- ===== src/Tests/UpkeepTests.antt =====
-- Tests of the retention of old rows, of redaction, and of stored credentials.
use gg_proxy.Base.{
  String, ◌≡◌, refl, ℕ, ◌+◌, ◌*◌, false, none, some, List, [], ◌∷◌, arith, text_lookup,
}
use gg_proxy.Hitl.Table.{HitlRow, accept, pending, decided}
use gg_proxy.Store.AuditLog.{LogRow}
use gg_proxy.Retention.{
  EventRow, Engine, RetentionOptions, Choices, RetentionResult, run_retention, finished, day,
  event_key, entry_key, request_key,
}
use gg_proxy.Retention.Kept.{pruned, size, first_rows, first_rows-IsLimit, run_retention-pruned}
use gg_proxy.Redaction.{
  named, str, scalar, mapping, listed, no_items, item, Fields, no_fields, field, RedactionEngine,
  new_engine, redact_frame, default_sensitive_keys,
}
use gg_proxy.Redaction.Secrets.{
  AlikeFields, both_scalars, both_mappings, both_lists, at_end, in_step, no_more, secret, shown,
  redact_frame-AlikeFields,
}
use gg_proxy.Credentials.{Caller, down, Fernet, CredentialUpsert, get_for_user}
use gg_proxy.Credentials.Served.{Request, puts_mine, deletes_mine, puts_of, deletes_of, with_rows}
use gg_proxy.Credentials.Story.{serve_all, last_word, get_for_user-last_word}

abbrev event : ℕ → ℕ → EventRow
event id days = record {
  event_id = id;
  ts = days * day;
  kind = "session.started";
  session_id = none;
  payload = "{}";
  delivery_tier = "disk";
  seq = id;
}

abbrev entry : ℕ → ℕ → LogRow
entry id days = record {
  id = id;
  ts = days * day;
  actor = "ada";
  action = "session.create";
  target_type = none;
  target_id = none;
  metadata_json = none;
  request_id = none;
}

abbrev waiting : HitlRow
waiting = record {
  session_id = 1;
  tool = "Bash";
  args_json = "{}";
  status = pending;
  created_at = 0;
  resolved_at = none;
  reason = none;
  resolver = none;
  version = 0;
}

abbrev engine : Engine
engine = record {
  events = event 1 50 ∷ event 2 60 ∷ event 3 69 ∷ event 4 99 ∷ [];
  audit_log = entry 1 5 ∷ entry 2 60 ∷ [];
  hitl_requests =
      (1, waiting)
      ∷ (2, record waiting { status = decided accept; resolved_at = some (3 * day) })
      ∷ [];
}

abbrev choices : Choices
choices = record {
  events = first_rows event_key;
  audit_log = first_rows entry_key;
  hitl_requests = first_rows request_key;
}

abbrev limits : RetentionOptions
limits = record {
  events_days = 30;
  audit_log_days = 90;
  hitl_resolved_days = 30;
  batch_size = 2;
  dry_run = false;
}

run_retention-pruned_example :
    (result : RetentionResult) × ((run_retention choices false 5 limits (100 * day) engine
        ≡ finished result (pruned limits (100 * day) engine))
      × (size (pruned limits (100 * day) engine) + result.total_deleted ≡ size engine))
run_retention-pruned_example =
    run_retention-pruned choices false 5 limits (100 * day) engine refl (omega arith) (omega arith)
      (omega arith) (omega arith) (first_rows-IsLimit event_key) (first_rows-IsLimit entry_key)
      (first_rows-IsLimit request_key)
      ((refl, (refl, (refl, tt))), ((refl, (refl, tt)), ((refl, tt), (tt, tt))))
      ((refl, tt), (tt, tt)) ((refl, tt), (tt, tt)) (omega arith) (omega arith) (omega arith)

kept_events : (pruned limits (100 * day) engine).events ≡ event 4 99 ∷ []
kept_events = refl

abbrev masking : RedactionEngine
masking = new_engine [] (λ s. s) default_sensitive_keys

abbrev login : String → Fields
login password = field (named "user") (scalar 1) (field (named "password") (str password) no_fields)

abbrev frame : String → Fields
frame password =
    field (named "attempts") (listed (item (mapping (login password)) (item (scalar 2) no_items)))
      no_fields

redact_frame-AlikeFields_example :
    redact_frame masking (frame "hunter2") ≡ redact_frame masking (frame "12345")
unfolding new_engine
redact_frame-AlikeFields_example =
    redact_frame-AlikeFields masking (frame "hunter2") (frame "12345") (
      shown (named "attempts") _ _ no_fields no_fields
        (both_lists _ _ (
          in_step _ _ _ _ (both_mappings (login "hunter2") (login "12345") logins)
            (in_step _ _ _ _ (both_scalars 2) at_end)))
        no_more)
  where
    logins : AlikeFields masking (login "hunter2") (login "12345")
    logins =
        shown (named "user") _ _ _ _ (both_scalars 1)
          (secret (named "password") _ _ no_fields no_fields refl no_more)

abbrev plain : Fernet
plain = record { encrypt = λ iv value. value; decrypt = λ sealed. some sealed }

abbrev user : Caller
user = record { label = some "ada"; role = "submitter" }

abbrev root : Caller
root = record { label = some "root"; role = "admin" }

abbrev of_value : String → CredentialUpsert
of_value value = record { value = value; notes = none }

abbrev requests : List Request
requests =
    puts_mine user "ANTHROPIC_API_KEY" (of_value "sk-1") 1 10
    ∷ puts_mine user "LD_PRELOAD" (of_value "evil.so") 2 11
    ∷ puts_of root "ada" "ANTHROPIC_API_KEY" (of_value "sk-2") 3 12
    ∷ puts_of user "root" "ANTHROPIC_API_KEY" (of_value "sk-3") 4 13
    ∷ deletes_of root "bob" "ANTHROPIC_API_KEY"
    ∷ deletes_mine user "AWS_REGION"
    ∷ []

get_for_user-last_word_example :
    text_lookup "ANTHROPIC_API_KEY" (
      get_for_user "ada"
        (serve_all requests
          (record { store = with_rows plain "fp" []; audit = down; log = [] })).store)
    ≡ last_word "ada" "ANTHROPIC_API_KEY" requests none
get_for_user-last_word_example =
    get_for_user-last_word plain "fp" (λ iv value. refl) "ada" "ANTHROPIC_API_KEY" requests down
      refl

the_word_of_an_admin : last_word "ada" "ANTHROPIC_API_KEY" requests none ≡ some "sk-2"
unfolding gg_proxy.Roles.rank_of
the_word_of_an_admin = refl
