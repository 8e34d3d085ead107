-- ===== src/Tests/HitlTests.antt =====
-- Tests of the coordinator and of the endpoints that answer requests.
use gg_proxy.Base.{◌≡◌, refl, none, some, List, [], ◌∷◌, arith}
use gg_proxy.Hitl.{Coordinator, awake, resolve}
use gg_proxy.Hitl.Table.{upsert_hitl, get_hitl, get_hitl_version, accept, deny, decided}
use gg_proxy.Hitl.Decisions.{Call, run, resolve_wins, registers, resolves, cancels, wakes}
use gg_proxy.Hitl.Route.{read, answer, conflicts}
use gg_proxy.Hitl.Route.Race.{answer_race}
use gg_proxy.Tests.Sample.{
  coordinator, entry, idle_coordinator, hitl_row, hitl_table, accepts, denies,
}

abbrev answered : Coordinator
answered = record coordinator {
  waiting = (1, record entry { future = some (accept, some "fine") }) ∷ [];
}

-- A second answer, a shutdown and another request, before the caller wakes up.
abbrev meanwhile : List Call
meanwhile =
    resolves 1 deny none hitl_table
    ∷ cancels "shutdown" none
    ∷ registers 2 "Edit" "{}" 7
    ∷ wakes 2
    ∷ []

resolve_wins_example : (awake 1 (run answered meanwhile)).0 ≡ some (accept, some "fine")
unfolding resolve
resolve_wins_example =
    resolve_wins 1 accept (some "fine") hitl_table coordinator answered meanwhile refl
      (tt, (tt, (tt, ((λ e. grind arith), tt))))

answer_race_example :
    (answer 7 1 denies
      (read 1 hitl_table)
      12
      (idle_coordinator, (answer 7 1 accepts (read 1 hitl_table) 11 (coordinator, hitl_table)).2)).0
    ≡ conflicts 1 (
        some (record {
          status = decided accept;
          resolver = some "ada";
          reason = some "fine";
          resolved_at = some 11;
        }))
unfolding answer read resolve upsert_hitl get_hitl_version get_hitl
answer_race_example =
    answer_race 7 1 accepts denies 11 12 coordinator idle_coordinator hitl_table hitl_row refl refl
