-- ===== src/Tests/Searching.antt =====
-- A search of two sources, one after the other: the provider answers, and the deadline ends the wait
-- for the channel.
use panshou.Prelude.{
  ◌≡◌, refl, true, false, none, some, List, [], ◌∷◌, length, unwrap_or, arith, lookup,
}
use panshou.Prelude.Int.{pos}
use panshou.Text.{text, text_eq}
use panshou.Core.Model.{MergedLink, telegram}
use panshou.Core.Cloud.{baidu}
use panshou.Search.Query.{core, batch, returned}
use panshou.Search.Options.{SearchOptions, queue_of}
use panshou.Search.Emit.{deadline, Emission, emit_links}
use panshou.Search.Emit.Stream.{knows_password, emit_links_keep_passwords}
use panshou.Search.Loop.{
  Move, Ended, ended, waiting, impossible, start, publishes, deadline_passed, finished, Turn,
  SearchState, initial, pass, run_loop,
}
use panshou.Search.Loop.Passes.{
  PassKeeps, is_waiting, pass_keeps, run_loop_ends, initial-WellFormed,
}
use panshou.Search.Loop.Counts.{work}
use panshou.Search.Conclude.{Finished, run}
use panshou.Search.Conclude.Accounts.{Accounts, run-Accounts}
use panshou.Search.Conclude.Stream.{Follows, run-Follows}
use panshou.Tests.{sample_env, baidu_url, first_row, second_row}

abbrev search_options : SearchOptions
search_options = record {
  query = text "alpha";
  providers = record { name = text "zhizhen"; priority = pos 2; keyword_filter = core } ∷ [];
  channels = text "ch" ∷ [];
  include = [];
  exclude = [];
  clouds = [];
  jobs = 1;
  timeout = 50;
  all_timeout = 100;
}

abbrev first_turn : Turn
first_turn = record {
  interrupted_before = false;
  moves = start 0 1 ∷ publishes 0 2 (first_row ∷ []) ∷ [];
  wake = finished 0 (returned (batch (first_row ∷ []))) false;
  interrupted_after = false;
  past_deadline = false;
  now = 3;
}

abbrev last_turn : Turn
last_turn = record first_turn { moves = start 1 4 ∷ []; wake = deadline_passed }

abbrev turns : List Turn
turns = first_turn ∷ last_turn ∷ last_turn ∷ []

abbrev nothing_found : Finished
nothing_found = record {
  outcome = record {
    query = [];
    total_results = 0;
    total_links = 0;
    results = [];
    links_by_type = [];
    source_errors = [];
    successful_sources = 0;
  };
  summarized = record {
    total_links = 0;
    sources_selected = 0;
    sources_completed = 0;
    sources_failed = 0;
    sources_cancelled = 0;
    sources_not_started = 0;
    partial = false;
    finish_reason = deadline;
  };
  events = [];
}

abbrev found : Finished
unfolding run
found = unwrap_or (run sample_env search_options true 0 turns 100 101) nothing_found

summary : found.summarized ≡ record {
  total_links = 1;
  sources_selected = 2;
  sources_completed = 1;
  sources_failed = 0;
  sources_cancelled = 1;
  sources_not_started = 0;
  partial = true;
  finish_reason = deadline;
}
unfolding found
summary = refl

run-Accounts_example : Accounts found.summarized
unfolding run found
run-Accounts_example = run-Accounts sample_env search_options true 0 turns 100 101 {f = found} refl

run-Follows_example : Follows found
unfolding run found
run-Follows_example = run-Follows sample_env search_options 0 turns 100 101 {f = found} refl

pass_keeps_example :
    PassKeeps 1 (length (queue_of search_options)) (work (initial search_options)) (
      pass sample_env search_options true 100
        (length (queue_of search_options))
        first_turn
        (initial search_options))
pass_keeps_example =
    pass_keeps sample_env search_options true 100 (length (queue_of search_options)) first_turn
      (initial search_options) (initial-WellFormed search_options)

run_loop_ends_example :
    is_waiting (
      run_loop sample_env search_options true 100
        (length (queue_of search_options))
        turns
        (initial search_options))
    ≡ false
unfolding queue_of
run_loop_ends_example =
    run_loop_ends sample_env search_options true 100 (length (queue_of search_options)) turns
      (initial search_options) (initial-WellFormed search_options) (omega arith)

-- The two sources side by side, which answer in either order.
abbrev parallel_options : SearchOptions
parallel_options = record search_options { jobs = 2 }

abbrev provider_answers : List Move → Turn
provider_answers moves = record first_turn { moves = moves }

abbrev channel_answers : List Move → Turn
channel_answers moves = record first_turn {
  moves = moves;
  wake = finished 1 (returned (batch (second_row ∷ []))) false;
}

abbrev both_start : List Move
both_start = start 0 1 ∷ start 1 1 ∷ []

abbrev state_at : Ended → SearchState
state_at (ended reason s) = s
state_at (waiting s) = s
state_at impossible = initial parallel_options

abbrev loop_of : List Turn → Ended
unfolding run_loop queue_of
loop_of turns =
    run_loop sample_env parallel_options true 100 (length (queue_of parallel_options)) turns
      (initial parallel_options)

abbrev provider_first : List Turn
provider_first = provider_answers both_start ∷ channel_answers [] ∷ last_turn ∷ []

abbrev channel_first : List Turn
channel_first = channel_answers both_start ∷ provider_answers [] ∷ last_turn ∷ []

abbrev merged : MergedLink
merged = record {
  cloud_type = baidu;
  url = baidu_url;
  password = some (text "ab12");
  note = [];
  datetime = none;
  source = telegram (text "ch");
  images = [];
  check = none;
}

abbrev emission : Emission
emission = record { emitted = (baidu_url, merged) ∷ []; events = [] }

emit_links_keep_passwords_example :
    knows_password baidu_url
      (emit_links sample_env true emission
        (record merged { password = none; datetime = some 9 } ∷ [])).emitted
    ≡ true
unfolding lookup
emit_links_keep_passwords_example =
    emit_links_keep_passwords sample_env true emission
      (record merged { password = none; datetime = some 9 } ∷ []) baidu_url refl
