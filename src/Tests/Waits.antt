-- ===== src/Tests/Waits.antt =====
-- Waiting, sequences of messages, queries of the graph and stubs.
use https_github_com_nightdu.Base.{
  ◌≡◌, none, some, [], ◌∷◌, pos, arith, true, ◌^◌, ◌≤◌, ◌<◌, ℕ, ◌*◌, is_negative,
}
use https_github_com_nightdu.Platform.{
  ok, Bytes, rmw_get_implementation_identifier, GuardImpl, WaitSet, Time, Call, World, done,
  slot_written,
}
use https_github_com_nightdu.Wait.Sets.{Waitables}
use https_github_com_nightdu.Wait.Epoll.{clear_epoll}
use https_github_com_nightdu.Wait.Timeout.{
  timeout_of, nanoseconds, InMilliseconds, timeout_of-InMilliseconds,
}
use https_github_com_nightdu.Wait.Cleanup.{Only, clear_epoll-Only}
use https_github_com_nightdu.Subscription.Sequence.{MessageSequence, InfoSequence}
use https_github_com_nightdu.Queries.Unsupported.{fails, ask, count_publishers, graph_query_fails}
use https_github_com_nightdu.Stubs.Refusals.{Refused, call_stub, take_request, call_stub-Refused}
use https_github_com_nightdu.Simulation.{sim, joined_world, empty_world, endpoint}

abbrev pub wait_set : WaitSet
wait_set = record {
  address = 11;
  implementation_identifier = rmw_get_implementation_identifier;
  info = 12;
  epollfd = pos 4;
  max_conditions = 5;
  len = 0;
}

abbrev guard : GuardImpl
guard = record { address = 13; pipe = 7 }

abbrev pub sets : Waitables
sets = record {
  subscriptions = some (some (endpoint 2).info ∷ []);
  guard_conditions = some (some guard ∷ []);
  services = none;
  clients = some (some 14 ∷ none ∷ []);
  events = none;
}

abbrev pub second : Time
second = record { sec = 1; nsec = 500000000 }

timeout_of-InMilliseconds_example :
    (nanoseconds second < 2 ^ 31 * 1000000
      → (n : ℕ) × (timeout_of (some second) ≡ pos n) × InMilliseconds n second)
    × (2 ^ 31 * 1000000 ≤ nanoseconds second → is_negative (timeout_of (some second)) ≡ true)
    × (is_negative (timeout_of none) ≡ true)
timeout_of-InMilliseconds_example = timeout_of-InMilliseconds second (omega arith)

clear_epoll-Only_example :
    (w' : World) × (clear_epoll sim
        (some (some (endpoint 2).info ∷ some (endpoint 3).info ∷ []))
        none
        (pos 4)
        empty_world
      ≡ done tt w')
    × Only (sim.signalfd (endpoint 2).info) empty_world w'
clear_epoll-Only_example =
    clear_epoll-Only sim (pos 4) (endpoint 2).info (some (endpoint 3).info ∷ []) empty_world

abbrev hello : Bytes
hello = 104 ∷ 105 ∷ 33 ∷ []

abbrev published : World
published = record {
  calls = Call.published (endpoint 1).info 1 3 ok ∷ slot_written 1 hello ∷ joined_world.calls;
  dummy_guid = 0;
}

-- Room for two messages, of which one waits.
abbrev messages : MessageSequence
messages = record { buffers = some hello ∷ some (0 ∷ 0 ∷ 0 ∷ 9 ∷ []) ∷ []; size = 0; capacity = 2 }

abbrev infos : InfoSequence
infos = record { size = 0; capacity = 5 }

graph_query_fails_example :
    fails (ask sim (count_publishers none (some hello) (some 0)) empty_world) ≡ true
graph_query_fails_example =
    graph_query_fails sim (count_publishers none (some hello) (some 0)) empty_world

call_stub-Refused_example :
    Refused empty_world (call_stub (take_request none (some tt) (some tt) none) empty_world)
call_stub-Refused_example =
    call_stub-Refused (take_request none (some tt) (some tt) none) empty_world
