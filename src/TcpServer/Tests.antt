-- ===== src/TcpServer/Tests.antt =====
-- A server with two threads, two connections, of which the first closes, and the theorem there.
use ccnet.Prelude.{ℕ, ◌≡◌, refl, false, true, [], ◌∷◌}
use ccnet.Prelude.Outcome.{value_or}
use ccnet.LoopPool.{get_next_loop, next_loop, loop_at}
use ccnet.TcpServer.{
  Connection, TcpServer, established, destroyed, create, start, listen, assign, erase, count,
  new_connection, remove_connection_in_loop, remove_connection, destroy, handle_read, refused,
}
use ccnet.TcpServer.Counts.{established_count, destroyed_count}
use ccnet.TcpServer.Serving.{IsServing}
use ccnet.TcpServer.Runs.{rests, goes_on, accepts, closes, removes, started, Goes, run-IsServing}
use ccnet.Prelude.{none}

abbrev first : Connection
first = record { id = 1; sockfd = 7; io_loop = 11 }

abbrev second : Connection
second = record { id = 2; sockfd = 8; io_loop = 12 }

abbrev start_of : TcpServer
start_of = started 10 (11 ∷ 12 ∷ [])

abbrev after : ℕ → TcpServer → TcpServer
after fd s = value_or s (new_connection fd s)

abbrev two : TcpServer
two = after 8 (after 7 start_of)

abbrev closing : TcpServer
closing = value_or two (remove_connection false first two)

abbrev last : TcpServer
last = value_or closing (remove_connection_in_loop first (record closing { removals = [] }))

run_lem :
    (last.functors ≡ established first ∷ established second ∷ destroyed first ∷ [])
    × (last.connections ≡ second ∷ [])
    × (handle_read true none true ≡ refused)
unfolding create start listen new_connection get_next_loop next_loop loop_at assign
    remove_connection remove_connection_in_loop count erase handle_read
run_lem = (refl, refl, refl)

run-IsServing_example :
    IsServing last
    × Goes last
    × ((k : ℕ)
        → destroyed_count k (destroy last).functors ≡ established_count k (destroy last).functors)
unfolding create start listen new_connection get_next_loop next_loop loop_at assign
    remove_connection remove_connection_in_loop count erase
run-IsServing_example = run-IsServing 10 (11 ∷ 12 ∷ []) (
    goes_on (accepts start_of (after 7 start_of) 7 refl) (
      goes_on (accepts (after 7 start_of) two 8 refl) (
        goes_on (closes two closing false first refl refl refl)
          (goes_on (removes closing last first [] refl refl) (rests last)))))
