-- ===== src/Connector/Tests.antt =====
-- A connector over a short run.
use ccnet.Prelude.{◌≡◌, refl, true, List, [], ◌∷◌}
use ccnet.Prelude.Outcome.{ok}
use ccnet.Connector.{create, retry_after, connect_with, start, start_in_loop, retry, queue, close}
use ccnet.Connector.Sound.{Sound}
use ccnet.Connector.Runs.{
  Event, starts, starts_in_loop, stops, stops_in_loop, step, run, AllDue, run-Sound, create-IsSound,
}

-- Refused twice: a second timer waits twice as long.
refused :
    run create (starts true 111 ∷ starts_in_loop 111 ∷ [])
    ≡ ok (record create {
      connect = true;
      retry_delay_ms = 2000;
      created = 2;
      closed = 1 ∷ 0 ∷ [];
      tasks = retry_after 500 ∷ retry_after 1000 ∷ [];
    })
unfolding run step create start start_in_loop connect_with retry close queue
refused = refl

abbrev script : List Event
script = starts true 111 ∷ starts_in_loop 115 ∷ stops ∷ stops_in_loop ∷ []

script-AllDue : AllDue create script
script-AllDue = (tt, λ _ _. (tt, λ _ _. (tt, λ _ _. (tt, λ _ _. tt))))

run-Sound_example : Sound (run create script)
run-Sound_example = run-Sound script create create-IsSound script-AllDue
