-- ===== src/TcpClient/Tests.antt =====
-- A client that connects, loses its connection and connects again, and the theorem there.
use ccnet.Prelude.{◌≡◌, refl, true, false}
use ccnet.Prelude.Outcome.{value_or}
use ccnet.Connector.{Connector}
use ccnet.Connector
use ccnet.TcpServer.{Connection}
use ccnet.TcpClient.{
  TcpClient, create, enable_retry, connect, new_connection, handed_over, on_handed, handle_write,
  remove_connection,
}
use ccnet.TcpClient.Single.{IsSingle}
use ccnet.TcpClient.Runs.{
  Run, rests, goes_on, retries, connects, resets, writes, removes, run-IsSingle,
}

abbrev started : TcpClient
started = value_or create (connect true 115 (enable_retry create))

abbrev established_one : TcpClient
established_one = value_or started (handle_write 0 false started)

abbrev after_reset : TcpClient
after_reset = record established_one {
  connector = Connector.reset_channel established_one.connector;
}

abbrev first : Connection
first = record { id = 1; sockfd = 0; io_loop = 0 }

abbrev again : TcpClient
again = value_or after_reset (remove_connection 0 first after_reset)

runs : Run create again
unfolding create enable_retry connect new_connection handed_over on_handed handle_write
    remove_connection Connector.create Connector.start Connector.start_in_loop
    Connector.connect_with Connector.connecting_on Connector.handle_write
    Connector.remove_and_reset_channel Connector.queue Connector.restart Connector.reset_channel
runs = goes_on (retries create) (
    goes_on (connects (enable_retry create) started true 115 refl) (
      goes_on (writes started established_one 0 false refl) (
        goes_on (resets established_one refl)
          (goes_on (removes after_reset again 0 first refl) (rests again)))))

made_one : again.next_conn_id ≡ 2
unfolding create enable_retry connect new_connection handed_over on_handed handle_write
    remove_connection Connector.create Connector.start Connector.start_in_loop
    Connector.connect_with Connector.connecting_on Connector.handle_write
    Connector.remove_and_reset_channel Connector.queue Connector.restart Connector.reset_channel
made_one = refl

run-IsSingle_example : IsSingle again
run-IsSingle_example = run-IsSingle runs
