-- ===== src/StudentServer/Tests.antt =====
-- Two clients, of which the second one breaks off.
use innopolis_networks_s.Base.{ℕ, ◌+◌, ◌≡◌, refl, true, false, Option, some, List, [], ◌∷◌}
use innopolis_networks_s.Socket.{Recv, got, failed}
use innopolis_networks_s.StudentServer.{
  Student, Setup, replied, serve_client, serve_all, setup_tcp_server_communication, accepted,
  hung_up, blocked,
}
use innopolis_networks_s.StudentServer.Laws.{Orderly, in_session, server-Orderly}

abbrev sum : Student ℕ → ℕ
sum s = s.name + s.age + s.group

abbrev first : List (Recv (Student ℕ))
first =
    got (record { name = 1; age = 20; group = 3 })
    ∷ got (record { name = 2; age = 0; group = 4 })
    ∷ got (record { name = 3; age = 0; group = 0 })
    ∷ []

abbrev clients : List (Option (List (Recv (Student ℕ))))
clients = some first ∷ some (failed ∷ []) ∷ []

abbrev setup : Setup
setup = record { socket_ok = true; bind_ok = true; listen_ok = true }

runs : setup_tcp_server_communication 0 sum setup clients ≡ record {
  events = accepted ∷ replied 24 ∷ replied 6 ∷ hung_up ∷ accepted ∷ hung_up ∷ [];
  finish = blocked;
}
unfolding setup_tcp_server_communication serve_all serve_client
runs = refl

server-Orderly_example :
    Orderly false
      (setup_tcp_server_communication 0 sum setup clients).events
      (in_session (setup_tcp_server_communication 0 sum setup clients).finish)
server-Orderly_example = server-Orderly 0 sum setup clients
