-- ===== src/DatagramServer/Tests.antt =====
-- Two datagrams; the thread of the second begins first.
use innopolis_networks_s.Base.{ℕ, refl, [], ◌∷◌, pos}
use innopolis_networks_s.Memory.{alloc, write, Memory, done, filled}
use innopolis_networks_s.Memory.Bump.{bump, bump_reliable, blank}
use innopolis_networks_s.Memory.Ends.{Ends}
use innopolis_networks_s.DatagramServer.{
  receive, ClientConnection, Datagram, Server, Steps, started, receives, begins, begin_with,
}
use innopolis_networks_s.DatagramServer.Schedules.{Served, Steps-Served}

abbrev from : ℕ → Datagram ℕ
from n = record { result = pos 14; addr_client = n }

abbrev to : ℕ → ClientConnection ℕ
to n = record { sockfd = pos 3; addr = n }

abbrev empty : Memory (ClientConnection ℕ)
empty = blank (ClientConnection ℕ)

abbrev both : Memory (ClientConnection ℕ)
both = filled (filled empty 1 (to 7)) 3 (to 8)

abbrev two : Server ℕ
two = record { waiting = 1 ∷ 3 ∷ []; answered = [] }

two_waiting : Steps (bump (ClientConnection ℕ)) (pos 3) empty (from 8 ∷ from 7 ∷ []) (done two both)
unfolding receive alloc write
two_waiting = receives (from 8) (receives (from 7) started)

second_first :
    Steps
      (bump (ClientConnection ℕ))
      (pos 3)
      empty
      (from 8 ∷ from 7 ∷ [])
      (begin_with (1 ∷ []) [] 3 two both)
second_first = begins (1 ∷ []) [] 3 refl two_waiting

Steps-Served_example :
    Ends
      (Served (bump (ClientConnection ℕ)) (pos 3) empty (from 8 ∷ from 7 ∷ []))
      (begin_with (1 ∷ []) [] 3 two both)
Steps-Served_example =
    Steps-Served (bump (ClientConnection ℕ)) (pos 3) empty (λ a h. refl) bump_reliable
      (refl, (refl, tt)) second_first
