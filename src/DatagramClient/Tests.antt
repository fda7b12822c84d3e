-- ===== src/DatagramClient/Tests.antt =====
-- Runs of the client.
use innopolis_networks_s.Base.{◌≡◌, refl, true, false, none, some, [], ◌∷◌, pos, negsuc}
use innopolis_networks_s.Socket.{got, failed}
use innopolis_networks_s.DatagramClient.{main, overwrite, value}

-- Without an answer it prints 0.
no_answer : main (pos 3) true failed ≡ some 0
unfolding main value
no_answer = refl

no_socket : main (negsuc 0) true failed ≡ none
unfolding main
no_socket = refl

not_sent : main (pos 3) false failed ≡ none
unfolding main
not_sent = refl

-- A short datagram leaves the bytes behind it.
short : main (pos 3) true (got (7 ∷ 1 ∷ [])) ≡ some 263
unfolding main overwrite value
short = refl
