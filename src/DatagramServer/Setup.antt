-- ===== src/DatagramServer/Setup.antt =====
-- The socket of the Lab 5 server, Lab 5/server2.c lines 44 to 61.
use innopolis_networks_s.Base.{ℕ, Bool, true, false, not, [], ◌∷◌, if◌then◌else◌, ℤ, pos, ltℤ}
use innopolis_networks_s.Networking.{made, bound, Run, inaddr_any, failure}

-- PORT
abbrev pub port : ℕ
port = 2000

-- `failure` stands for EXIT_FAILURE.
unfoldable pub setup : (htons : ℕ → ℕ) → ℤ → Bool → Run ℤ
setup htons sockfd bind_ok =
    if ltℤ sockfd (pos 0)
    then record { calls = made sockfd ∷ []; result = failure }
    else if not bind_ok
    then record {
      calls = made sockfd ∷ bound sockfd inaddr_any (htons port) false ∷ [];
      result = failure;
    }
    else record {
      calls = made sockfd ∷ bound sockfd inaddr_any (htons port) true ∷ [];
      result = sockfd;
    }
