-- ===== src/Ping/Tests.antt =====
-- `ping` at concrete answers.
use innopolis_networks_s.Base.{◌≡◌, true, false, List, [], ◌∷◌, pos, ℤ, if◌then◌else◌}
use innopolis_networks_s.Socket.{closed, got}
use innopolis_networks_s.Ping.{Exchange, ping}
use innopolis_networks_s.Ping.Laws.{answered, valid, ping_lem}

abbrev answers : List (Exchange ℤ)
answers =
    record { send_ok = true; answer = got (pos 0) }
    ∷ record { send_ok = true; answer = closed }
    ∷ record { send_ok = false; answer = got (pos 0) }
    ∷ record { send_ok = true; answer = got (pos 0) }
    ∷ []

ping_lem_example : ping (pos 4) answers ≡ (if valid (pos 4) then answered answers else 0)
ping_lem_example = ping_lem (pos 4) answers
