-- ===== src/StudentClient/Tests.antt =====
-- A student, the goodbye, and one more student.
use innopolis_networks_s.Base.{ℕ, ◌+◌, ◌≡◌, List, [], ◌∷◌, refl, true, false}
use innopolis_networks_s.StudentServer.{Student, serve_client}
use innopolis_networks_s.StudentClient.{Entry, setup_tcp_communication}
use innopolis_networks_s.StudentClient.Session.{arriving, students, seen, session-seen}

abbrev of_age : ℕ → Student ℕ
of_age n = record { name = 1; age = n; group = n }

-- the reply is the sum of the numbers
abbrev sprintf : Student ℕ → ℕ
sprintf s = s.name + s.age + s.group

abbrev typed : List (Entry ℕ ℕ)
typed =
    record { student = of_age 20; alive = true; stale = 0 }
    ∷ record { student = of_age 0; alive = true; stale = 41 }
    ∷ record { student = of_age 30; alive = true; stale = 41 }
    ∷ record { student = of_age 40; alive = false; stale = 41 }
    ∷ []

session-seen_example :
    setup_tcp_communication typed (arriving (serve_client 0 sprintf (students 0 sprintf typed)).0)
    ≡ seen 0 sprintf typed
session-seen_example = session-seen 0 sprintf typed

last_repeats :
    seen 0 sprintf typed
    ≡ record { sent = of_age 20; printed = 41 }
      ∷ record { sent = of_age 0; printed = 41 }
      ∷ record { sent = of_age 30; printed = 41 }
      ∷ []
unfolding seen
last_repeats = refl
