-- ===== src/StudentClient/Session.antt =====
-- The client of Lab 4 with the server of Lab 4.
use innopolis_networks_s.Base.{
  ◌+◌, ◌==◌, Bool, not, arith, ◌≡◌, refl, List, [], ◌∷◌, if◌then◌else◌, Bool-cases, inl, inr,
}
use innopolis_networks_s.Socket.{Recv, closed, got}
use innopolis_networks_s.StudentServer.{
  Student, Event, accepted, replied, hung_up, serve_client, is_goodbye,
}
use innopolis_networks_s.StudentClient.{Entry, Shown, setup_tcp_communication}

-- What comes to the client of what the server does.
abbrev pub arriving : {R : Type 0} → List (Event R) → List (Recv R)
arriving [] = []
arriving (replied r ∷ es) = got r ∷ arriving es
arriving (hung_up ∷ es) = closed ∷ arriving es
arriving (accepted ∷ es) = arriving es

module _ {N R : Type 0} (no_name : N) (sprintf : Student N → R) where
  -- What comes to the server of what the client sends, up to the end of its process.
  abbrev pub students : List (Entry N R) → List (Recv (Student N))
  students [] = []
  students (e ∷ es) =
      let rest = students es in if e.alive then got e.student ∷ rest else closed ∷ []

  -- The user has asked to leave.
  abbrev pub is_farewell : Student N → Bool
  is_farewell s = s.age + s.group == 0

  -- Rounds after the end of the connection: the buffer is printed as it is.
  abbrev pub unanswered : List (Entry N R) → List (Shown N R)
  unanswered [] = []
  unanswered (e ∷ es) =
      let rest = unanswered es in
      if e.alive then record { sent = e.student; printed = e.stale } ∷ rest else []

  -- The line of each student before the first farewell, and then only what the buffer holds.
  unfoldable pub seen : List (Entry N R) → List (Shown N R)
  seen [] = []
  seen (e ∷ es) =
      let rest = seen es in
      if not e.alive
      then []
      else if is_farewell e.student
      then unanswered (e ∷ es)
      else record { sent = e.student; printed = sprintf e.student } ∷ rest

  farewell_lem : (s : Student N) → is_goodbye no_name sprintf s ≡ is_farewell s
  farewell_lem s = elim (Bool-cases (is_farewell s)) [ inl e ↦ ground arith | inr e ↦ ground arith ]

  hung_up_lem : (es : List (Entry N R)) → setup_tcp_communication es [] ≡ unanswered es
  unfolding setup_tcp_communication
  hung_up_lem [] = refl
  hung_up_lem (e ∷ es) = rw (hung_up_lem es) refl

  -- A session of the client with the server, up to the round in which a signal ends the client: each
  -- student that the user types before the first one of age 0 in group 0 is answered with its own line,
  -- in the same round; in the round of that one and in all later ones the client prints what its buffer
  -- holds, since the server has closed the connection.
  pub session-seen :
      (es : List (Entry N R))
      → setup_tcp_communication es (arriving (serve_client no_name sprintf (students es)).0)
        ≡ seen es
  unfolding setup_tcp_communication serve_client seen
  session-seen [] = refl
  session-seen (e ∷ es) = elim (Bool-cases e.alive) [
    | inr over ↦ rw over refl
    | inl alive ↦ elim (Bool-cases (is_farewell e.student)) [
      | inl bye ↦ rw (alive, farewell_lem e.student, bye, hung_up_lem es) refl
      | inr more ↦ rw (alive, farewell_lem e.student, more, session-seen es) refl
    ]
  ]
