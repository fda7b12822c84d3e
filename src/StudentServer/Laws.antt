-- ===== src/StudentServer/Laws.antt =====
-- The order of what the server does, and which students it answers.
use innopolis_networks_s.Base.{
  subst, ◌≡◌, refl, ap, Bool, true, false, not, ◌&&◌, Option, none, some, List, [], ◌∷◌, ◌++◌, map,
  ◌==◌, if◌then◌else◌, Bool-cases, inl, inr,
}
use innopolis_networks_s.Socket.{Recv, failed, closed, got}
use innopolis_networks_s.StudentServer.{
  Student, Event, accepted, replied, hung_up, End, blocked_in_session, Setup, serve_client,
  serve_all, setup_tcp_server_communication,
}

-- The server as a state machine: whether a connection is open before the events and after them.
pub data Orderly {R : Type 0} : Bool → List (Event R) → Bool → Type 0 where
  stop : {b : Bool} → Orderly b [] b
  accept : {es : List (Event R)} {b : Bool} → Orderly true es b → Orderly false (accepted ∷ es) b
  reply :
      {r : R} {es : List (Event R)} {b : Bool} → Orderly true es b → Orderly true (replied r ∷ es) b
  hang_up : {es : List (Event R)} {b : Bool} → Orderly false es b → Orderly true (hung_up ∷ es) b

pub Orderly-append :
    {R : Type 0} {es fs : List (Event R)} {a b c : Bool}
    → Orderly a es b
    → Orderly b fs c
    → Orderly a (es ++ fs) c
Orderly-append stop k = k
Orderly-append (accept h) k = accept (Orderly-append h k)
Orderly-append (reply h) k = reply (Orderly-append h k)
Orderly-append (hang_up h) k = hang_up (Orderly-append h k)

-- Whether the server stops with a connection open.
abbrev pub in_session : End → Bool
in_session blocked_in_session = true
in_session _ = false

-- The students of a connection before the first goodbye, error or end of the stream, and whether
-- there is one of these.
unfoldable pub greeted : {N : Type 0} → List (Recv (Student N)) → List (Student N) × Bool
greeted [] = ([], false)
greeted (failed ∷ rs) = ([], true)
greeted (closed ∷ rs) = ([], true)
greeted (got s ∷ rs) =
    let rest = greeted rs in if s.age == 0 && s.group == 0 then ([], true) else (s ∷ rest.0, rest.1)

abbrev pub goodbye : {R : Type 0} → Bool → List (Event R)
goodbye true = hung_up ∷ []
goodbye false = []

module _ {N R : Type 0} (no_name : N) (sprintf : Student N → R) where
  -- On one connection the server answers the students before the first goodbye, error or end of the
  -- stream, each with its line and in their order, and then closes the connection once; without one of
  -- these it waits with the connection open.
  pub serve_client_lem :
      (rs : List (Recv (Student N)))
      → serve_client no_name sprintf rs
        ≡ (map (λ s. replied (sprintf s)) (greeted rs).0 ++ goodbye (greeted rs).1, (greeted rs).1)
  unfolding serve_client greeted
  serve_client_lem [] = refl
  serve_client_lem (failed ∷ rs) = refl
  serve_client_lem (closed ∷ rs) = refl
  serve_client_lem (got s ∷ rs) = elim (Bool-cases (s.age == 0 && s.group == 0)) [
    | inl e ↦ rw e refl
    | inr e ↦ rw (e, serve_client_lem rs) refl
  ]

  client-Orderly :
      (rs : List (Recv (Student N)))
      → Orderly true (serve_client no_name sprintf rs).0 (not (serve_client no_name sprintf rs).1)
  unfolding serve_client
  client-Orderly [] = stop
  client-Orderly (failed ∷ rs) = hang_up stop
  client-Orderly (closed ∷ rs) = hang_up stop
  client-Orderly (got s ∷ rs) = elim (Bool-cases (s.age == 0 && s.group == 0)) [
    | inl e ↦ rw e (hang_up stop)
    | inr e ↦ rw e (reply (client-Orderly rs))
  ]

  client-ends :
      (rs : List (Recv (Student N))) {b : Bool}
      → (serve_client no_name sprintf rs).1 ≡ b
      → Orderly true (serve_client no_name sprintf rs).0 (not b)
  client-ends rs e =
      subst (λ b. Orderly true (serve_client no_name sprintf rs).0 b) (ap not e) (client-Orderly rs)

  all-Orderly :
      (cs : List (Option (List (Recv (Student N)))))
      → Orderly false
          (serve_all no_name sprintf cs).events
          (in_session (serve_all no_name sprintf cs).finish)
  unfolding serve_all
  all-Orderly [] = stop
  all-Orderly (none ∷ cs) = stop
  all-Orderly (some rs ∷ cs) = elim (Bool-cases (serve_client no_name sprintf rs).1) [
    | inl e ↦ rw e (accept (Orderly-append (client-ends rs e) (all-Orderly cs)))
    | inr e ↦ rw e (accept (client-ends rs e))
  ]

  -- Whatever the clients do, the server takes them one at a time: it accepts only when no connection
  -- is open, replies and closes only on an open one, closes none twice, and stops with a connection
  -- open only where it waits for that client's data.
  pub server-Orderly :
      (u : Setup) (cs : List (Option (List (Recv (Student N)))))
      → Orderly false
          (setup_tcp_server_communication no_name sprintf u cs).events
          (in_session (setup_tcp_server_communication no_name sprintf u cs).finish)
  unfolding setup_tcp_server_communication
  server-Orderly u cs = elim (Bool-cases u.socket_ok) [
    | inr e ↦ rw e stop
    | inl e ↦ elim (Bool-cases u.bind_ok) [
      | inr f ↦ rw (e, f) stop
      | inl f ↦ elim (Bool-cases u.listen_ok) [
        | inr g ↦ rw (e, f, g) stop
        | inl g ↦ rw (e, f, g) (all-Orderly cs)
      ]
    ]
  ]
