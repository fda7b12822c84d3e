-- ===== src/Networking.antt =====
-- The functions of Lab 7/networking.c that make and name sockets (lines 3 to 115). What the calls of the
-- sockets library give comes in as data; each function gives its calls in order, and its result.
pub mod Sockets
pub mod Laws
use innopolis_networks_s.Base.{
  ℕ, Bool, true, false, not, Option, none, some, List, [], ◌∷◌, if◌then◌else◌, ℤ, pos, negsuc, ltℤ,
}
use innopolis_networks_s.Text.{Text}

-- A call that changes a socket. A port is the 16 bits of `sin_port`, an address those of `sin_addr`.
pub data Call : Type 0 where
  made : ℤ → Call
  bound : ℤ → (addr port : ℕ) → Bool → Call
  listening : ℤ → Bool → Call
  accepted : ℤ → ℤ → Call
  connected : ℤ → (addr port : ℕ) → Bool → Call
  shut : ℤ → Call

pub record Run (A : Type 0) : Type 0 where
  pub calls : List Call
  pub result : A

-- The port and the address in a `sockaddr_in`.
pub record Address : Type 0 where
  pub port : ℕ
  pub addr : ℕ

-- INADDR_ANY
abbrev pub inaddr_any : ℕ
inaddr_any = 0

abbrev pub failure : ℤ
failure = negsuc 0

-- `inet_pton`: a negative result for a wrong family, 0 for a text that is no address, 1 for an address.
pub record Pton : Type 0 where
  pub result : ℤ
  pub addr : ℕ

-- `fd` is what `socket` gives, `bind_ok` whether `bind` works.
unfoldable pub init_tcp_server : ℕ → ℤ → Bool → Run ℤ
init_tcp_server port fd bind_ok =
    if ltℤ fd (pos 0)
    then record { calls = made fd ∷ []; result = failure }
    else if not bind_ok
    then record { calls = made fd ∷ bound fd inaddr_any port false ∷ []; result = failure }
    else record { calls = made fd ∷ bound fd inaddr_any port true ∷ []; result = fd }

-- `listen` and `accept` on the server's socket
unfoldable pub setup_communication : ℤ → Bool → ℤ → Run ℤ
setup_communication conn_socket listen_ok talk =
    if not listen_ok
    then record { calls = listening conn_socket false ∷ []; result = failure }
    else let calls = listening conn_socket true ∷ accepted conn_socket talk ∷ [] in
      if ltℤ talk (pos 0)
      then record { calls = calls; result = failure }
      else record { calls = calls; result = talk }

-- SERVER_PORT
abbrev pub server_port : ℕ
server_port = 2000

-- The function ends without a `return` where `inet_pton` does not fail: the result is `none` there.
unfoldable pub convert_address : Pton → Address × Option ℤ
convert_address p =
    let addr : Address = record { port = server_port; addr = p.addr } in
    if ltℤ p.result (pos 0) then (addr, some failure) else (addr, none)

module _ (htons : ℕ → ℕ) where
  -- The result of `bind` is not tested.
  unfoldable pub init_tcp_client : ℕ → ℤ → Pton → Bool → Run ℤ
  init_tcp_client port fd p bind_ok =
      if ltℤ p.result (pos 0)
      then record { calls = made fd ∷ []; result = failure }
      else record { calls = made fd ∷ bound fd p.addr (htons port) bind_ok ∷ []; result = fd }

module _ (ntohs : ℕ → ℕ) where
  -- `name` is what `getpeername` writes; `inet_ntop` is the text of its address.
  unfoldable pub get_ip_port : (ℕ → Text) → Address → ℕ × Text
  get_ip_port inet_ntop name = (ntohs name.port, inet_ntop name.addr)

  unfoldable pub get_my_ip : (ℕ → Text) → ℤ → Bool → Address → Run (ℕ × Text)
  get_my_ip inet_ntop fd bind_ok name = record {
    calls = made fd ∷ bound fd inaddr_any 0 bind_ok ∷ shut fd ∷ [];
    result = get_ip_port inet_ntop name;
  }

-- `getpeername`
unfoldable pub get_uint_ip : Address → ℕ
get_uint_ip name = name.addr
