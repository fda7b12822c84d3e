-- ===== src/Pools/Unjoined.antt =====
-- The syncs of Lab 7's node over the sockets that `init_tcp_client` gives it (Lab 7/node.c, lines 275 to
-- 290).
use innopolis_networks_s.Base.{◌≡◌, ℕ, ◌<◌, ◌≤◌, Bool, false, not, ◌&&◌, List, length, ℤ, ap, ◌∙◌}
use innopolis_networks_s.Memory.{Memory, Allocator, crash}
use innopolis_networks_s.LinkedList.{Node}
use innopolis_networks_s.LinkedList.Layout.{Cell}
use innopolis_networks_s.Networking.{Pton, init_tcp_client}
use innopolis_networks_s.Networking.Sockets.{Socket, unused, socket_after, is_joined}
use innopolis_networks_s.Networking.Laws.{init_tcp_client-is_joined}
use innopolis_networks_s.Pools.{NodeFile, Value, Pools, Answers, no_signal, syncer}
use innopolis_networks_s.Peers.{NetworkNode}
use innopolis_networks_s.Pools.Invariant.{Holds}
use innopolis_networks_s.Pools.Skips.{IsSilent, AllPeers}
use innopolis_networks_s.Peers.Distinct.{AllDistinct}
use innopolis_networks_s.Pools.Passes.{syncer_lem}
use innopolis_networks_s.Peers.Passes.{AllPasses, AllPasses-weaken}

-- What the calls in `init_tcp_client` give.
pub record Attempt : Type 0 where
  pub port : ℕ
  pub fd : ℤ
  pub pton : Pton
  pub bind_ok : Bool

-- `send_ok` tells whether `send` works, from the state of the socket.
module _ (send_ok : Socket → Bool) (htons : ℕ → ℕ) where
  -- Whether `send` works on the socket that `init_tcp_client` has returned.
  abbrev pub reached : Attempt → Bool
  reached t =
      let r = init_tcp_client htons t.port t.fd t.pton t.bind_ok in
      send_ok (socket_after r.result unused r.calls)

  -- The answer is over a socket of `init_tcp_client`.
  abbrev pub IsAttempt : Answers → Type 0
  IsAttempt x = (t : Attempt) × (x.send_ok ≡ reached t)

  module _ (not_joined : (s : Socket) → is_joined s ≡ false → send_ok s ≡ false) where
    reached-is_joined : (t : Attempt) → reached t ≡ false
    reached-is_joined t =
        not_joined _ (init_tcp_client-is_joined htons _ t.port t.fd t.pton t.bind_ok)

    IsAttempt-IsSilent : (x : Answers) → IsAttempt x → IsSilent x
    IsAttempt-IsSilent x (t, e) = ap (λ b. b && not (no_signal x.signal)) (e ∙ reached-is_joined t)

    -- If `send` fails on every socket that is joined to no peer, the `while` of `syncer` crashes in the
    -- end on every pool that is not empty, whatever the calls in `init_tcp_client` give and the peers
    -- would answer, if each node is equal to itself and to no one before it as `memcmp` finds: the
    -- socket of `init_tcp_client` is bound, and joined to no peer. As many passes as there are nodes are
    -- enough.
    pub syncer-init_tcp_client :
        (memcmp_eq : Value → Value → Bool) (al : Allocator (Node Value))
        (reinterpret : NodeFile → NetworkNode) (passes : List (List Answers))
        (m : Memory (Node Value)) (p : Pools) (ns fs : List (Cell Value))
        → AllPasses IsAttempt (length ns) passes
        → length ns ≤ length passes
        → Holds m p ns fs
        → 0 < length ns
        → AllDistinct memcmp_eq ns
        → AllPeers memcmp_eq ns
        → syncer memcmp_eq al reinterpret passes p m ≡ crash
    syncer-init_tcp_client memcmp_eq al reinterpret passes m p ns fs tried enough h nonempty
          distinct peers =
        syncer_lem memcmp_eq al reinterpret fs passes m p ns
          (AllPasses-weaken IsAttempt IsSilent IsAttempt-IsSilent (length ns) passes tried) enough h
          nonempty distinct peers
