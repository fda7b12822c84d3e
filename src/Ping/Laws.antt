-- ===== src/Ping/Laws.antt =====
-- When the exchanges succeed, and what `ping` counts.
use innopolis_networks_s.Base.{
  ap, ◌∙◌, ℕ, ◌+◌, ◌≡◌, refl, Bool, true, false, not, ◌&&◌, List, [], ◌∷◌, if◌then◌else◌, ℤ, pos,
  negsuc, ltℤ, ◌==ℤ◌, arith, Bool-cases, inl, inr,
}
use innopolis_networks_s.Socket.{Recv, failed, closed, got}
use innopolis_networks_s.Ping.{Exchange, recvsend, sendrecv, ping_round, ping_loop, ping}

abbrev pub valid : ℤ → Bool
valid s = not (ltℤ s (pos 0))

-- The answer that `ping` counts.
abbrev pub is_zero : Recv ℤ → Bool
is_zero (got v) = v ==ℤ pos 0
is_zero _ = false

-- How many exchanges were sent and answered with 0.
unfoldable pub answered : List (Exchange ℤ) → ℕ
answered [] = 0
answered (x ∷ xs) = if x.send_ok && is_zero x.answer then answered xs + 1 else answered xs

module _ {A : Type 0} (s : ℤ) (x : Exchange A) (old : A) where
  -- `sendrecv` and `recvsend` return 0 for the same results of the calls: the socket is valid and
  -- neither call failed.
  pub sendrecv-recvsend : (sendrecv s x old).result ≡ (recvsend s x old).result
  unfolding sendrecv recvsend
  sendrecv-recvsend = ground arith

round_cases :
    (s : ℤ) (ok : Bool) (a : Recv ℤ) (n : ℕ)
    → valid s ≡ true
    → ping_round s (record { send_ok = ok; answer = a }) (n, negsuc 0)
      ≡ (if ok && is_zero a then n + 1 else n, negsuc 0)
unfolding ping_round sendrecv
round_cases s false a n h = ground arith
round_cases s true failed n h = ground arith
round_cases s true closed n h = ground arith
round_cases s true (got v) n h = ground arith

loop_lem :
    (s : ℤ) (xs : List (Exchange ℤ)) (n : ℕ)
    → valid s ≡ true
    → (ping_loop s xs (n, negsuc 0)).0 ≡ n + answered xs
unfolding ping_loop answered
loop_lem s [] n h = omega arith
loop_lem s (x ∷ xs) n h =
    let counts = x.send_ok && is_zero x.answer in
    ap (λ p. (ping_loop s xs p).0) (round_cases s x.send_ok x.answer n h)
    ∙ loop_lem s xs (if counts then n + 1 else n) h
    ∙ ground arith

idle_lem : (s : ℤ) (xs : List (Exchange ℤ)) (p : ℕ × ℤ) → valid s ≡ false → ping_loop s xs p ≡ p
unfolding ping_loop ping_round
idle_lem s [] p h = refl
idle_lem s (x ∷ xs) p h = ground (arith, idle_lem s xs p h)

-- `ping` returns the number of exchanges that were sent and answered with 0 if the socket is valid,
-- and 0 if it is not. No answer is counted twice.
pub ping_lem : (s : ℤ) (xs : List (Exchange ℤ)) → ping s xs ≡ (if valid s then answered xs else 0)
unfolding ping
ping_lem s xs = elim (Bool-cases (valid s)) [
  | inl e ↦ rw e (loop_lem s xs 0 e ∙ omega arith)
  | inr e ↦ rw e (ap (λ (p : ℕ × ℤ). p.0) (idle_lem s xs (0, negsuc 0) e))
]
