-- ===== src/DatagramServer/Schedules.antt =====
-- The loop and its threads in every order of their steps.
use innopolis_networks_s.Base.{
  ◌+◌, ◌≡◌, ◌≢◌, refl, ap, sym, subst, ◌∙◌, Bool, true, false, none, some, List, [], ◌∷◌, ◌++◌,
  ◌==◌, map, arith, ℤ, Bool-cases, inl, inr, ==_of_ne, eq_of_==,
}
use innopolis_networks_s.Memory.{Ptr, null, Memory, Allocator, Outcome, done, write, filled}
use innopolis_networks_s.Memory.Access.{load-some, release-some}
use innopolis_networks_s.Memory.Alloc.{
  Bounded, Bounded-filled, Bounded-cleared, Allocated, alloc_lem, failed, given,
}
use innopolis_networks_s.Memory.Ends
use innopolis_networks_s.Memory.Ends.{Ends, ends}
use innopolis_networks_s.DatagramServer.{
  ClientConnection, Datagram, Server, in_buf, connection, start_thread, receive, server_job,
  begin_with, Steps, started, receives, begins,
}
use innopolis_networks_s.DatagramServer.Threads.{
  used, used-append, count, tally, held, Blocks, count-append, held-append, held-write,
  Blocks-write, free-unused, Blocks-snoc, pick,
}

ended :
    {O B : Type 0} {Q : B → Memory O → Type 0} {b : B} {m : Memory O} → Ends Q (done b m) → Q b m
ended (ends q) = q

module _ {A : Type 0} (al : Allocator (ClientConnection A)) (sockfd : ℤ)
    (m0 : Memory (ClientConnection A)) where
  -- The arguments of the threads that wait are blocks of their own; with the answers given they hold the
  -- connections of all datagrams, each as often as it came; and the rest of memory is as it was.
  pub record Served (past : List (Datagram A)) (s : Server A) (m : Memory (ClientConnection A))
      : Type 0 where
    pub bounded : Bounded m
    pub blocks : Blocks m0.cell m.cell s.waiting
    pub all :
        (t : ClientConnection A → Bool)
        → count t s.answered + held m.cell t s.waiting ≡ count t (map (connection al sockfd) past)
    pub rest : (a : Ptr) → used a s.waiting ≡ false → m.cell a ≡ m0.cell a

  abbrev pub AllInBuf : List (Datagram A) → Type 0
  AllInBuf [] = Unit
  AllInBuf (d ∷ ds) = (in_buf d.result ≡ true) × AllInBuf ds

  waits :
      (past : List (Datagram A)) (s : Server A) (m : Memory (ClientConnection A)) (d : Datagram A)
      (p : Ptr)
      → Served past s m
      → p ≢ null
      → m.cell p ≡ none
      → Served
          (d ∷ past)
          (record s { waiting = s.waiting ++ p ∷ [] })
          (filled m p (connection al sockfd d))
  unfolding write
  waits past s m d p h ne free =
      let c = connection al sockfd d in
      let f = write m.cell p (some c) in
      let unused = free-unused m0.cell m.cell p s.waiting free h.blocks in
      let here : f p ≡ some c = ground arith in
      record {
        bounded = Bounded-filled m p c h.bounded;
        blocks =
            Blocks-snoc m0.cell f s.waiting p c
              (Blocks-write m0.cell m.cell p (some c) s.waiting unused h.blocks) unused ne here
              (sym (h.rest p unused) ∙ free);
        all = λ t. omega (
          arith,
          h.all t,
          held-append f t s.waiting (p ∷ []),
          held-write m.cell t p (some c) s.waiting unused,
          ap (tally t) here,
        );
        rest = λ a k.
            let old : used a s.waiting ≡ false = ground (arith, used-append a s.waiting (p ∷ [])) in
            let other : a == p ≡ false = ground (arith, used-append a s.waiting (p ∷ [])) in
            rw other (h.rest a old);
      }

  -- The allocator does not refuse while there is a free address.
  abbrev pub IsReliable : Type 0
  IsReliable = (n : Memory (ClientConnection A)) → Bounded n → al.malloc n ≢ null

  take_block :
      (past : List (Datagram A)) (s : Server A) (m : Memory (ClientConnection A)) (d : Datagram A)
      {p : Ptr} {m' : Memory (ClientConnection A)}
      → IsReliable
      → Served past s m
      → Allocated al m (connection al sockfd d) p m'
      → Ends (Served (d ∷ past)) (start_thread p s m')
  take_block past s m d reliable h (failed (n, b, e)) = absurd (reliable n b e)
  take_block past s m d reliable h (given p ne free) =
      rw (==_of_ne p null ne) (ends (waits past s m d p h ne free))

  receive_lem :
      (past : List (Datagram A)) (s : Server A) (m : Memory (ClientConnection A)) (d : Datagram A)
      → IsReliable
      → Served past s m
      → in_buf d.result ≡ true
      → Ends (Served (d ∷ past)) (receive al sockfd d s m)
  unfolding receive
  receive_lem past s m d reliable h fits = rw fits (
      Ends.seq (alloc_lem al (connection al sockfd d) m h.bounded)
        λ p m' a. take_block past s m d reliable h a)

  begin_lem :
      (past : List (Datagram A)) (s : Server A) (m : Memory (ClientConnection A)) (ts us : List Ptr)
      (p : Ptr)
      → Served past s m
      → s.waiting ≡ ts ++ p ∷ us
      → Ends (Served past) (begin_with ts us p s m)
  unfolding begin_with server_job write
  begin_lem past s m ts us p h e =
      let k = pick m0.cell m.cell ts us p (subst (Blocks m0.cell m.cell) e h.blocks) in
      rw (load-some m p k.here k.ne k.found, release-some m p k.here k.ne k.found)
        (ends (record {
          bounded = Bounded-cleared m p h.bounded;
          blocks = Blocks-write m0.cell m.cell p none (ts ++ us) k.once k.others;
          all = λ t. omega (
            arith,
            h.all t,
            ap (held m.cell t) e,
            count-append t s.answered (k.here ∷ []),
            held-append m.cell t ts (p ∷ us),
            held-append m.cell t ts us,
            held-write m.cell t p none (ts ++ us) k.once,
            ap (tally t) k.found,
          );
          rest = λ a q. elim (Bool-cases (a == p)) [
            | inl same ↦ rw same (sym (ap m0.cell (eq_of_== a p same) ∙ k.new))
            | inr other ↦
                let old : used a s.waiting ≡ false =
                  ap (used a) e ∙ ground (arith, used-append a ts (p ∷ us), used-append a ts us) in
                rw other (h.rest a old)
          ];
        }))

  -- Whatever the order in which the loop takes datagrams and the threads begin: if each result of
  -- `recvfrom` lies in the buffer and the allocator does not refuse, nothing crashes, the threads that
  -- have begun and those that wait have the connections of all datagrams, each as often as it came, no
  -- two threads share a block, and no memory but the blocks of the threads that wait has changed, so
  -- that what has been answered is freed (`Served`).
  pub Steps-Served :
      {past : List (Datagram A)} {o : Outcome (ClientConnection A) (Server A)}
      → Bounded m0
      → IsReliable
      → AllInBuf past
      → Steps al sockfd m0 past o
      → Ends (Served past) o
  Steps-Served b reliable h started =
      ends (record { bounded = b; blocks = tt; all = λ t. omega arith; rest = λ a k. refl })
  Steps-Served b reliable h (receives {past} {s} {m} d r) =
      receive_lem past s m d reliable (ended (Steps-Served b reliable h.1 r)) h.0
  Steps-Served b reliable h (begins {past} {s} {m} ts us args e r) =
      begin_lem past s m ts us args (ended (Steps-Served b reliable h r)) e
