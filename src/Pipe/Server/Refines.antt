-- ===== src/Pipe/Server/Refines.antt =====
-- The server with its stack in memory does what the specification says.
use innopolis_networks_s.Base.{
  zero, suc, ◌+◌, ◌<◌, ◌≡◌, refl, ◌≢◌, ◌⊎◌, inl, inr, Bool, true, false, Option, none, some, List,
  [], ◌∷◌, ◌++◌, arith, Bool-cases, length, size_max, ℤ, pos, negsuc, ◌==ℤ◌, ◌∙◌,
}
use innopolis_networks_s.Memory.{Ptr, null, Memory, Allocator, write, put}
use innopolis_networks_s.Memory.Ends
use innopolis_networks_s.Memory.Ends.{Ends, ends}
use innopolis_networks_s.Memory.Alloc.{Bounded-cleared}
use innopolis_networks_s.Stack.{Obj, stack_block, Stack}
use innopolis_networks_s.Stack.Layout.{Cell, values, Holds}
use innopolis_networks_s.Memory.Access.{release-some}
use innopolis_networks_s.Stack.Clear.{stack_clear_lem}
use innopolis_networks_s.Pipe.Codes.{Request, server_exit}
use innopolis_networks_s.Pipe.Server.{
  Message, stopped, read_failed, respond_failed, Status, serving, exited, Server, Round, shut_down,
  respond, answer, read_round, serve_round,
}
use innopolis_networks_s.Pipe.Server.Spec.{
  Op, quit, op_of, perform, MayRefuse, Served, is_quit, close, conclude, respond_to, after_read,
  perform_round,
}
use innopolis_networks_s.Pipe.Server.Dispatch.{
  Performed, performed, dispatch_lem, not_node, always, length-values,
}

-- The server and the specification agree: they printed the same, and either the stack in memory
-- holds the items, or both have ended and the stack and its structure are freed.
pub data Agrees (m : Memory Obj) : Server → Served → Type 0 where
  live :
      (s : Stack) (b : Ptr) (l : List Message) (cs : List Cell)
      → Holds m s cs
      → b ≢ null
      → m.cell b ≡ some stack_block
      → Agrees m
          (record { stack = s; block = b; log = l; status = serving })
          (record { items = values cs; log = l; status = serving })
  dead :
      (s : Stack) (b : Ptr) (l : List Message) (n : ℤ)
      → Holds m s []
      → (b ≡ null) ⊎ (m.cell b ≡ none)
      → Agrees m
          (record { stack = s; block = b; log = l; status = exited n })
          (record { items = []; log = l; status = exited n })

Holds-nil : (m : Memory Obj) (b : Ptr) (s : Stack) → Holds m s [] → Holds (put m b none) s []
Holds-nil m b s h = record {
  top = h.top;
  size = h.size;
  fits = h.fits;
  chain = tt;
  bounded = Bounded-cleared m b h.bounded;
}

shut_down_lem :
    (m : Memory Obj) (s : Stack) (b : Ptr) (l : List Message) (cs : List Cell) (why : Message)
    (n : ℤ) (st : Status)
    → Holds m s cs
    → b ≢ null
    → m.cell b ≡ some stack_block
    → Ends
        (λ srv m'. Agrees m' srv (record { items = []; log = l ++ why ∷ []; status = exited n }))
        (shut_down (record { stack = s; block = b; log = l; status = st }) why n m)
unfolding shut_down write
shut_down_lem m s b l cs why n st h ne is =
    Ends.seq (stack_clear_lem m s cs h) λ s' m' (holds, gone).
      let is' : m'.cell b ≡ some stack_block = gone b ∙ rw (not_node m.cell b cs h.chain is) is in
      rw (release-some m' b stack_block ne is')
        (ends {m = put m' b none} (dead s' b _ n (Holds-nil m' b s' holds) (inr (ground arith))))

op_of-quit : (c : ℤ) → is_quit (op_of c) ≡ (c ==ℤ server_exit)
unfolding op_of
op_of-quit (negsuc (suc zero)) = refl
op_of-quit (negsuc zero) = refl
op_of-quit (negsuc (suc (suc n))) = ground arith
op_of-quit (pos zero) = refl
op_of-quit (pos (suc zero)) = refl
op_of-quit (pos (suc (suc zero))) = refl
op_of-quit (pos (suc (suc (suc zero)))) = refl
op_of-quit (pos (suc (suc (suc (suc zero))))) = refl
op_of-quit (pos (suc (suc (suc (suc (suc zero)))))) = refl
op_of-quit (pos (suc (suc (suc (suc (suc (suc zero))))))) = refl
op_of-quit (pos (suc (suc (suc (suc (suc (suc (suc n)))))))) = refl

respond_to-quit :
    (o : Op) (ok w : Bool) (v : ℤ) (a : Served)
    → is_quit o ≡ true
    → respond_to ok o v w a ≡ close a (stopped ∷ []) (pos 0)
respond_to-quit quit ok w v a e = refl
respond_to-quit _ ok w v a e = cc

respond_to-perform :
    (o : Op) (ok w : Bool) (v : ℤ) (a : Served)
    → is_quit o ≡ false
    → respond_to ok o v w a ≡ conclude w (perform ok o v a.items) a.log
respond_to-perform quit ok w v a e = cc
respond_to-perform _ ok w v a e = refl

module _ (al : Allocator Obj) where
  -- The server after a round, for some answer of the allocator.
  abbrev pub Reached : Round → Served → Server → Memory Obj → Type 0
  Reached r a srv m = (ok : Bool) × MayRefuse al ok × Agrees m srv (perform_round ok r a)

  respond_lem :
      (m : Memory Obj) (s : Stack) (b : Ptr) (l out : List Message) (cs : List Cell) (w : Bool)
      → Holds m s cs
      → b ≢ null
      → m.cell b ≡ some stack_block
      → Ends
          (λ srv m'. Agrees m' srv (conclude w (values cs, out) l))
          (respond al w (record { stack = s; block = b; log = l ++ out; status = serving }) m)
  unfolding respond
  respond_lem m s b l out cs true h ne is = ends (live s b _ cs h ne is)
  respond_lem m s b l out cs false h ne is =
      shut_down_lem m s b (l ++ out) cs respond_failed (negsuc 0) serving h ne is

  after_dispatch :
      (m n : Memory Obj) (b : Ptr) (l : List Message) (cs : List Cell) (w : Bool) (o : Op) (v : ℤ)
      (s : Stack) (out : List Message)
      → b ≢ null
      → m.cell b ≡ some stack_block
      → Performed al m o v cs (s, out) n
      → Ends
          (λ srv m'.
            (ok : Bool) × MayRefuse al ok
            × Agrees m' srv (conclude w (perform ok o v (values cs)) l))
          (respond al w (record { stack = s; block = b; log = l ++ out; status = serving }) n)
  after_dispatch m n b l cs w o v s out ne is (performed ok cs' may h e spare) =
      Ends.weaken (respond_lem n s b l out cs' w h ne (spare b is)) λ srv m' g. (ok, may, rw e g)

  answer_lem :
      (q : Request) (w : Bool) (m : Memory Obj) (s : Stack) (b : Ptr) (l : List Message)
      (cs : List Cell)
      → Holds m s cs
      → b ≢ null
      → m.cell b ≡ some stack_block
      → length cs + 1 < size_max
      → Ends
          (λ srv m'.
            (ok : Bool) × MayRefuse al ok
            × Agrees m' srv (
                respond_to ok
                  (op_of q.code)
                  q.arg
                  w
                  (record { items = values cs; log = l; status = serving })))
          (answer al q w (record { stack = s; block = b; log = l; status = serving }) m)
  unfolding answer
  answer_lem q w m s b l cs h ne is room = elim (Bool-cases (q.code ==ℤ server_exit)) [
    | inl e ↦ rw e (
        Ends.weaken (shut_down_lem m s b l cs stopped (pos 0) serving h ne is) λ srv m' g. (
          true,
          always al,
          rw (respond_to-quit (op_of q.code) true w q.arg _ (op_of-quit q.code ∙ e)) g,
        ))
    | inr e ↦ rw e (
        Ends.seq (dispatch_lem al m s cs q.code q.arg h room) λ (s', out) n p.
          Ends.weaken (after_dispatch m n b l cs w (op_of q.code) q.arg s' out ne is p)
            λ srv m' (ok, may, g). (
              ok,
              may,
              rw (respond_to-perform (op_of q.code) ok w q.arg _ (op_of-quit q.code ∙ e)) g,
            ))
  ]

  read_lem :
      (r : Option Request) (w : Bool) (m : Memory Obj) (s : Stack) (b : Ptr) (l : List Message)
      (cs : List Cell)
      → Holds m s cs
      → b ≢ null
      → m.cell b ≡ some stack_block
      → length cs + 1 < size_max
      → Ends
          (λ srv m'.
            (ok : Bool) × MayRefuse al ok
            × Agrees m' srv
                (after_read ok r w (record { items = values cs; log = l; status = serving })))
          (read_round al r w (record { stack = s; block = b; log = l; status = serving }) m)
  read_lem none w m s b l cs h ne is room =
      Ends.weaken (shut_down_lem m s b l cs read_failed (negsuc 0) serving h ne is)
        λ srv m' g. (true, always al, g)
  read_lem (some q) w m s b l cs h ne is room = answer_lem q w m s b l cs h ne is room

  -- One round of the server, from a state that agrees with the specification's and has room for one
  -- more item, ends in a state that agrees with the specification's state after the round, for some
  -- answer that the allocator can give (`Reached`).
  pub round_lem :
      (r : Round) (m : Memory Obj) (srv : Server) (a : Served)
      → Agrees m srv a
      → length a.items + 1 < size_max
      → Ends (Reached r a) (serve_round al r srv m)
  unfolding serve_round perform_round
  round_lem r m srv a (live s b l cs h ne is) room =
      read_lem r.read r.write_ok m s b l cs h ne is (omega (arith, length-values cs))
  round_lem r m srv a (dead s b l n h freed) room = ends (true, always al, dead s b l n h freed)
