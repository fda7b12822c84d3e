-- ===== src/Pipe/Server/Dispatch.antt =====
-- The server's `switch` on a stack in memory, against the specification's operations.
use innopolis_networks_s.Base.{
  inl, inr, ℕ, zero, suc, ◌+◌, ◌<◌, ◌≡◌, refl, Bool, true, false, not, Option, some, List, [], ◌∷◌,
  arith, ==_of_ne, length, size_max, ℤ, pos, negsuc, ltb, if◌then◌else◌, ◌==ℤ◌, ap, ◌∙◌,
}
use innopolis_networks_s.Memory.{Ptr, Memory, Allocator, write, pure, ◌>>=◌, ◌>>◌}
use innopolis_networks_s.Memory.Ends
use innopolis_networks_s.Memory.Ends.{Ends, ends}
use innopolis_networks_s.Stack.{
  Obj, stack_block, Stack, empty_stack, push_failed, stack_push_int, stack_clear, stack_peek_int,
  stack_pop_int,
}
use innopolis_networks_s.Stack.Layout.{Cell, values, node_at, Chain, Holds}
use innopolis_networks_s.Stack.Laws.{
  stack_peek_int-cons, stack_peek_int-nil, stack_pop_int-cons, stack_pop_int-nil,
}
use innopolis_networks_s.Stack.Push.{Pushed, pushed, full, stack_push_int_lem}
use innopolis_networks_s.Stack.Clear.{stack_clear_lem, display_stack_lem}
use innopolis_networks_s.Pipe.Server
use innopolis_networks_s.Pipe.Server.{
  Message, peeked, popped, created, size_is, is_empty, displayed, help, not_pushed, dispatch,
}
use innopolis_networks_s.Pipe.Server.Spec.{
  Op, peek, pop, push, clear, op_of, perform, nil?, MayRefuse,
}

-- The block of the stack structure is left alone.
abbrev pub Spares : Memory Obj → Memory Obj → Type 0
Spares m m' = (b : Ptr) → m.cell b ≡ some stack_block → m'.cell b ≡ some stack_block

pub length-values : (cs : List Cell) → length (values cs) ≡ length cs
length-values [] = refl
length-values (c ∷ cs) = ap suc (length-values cs)

emptiness-values : (n : ℕ) (cs : List Cell) → n ≡ length cs → nil? (values cs) ≡ not (ltb 0 n)
emptiness-values n [] e = rw e
emptiness-values n (c ∷ cs) e = ground arith

-- The stack after the operation, and what is printed, are as `perform` says.
pub data Performed (al : Allocator Obj) (m : Memory Obj) (o : Op) (v : ℤ) (cs : List Cell)
    : Stack × List Message → Memory Obj → Type 0 where
  performed :
      {s' : Stack} {out : List Message} {m' : Memory Obj} (ok : Bool) (cs' : List Cell)
      → MayRefuse al ok
      → Holds m' s' cs'
      → perform ok o v (values cs) ≡ (values cs', out)
      → Spares m m'
      → Performed al m o v cs (s', out) m'

pub not_node :
    (f : Ptr → Option Obj) (b : Ptr) (cs : List Cell)
    → Chain f cs
    → f b ≡ some stack_block
    → node_at b cs ≡ false
not_node f b [] h e = refl
not_node f b (c ∷ cs) h e = ground (arith, not_node f b cs h.5 e)

pub always : (al : Allocator Obj) → MayRefuse al true
always al = inl refl

module _ (al : Allocator Obj) (m : Memory Obj) (s : Stack) where
  peek_lem :
      (cs : List Cell) (v : ℤ)
      → Holds m s cs
      → Ends (Performed al m peek v cs) ((do x ← stack_peek_int s; pure (s, peeked x ∷ [])) m)
  unfolding perform
  peek_lem [] v h =
      rw (stack_peek_int-nil m s h) (ends (performed true [] (always al) h refl (λ b e. e)))
  peek_lem (c ∷ cs) v h =
      rw (stack_peek_int-cons m s c cs h)
        (ends (performed true (c ∷ cs) (always al) h refl (λ b e. e)))

  pop_lem :
      (cs : List Cell) (v : ℤ)
      → Holds m s cs
      → Ends (Performed al m pop v cs) ((do (s', x) ← stack_pop_int s; pure (s', popped x ∷ [])) m)
  unfolding perform write
  pop_lem [] v h =
      rw (stack_pop_int-nil m s h) (ends (performed true [] (always al) h refl (λ b e. e)))
  pop_lem (c ∷ cs) v h =
      Ends.seq (stack_pop_int-cons m s c cs h) λ (s', x) m' (e, (holds, cleared)). ends (
        performed true cs (always al) holds (rw e)
          λ b is. rw cleared (ground (arith, h.top, h.chain.2)))

  after_push :
      (cs : List Cell) (v : ℤ) (r : Stack × ℤ) (m' : Memory Obj)
      → Pushed al m s v cs r m'
      → Ends (Performed al m push v cs) (
          (if r.1 ==ℤ push_failed
              then pure (r.0, not_pushed ∷ [])
              else (do x ← stack_peek_int r.0; pure (r.0, Server.pushed x ∷ [])))
            m')
  unfolding perform
  after_push cs v r m' (pushed {s' = t} {m' = n} c e h k) =
      rw (stack_peek_int-cons n t c cs h, e)
        (ends (performed true (c ∷ cs) (always al) h (rw e) λ b is. k b (rw is (λ u. cc)) ∙ is))
  after_push cs v r m' (full e h k) =
      ends (performed false cs (inr e) h refl λ b is. k b (rw is (λ u. cc)) ∙ is)

  push_lem :
      (cs : List Cell) (v : ℤ)
      → Holds m s cs
      → length cs + 1 < size_max
      → Ends (Performed al m push v cs) (
          (do
            (s', r) ← stack_push_int al s v
            if r ==ℤ push_failed
                then pure (s', not_pushed ∷ [])
                else (do x ← stack_peek_int s'; pure (s', Server.pushed x ∷ [])))
            m)
  push_lem cs v h room =
      Ends.seq (stack_push_int_lem al m s cs v h room) λ r m' q. after_push cs v r m' q

  clear_lem :
      (cs : List Cell) (v : ℤ)
      → Holds m s cs
      → Ends (Performed al m clear v cs) ((do stack_clear s; pure (empty_stack, created ∷ [])) m)
  unfolding perform
  clear_lem cs v h = Ends.seq (stack_clear_lem m s cs h) λ s' m' (holds, gone). ends (
      performed true [] (always al)
        (record {
          top = refl;
          size = refl;
          fits = omega arith;
          chain = tt;
          bounded = holds.bounded;
        })
        refl λ b is. gone b ∙ (rw (not_node m.cell b cs h.chain is) is))

  -- For every request code, the unknown ones included, the `switch` on a stack in memory with room for
  -- one more leaves the items and prints the messages that `perform` gives for the code's operation,
  -- for some answer that the allocator can give (`Performed`).
  pub dispatch_lem :
      (cs : List Cell) (c v : ℤ)
      → Holds m s cs
      → length cs + 1 < size_max
      → Ends (Performed al m (op_of c) v cs) (dispatch al (record { code = c; arg = v }) s m)
  unfolding op_of dispatch perform
  dispatch_lem cs (negsuc (suc zero)) v h room =
      ends (performed true cs (always al) h refl (λ b e. e))
  dispatch_lem cs (negsuc zero) v h room = ends (performed true cs (always al) h refl (λ b e. e))
  dispatch_lem cs (negsuc (suc (suc n))) v h room =
      rw (==_of_ne (suc (suc n)) 1 (omega arith))
        (ends (performed true cs (always al) h refl (λ b e. e)))
  dispatch_lem cs (pos zero) v h room = peek_lem cs v h
  dispatch_lem cs (pos (suc zero)) v h room = pop_lem cs v h
  dispatch_lem cs (pos (suc (suc zero))) v h room = push_lem cs v h room
  dispatch_lem cs (pos (suc (suc (suc zero)))) v h room = clear_lem cs v h
  dispatch_lem cs (pos (suc (suc (suc (suc zero))))) v h room =
      ends (performed true cs (always al) h (rw (length-values cs, h.size)) (λ b e. e))
  dispatch_lem cs (pos (suc (suc (suc (suc (suc zero)))))) v h room =
      ends (performed true cs (always al) h (rw (emptiness-values s.size cs h.size)) (λ b e. e))
  dispatch_lem cs (pos (suc (suc (suc (suc (suc (suc zero))))))) v h room =
      rw (display_stack_lem m s cs h) (ends (performed true cs (always al) h refl (λ b e. e)))
  dispatch_lem cs (pos (suc (suc (suc (suc (suc (suc (suc n)))))))) v h room =
      let k = suc (suc (suc (suc (suc (suc (suc n)))))) in
      rw
        (
          ==_of_ne k 0 (omega arith),
          ==_of_ne k 1 (omega arith),
          ==_of_ne k 2 (omega arith),
          ==_of_ne k 3 (omega arith),
          ==_of_ne k 4 (omega arith),
          ==_of_ne k 5 (omega arith),
          ==_of_ne k 6 (omega arith),
        )
        (ends (performed true cs (always al) h refl (λ b e. e)))
