-- ===== src/Peers/Pool.antt =====
-- The pool of nodes while the peers of another node come in, one after the other.
use mathlib.Core.List.{append_assoc}
use innopolis_networks_s.Base.{
  ◌⊎◌, sym, ℕ, ◌+◌, ◌<◌, ◌≤◌, ◌≡◌, refl, ap, subst, Bool, true, false, ◌||◌, List, [], ◌∷◌, ◌++◌,
  arith, length, size_max, Bool-cases, inl, inr, length-append,
}
use innopolis_networks_s.Memory.{Memory, Allocator}
use innopolis_networks_s.Memory.Alloc.{Refuses}
use innopolis_networks_s.Memory.Ends
use innopolis_networks_s.Memory.Ends.{Ends, ends}
use innopolis_networks_s.LinkedList.{Node, LinkedList}
use innopolis_networks_s.LinkedList.Layout.{Cell, IsList}
use innopolis_networks_s.LinkedList.Frame.{Spared, Spared-refl, Spared-trans, Spared-insert}
use innopolis_networks_s.LinkedList.Insert.{Inserted, inserted, refused}
use innopolis_networks_s.Peers.{parse_peer, parse_peers}
use innopolis_networks_s.Peers.Laws.{Absent, parse_peer-known, parse_peer-new}

module _ {V : Type 0} where
  abbrev pub known : (V → Bool) → List (Cell V) → Bool
  known p [] = false
  known p (c ∷ cs) = p c.val || known p cs

  pub record Found (p : V → Bool) (cs : List (Cell V)) : Type 0 where
    pub before : List (Cell V)
    pub here : Cell V
    pub behind : List (Cell V)
    pub whole : cs ≡ before ++ here ∷ behind
    pub absent : Absent p before
    pub found : p here.val ≡ true

  pub Absent-known : (p : V → Bool) (cs : List (Cell V)) → known p cs ≡ false → Absent p cs
  Absent-known p [] h = tt
  Absent-known p (c ∷ cs) h = (ground arith, Absent-known p cs (ground arith))

  pub known-Found : (p : V → Bool) (cs : List (Cell V)) → known p cs ≡ true → Found p cs
  known-Found p [] h = cc
  known-Found p (c ∷ cs) h = elim (Bool-cases (p c.val)) [
    | inl e ↦ record { before = []; here = c; behind = cs; whole = refl; absent = tt; found = e }
    | inr e ↦
        let f = known-Found p cs (ground arith) in
        record {
          before = c ∷ f.before;
          here = f.here;
          behind = f.behind;
          whole = ap (λ r. c ∷ r) f.whole;
          absent = (e, f.absent);
          found = f.found;
        }
  ]

  known-append :
      (p : V → Bool) (xs cs : List (Cell V)) → known p cs ≡ true → known p (xs ++ cs) ≡ true
  known-append p [] cs h = h
  known-append p (x ∷ xs) cs h = ground (arith, known-append p xs cs h)

  module _ (memcmp_eq : V → V → Bool) where
    -- No node is found equal to one behind it.
    abbrev pub AllDifferent : List (Cell V) → Type 0
    AllDifferent [] = Unit
    AllDifferent (c ∷ cs) = Absent (memcmp_eq c.val) cs × AllDifferent cs

    abbrev pub AllKnown : List V → List (Cell V) → Type 0
    AllKnown [] cs = Unit
    AllKnown (p ∷ ps) cs = (known (memcmp_eq p) cs ≡ true) × AllKnown ps cs

    -- Each of `xs` is found equal to none behind it in `xs` and to none of `cs`.
    abbrev pub AllNew : (xs cs : List (Cell V)) → Type 0
    AllNew [] cs = Unit
    AllNew (x ∷ xs) cs = Absent (memcmp_eq x.val) (xs ++ cs) × AllNew xs cs

    AllNew-append :
        (xs ys cs : List (Cell V)) → AllNew xs (ys ++ cs) → AllNew ys cs → AllNew (xs ++ ys) cs
    AllNew-append [] ys cs h k = k
    AllNew-append (x ∷ xs) ys cs h k = (
      subst (Absent (memcmp_eq x.val)) (sym (append_assoc xs ys cs)) h.0,
      AllNew-append xs ys cs h.1 k,
    )

    AllDifferent-append :
        (xs cs : List (Cell V)) → AllNew xs cs → AllDifferent cs → AllDifferent (xs ++ cs)
    AllDifferent-append [] cs h k = k
    AllDifferent-append (x ∷ xs) cs h k = (h.0, AllDifferent-append xs cs h.1 k)

    AllKnown-append :
        (ps : List V) (xs cs : List (Cell V)) → AllKnown ps cs → AllKnown ps (xs ++ cs)
    AllKnown-append [] xs cs h = tt
    AllKnown-append (p ∷ ps) xs cs h =
        (known-append (memcmp_eq p) xs cs h.0, AllKnown-append ps xs cs h.1)

    -- The pool `cs` with new nodes before it: none that was there, no more than the peers that came, and
    -- all of these unless the allocator can refuse; and no object outside the pool has changed.
    pub record Grown (al : Allocator (Node V)) (m : Memory (Node V)) (cs : List (Cell V))
        (ps : List V) (l' : LinkedList) (m' : Memory (Node V)) : Type 0 where
      pub fresh : List (Cell V)
      pub list : IsList m' l' (fresh ++ cs)
      pub new : AllNew fresh cs
      pub few : length fresh ≤ length ps
      pub spared : Spared m cs m' (fresh ++ cs)
      pub all_known : AllKnown ps (fresh ++ cs) ⊎ Refuses al

    module _ (al : Allocator (Node V)) (memcmp_refl : (v : V) → memcmp_eq v v ≡ true) where
      from_Inserted :
          (m : Memory (Node V)) (l : LinkedList) (p : V) (cs : List (Cell V)) {l' : LinkedList}
          {r : ℕ} {m' : Memory (Node V)}
          → Absent (memcmp_eq p) cs
          → Inserted al m l p [] cs (l', r) m'
          → Grown al m cs (p ∷ []) l' m'
      from_Inserted m l p cs {m'} absent (inserted c e free list same) = record {
        fresh = c ∷ [];
        list = list;
        new = (rw e absent, tt);
        few = omega arith;
        spared = Spared-insert m m' [] cs c free same;
        all_known = inl (ground (arith, memcmp_refl p, ap (memcmp_eq p) e), tt);
      }
      from_Inserted m l p cs {m'} absent (refused may list same) = record {
        fresh = [];
        list = list;
        new = tt;
        few = omega arith;
        spared = Spared-refl m m' cs same;
        all_known = inr may;
      }

      parse_one :
          (m : Memory (Node V)) (l : LinkedList) (p : V) (cs : List (Cell V))
          → IsList m l cs
          → length cs + 1 < size_max
          → Ends (Grown al m cs (p ∷ [])) (parse_peer memcmp_eq al l p m)
      parse_one m l p cs h room = elim (Bool-cases (known (memcmp_eq p) cs)) [
        | inl e ↦
            let f = known-Found (memcmp_eq p) cs e in
            let h' : IsList m l (f.before ++ f.here ∷ f.behind) = subst (IsList m l) f.whole h in
            rw (parse_peer-known memcmp_eq m l al p f.before f.behind f.here h' f.absent f.found) (
              ends (record {
                fresh = [];
                list = h;
                new = tt;
                few = omega arith;
                spared = Spared-refl m m cs refl;
                all_known = inl (e, tt);
              }))
        | inr e ↦
            let absent = Absent-known (memcmp_eq p) cs e in
            Ends.weaken (parse_peer-new memcmp_eq m l al p cs h room absent)
              λ l' m' (r, q). from_Inserted m l p cs absent q
      ]

      join :
          (m : Memory (Node V)) (cs : List (Cell V)) (p : V) (ps : List V) {l1 l2 : LinkedList}
          {m1 m2 : Memory (Node V)} (g : Grown al m cs (p ∷ []) l1 m1)
          → Grown al m1 (g.fresh ++ cs) ps l2 m2
          → Grown al m cs (p ∷ ps) l2 m2
      join m cs p ps {l2} {m1} {m2} g k =
          let same = append_assoc k.fresh g.fresh cs in
          record {
            fresh = k.fresh ++ g.fresh;
            list = subst (IsList m2 l2) (sym same) k.list;
            new = AllNew-append k.fresh g.fresh cs k.new g.new;
            few = omega (arith, g.few, k.few, length-append k.fresh g.fresh);
            spared = subst (Spared m cs m2) (sym same) (
                Spared-trans m m1 m2 cs (g.fresh ++ cs) (k.fresh ++ (g.fresh ++ cs)) g.spared
                  k.spared);
            all_known = elim g.all_known [
              | inr may ↦ inr may
              | inl first ↦ elim k.all_known [
                | inr may ↦ inr may
                | inl others ↦ inl (
                  subst (λ ds. known (memcmp_eq p) ds ≡ true) (sym same)
                      (known-append (memcmp_eq p) k.fresh (g.fresh ++ cs) first.0),
                  subst (AllKnown ps) (sym same) others,
                )
              ]
            ];
          }

      -- The pool grows as `Grown` says, also where it has duplicates.
      pub grow_lem :
          (ps : List V) (m : Memory (Node V)) (l : LinkedList) (cs : List (Cell V))
          → IsList m l cs
          → length cs + length ps < size_max
          → Ends (Grown al m cs ps) (parse_peers memcmp_eq al l ps m)
      unfolding parse_peers
      grow_lem [] m l cs h room = ends (record {
        fresh = [];
        list = h;
        new = tt;
        few = omega arith;
        spared = Spared-refl m m cs refl;
        all_known = inl tt;
      })
      grow_lem (p ∷ ps) m l cs h room = Ends.seq (parse_one m l p cs h (omega arith)) λ l1 m1 g.
          Ends.weaken
            (grow_lem ps m1 l1 (g.fresh ++ cs) g.list
              (omega (arith, g.few, length-append g.fresh cs)))
            λ l2 m2 k. join m cs p ps g k

      -- Whatever peers another node names, the loop of `send_sync` over them keeps a pool without
      -- duplicates free of duplicates, keeps every node that it had, adds no more nodes than came,
      -- knows every peer in the end unless the allocator can refuse, and changes no object outside the
      -- pool (`Grown`), as long as `memcmp` finds each node equal to itself and the pool stays below the
      -- greatest size.
      pub parse_peers_lem :
          (ps : List V) (m : Memory (Node V)) (l : LinkedList) (cs : List (Cell V))
          → IsList m l cs
          → AllDifferent cs
          → length cs + length ps < size_max
          → Ends
              (λ l' m'. (g : Grown al m cs ps l' m') × AllDifferent (g.fresh ++ cs))
              (parse_peers memcmp_eq al l ps m)
      parse_peers_lem ps m l cs h diff room =
          Ends.weaken (grow_lem ps m l cs h room)
            λ l' m' g. (g, AllDifferent-append g.fresh cs g.new diff)
