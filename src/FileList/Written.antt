-- ===== src/FileList/Written.antt =====
-- What `form_file_str` writes, and when it stays inside its buffer.
use mathlib.Core.List.{append_assoc}
use innopolis_networks_s.Base.{
  ℕ, suc, ◌+◌, ◌-◌, ◌≤◌, ◌<◌, ◌≡◌, refl, ap, sym, ◌∙◌, true, false, none, some, List, [], ◌∷◌, ◌++◌,
  if◌then◌else◌, leb, pos, length, take, length-append, arith, Bool-cases, inl, inr,
}
use innopolis_networks_s.Text.{Text}
use innopolis_networks_s.Text.Tokens.{joined}
use innopolis_networks_s.FileList.{sprintf_at, form_loop, form_file_str}

-- each name with a comma behind it
abbrev pub listed : List Text → Text
listed [] = []
listed (n ∷ ns) = n ++ b',' ∷ listed ns

-- The names in brackets; of no names, only the bracket that closes.
abbrev pub listing : List Text → Text
listing [] = b']' ∷ []
listing (n ∷ ns) = b'[' ∷ (joined b',' (n ∷ ns) ++ b']' ∷ [])

pub take-append : (s t : Text) → take (length s) (s ++ t) ≡ s
take-append [] t = refl
take-append (c ∷ s) t = ap (λ r. c ∷ r) (take-append s t)

take-all : (s : Text) → take (length s) s ≡ s
take-all [] = refl
take-all (c ∷ s) = ap (λ r. c ∷ r) (take-all s)

pub listed-joined :
    (n : Text) (ns : List Text) → listed (n ∷ ns) ≡ joined b',' (n ∷ ns) ++ b',' ∷ []
unfolding joined
listed-joined n [] = refl
listed-joined n (k ∷ ns) =
    ap (λ r. n ++ b',' ∷ r) (listed-joined k ns)
    ∙ sym (append_assoc n (b',' ∷ joined b',' (k ∷ ns)) (b',' ∷ []))

-- With room for all names the loop leaves them behind `p`.
loop_fits :
    (cap offset : ℕ) (str p n : Text) (ns : List Text)
    → offset ≡ length p
    → take offset str ≡ p
    → offset + length (listed (n ∷ ns)) + 1 ≤ cap
    → form_loop cap offset str (n ∷ ns)
      ≡ some (offset + length (listed (n ∷ ns)), p ++ listed (n ∷ ns))
unfolding form_loop sprintf_at
loop_fits cap offset str p n [] at front room =
    let len = length-append n (b',' ∷ []) in
    let fits : leb (offset + length (n ++ b',' ∷ []) + 1) cap ≡ true = ground arith in
    let e : length n + 1 ≡ length (n ++ b',' ∷ []) = omega (arith, len) in rw (fits, front, e) refl
loop_fits cap offset str p n (k ∷ ns) at front room =
    let len = length-append n (b',' ∷ []) in
    let len' = length-append n (b',' ∷ listed (k ∷ ns)) in
    let len'' = length-append p (n ++ b',' ∷ []) in
    let fits : leb (offset + length (n ++ b',' ∷ []) + 1) cap ≡ true = ground arith in
    let next =
      loop_fits cap (offset + (length n + 1)) (p ++ (n ++ b',' ∷ [])) (p ++ (n ++ b',' ∷ [])) k ns
        (omega (arith, len, len'', at))
        (ap (λ i. take i (p ++ (n ++ b',' ∷ []))) (omega (arith, len, len'', at))
          ∙ take-all (p ++ (n ++ b',' ∷ [])))
        (omega (arith, len')) in
    let size : offset + (length n + 1) + length (listed (k ∷ ns))
        ≡ offset + length (listed (n ∷ k ∷ ns)) =
      omega (arith, len') in
    rw (fits, front)
      (next
        ∙ rw size (
            ap (λ r. some (offset + length (listed (n ∷ k ∷ ns)), r))
              (append_assoc p (n ++ b',' ∷ []) (listed (k ∷ ns))
                ∙ ap (λ r. p ++ r) (append_assoc n (b',' ∷ []) (listed (k ∷ ns))))))

-- Without it, it writes past the end.
loop_overflows :
    (cap offset : ℕ) (str n : Text) (ns : List Text)
    → cap < offset + length (listed (n ∷ ns)) + 1
    → form_loop cap offset str (n ∷ ns) ≡ none
unfolding form_loop sprintf_at
loop_overflows cap offset str n [] past =
    let over : leb (offset + length (n ++ b',' ∷ []) + 1) cap ≡ false = ground arith in rw over refl
loop_overflows cap offset str n (k ∷ ns) past =
    elim (Bool-cases (leb (offset + length (n ++ b',' ∷ []) + 1) cap)) [
      | inr e ↦ rw e refl
      | inl e ↦ rw e (
          loop_overflows cap (offset + (length n + 1)) _ k ns
            (omega (arith, length-append n (b',' ∷ listed (k ∷ ns)))))
    ]

opened_lem :
    (cap : ℕ) (str : Text)
    → 3 ≤ cap
    → sprintf_at cap 0 str (b'[' ∷ b']' ∷ []) ≡ some (b'[' ∷ b']' ∷ [])
unfolding sprintf_at
opened_lem cap str h = let fits : leb (0 + 2 + 1) cap ≡ true = ground arith in rw fits refl

-- the bracket is written over the last comma
closed_lem :
    (cap : ℕ) (n : Text) (ns : List Text)
    → length (listed (n ∷ ns)) + 2 ≤ cap
    → sprintf_at cap (1 + length (listed (n ∷ ns)) - 1) (b'[' ∷ listed (n ∷ ns)) (b']' ∷ [])
      ≡ some (listing (n ∷ ns))
unfolding sprintf_at
closed_lem cap n ns room =
    let j = joined b',' (n ∷ ns) in
    let e = listed-joined n ns in
    let len : length (listed (n ∷ ns)) ≡ length j + 1 = ap length e ∙ length-append j (b',' ∷ []) in
    let fits : leb (1 + length (listed (n ∷ ns)) - 1 + 1 + 1) cap ≡ true = ground arith in
    let at : 1 + length (listed (n ∷ ns)) - 1 ≡ suc (length j) = omega (arith, len) in
    rw (fits, at, e, take-append j (b',' ∷ [])) refl

size_lem :
    (n : Text) (ns : List Text) → 1 + length (listed (n ∷ ns)) + 1 ≡ length (listing (n ∷ ns)) + 1
size_lem n ns =
    let j = joined b',' (n ∷ ns) in
    let len : length (listed (n ∷ ns)) ≡ length j + 1 =
      ap length (listed-joined n ns) ∙ length-append j (b',' ∷ []) in
    omega (arith, len, length-append j (b']' ∷ []))

pub length-listing : (names : List Text) → length (listing names) ≤ length (listed names) + 1
length-listing [] = omega arith
length-listing (n ∷ ns) = omega (arith, size_lem n ns)

nil_lem :
    (cap : ℕ) (str : Text)
    → 3 ≤ cap
    → form_file_str cap (some []) str ≡ (if leb (0 + 2) cap then some (pos 2, b']' ∷ []) else none)
unfolding form_file_str form_loop sprintf_at
nil_lem cap str h =
    let fits : leb (0 + 2 + 1) cap ≡ true = ground arith in
    let fits' : leb (1 - 1 + 1 + 1) cap ≡ true = ground arith in rw (fits, fits') refl

-- `form_file_str` on a directory that can be read, with a buffer of three bytes or more: it writes the
-- names in brackets and returns one more than their length, if every byte that it ever writes, two and
-- for each name its length and one, fits the buffer; and else it writes past the end of the buffer.
pub form_file_str_lem :
    (cap : ℕ) (names : List Text) (str : Text)
    → 3 ≤ cap
    → form_file_str cap (some names) str ≡ (
        if leb (length (listed names) + 2) cap
        then some (pos (length (listing names) + 1), listing names)
        else none)
unfolding form_file_str
form_file_str_lem cap [] str h = nil_lem cap str h
form_file_str_lem cap (n ∷ ns) str h =
    let fits : leb (0 + 2 + 1) cap ≡ true = ground arith in
    elim (Bool-cases (leb (length (listed (n ∷ ns)) + 2) cap)) [
      | inr e ↦
          rw (e, opened_lem cap str h, loop_overflows cap 1 (b'[' ∷ b']' ∷ []) n ns (ground arith))
            refl
      | inl e ↦
          rw
            (
              e,
              opened_lem cap str h,
              loop_fits cap 1 (b'[' ∷ b']' ∷ []) (b'[' ∷ []) n ns refl refl (ground arith),
              closed_lem cap n ns (ground arith),
            )
            (ap (λ k. some (pos k, listing (n ∷ ns))) (size_lem n ns))
    ]
