-- ===== src/Text/Tokens.antt =====
-- What `strtok` finds in a text that is put together from words.
use innopolis_networks_s.Base.{
  false, ◌==◌, subst, Bool-cases, Option-cases, inl, inr, ℕ, zero, suc, ◌+◌, ◌≤◌, ◌<◌, ◌≡◌, ◌≢◌,
  refl, ap, some, List, [], ◌∷◌, ◌++◌, ==_of_ne, ==_of_eq, length, length-append, arith,
}
use innopolis_networks_s.Text.{token_of, Text, skip, token, behind, strtok, token_loop, tokens}

-- The delimiter stands nowhere in the text.
abbrev pub Without : ℕ → Text → Type 0
Without d [] = Unit
Without d (c ∷ cs) = (c ≢ d) × Without d cs

-- A word: not empty, and without the delimiter.
abbrev pub IsWord : ℕ → Text → Type 0
IsWord d [] = ⊥
IsWord d (c ∷ cs) = (c ≢ d) × Without d cs

abbrev pub AllWords : ℕ → List Text → Type 0
AllWords d [] = Unit
AllWords d (w ∷ ws) = IsWord d w × AllWords d ws

pub Without-append : (d : ℕ) (s t : Text) → Without d s → Without d t → Without d (s ++ t)
Without-append d [] t h k = k
Without-append d (c ∷ s) t h k = (h.0, Without-append d s t h.1 k)

pub token-delimiter : (d : ℕ) (w s : Text) → Without d w → token d (w ++ d ∷ s) ≡ w
unfolding token
token-delimiter d [] s h = rw (==_of_eq d d refl) refl
token-delimiter d (c ∷ w) s h = rw (==_of_ne c d h.0, token-delimiter d w s h.1) refl

behind-delimiter : (d : ℕ) (w s : Text) → Without d w → behind d (w ++ d ∷ s) ≡ s
unfolding behind
behind-delimiter d [] s h = rw (==_of_eq d d refl) refl
behind-delimiter d (c ∷ w) s h = rw (==_of_ne c d h.0, behind-delimiter d w s h.1) refl

pub token-end : (d : ℕ) (w : Text) → Without d w → token d w ≡ w
unfolding token
token-end d [] h = refl
token-end d (c ∷ w) h = rw (==_of_ne c d h.0, token-end d w h.1) refl

behind-end : (d : ℕ) (w : Text) → Without d w → behind d w ≡ []
unfolding behind
behind-end d [] h = refl
behind-end d (c ∷ w) h = rw (==_of_ne c d h.0, behind-end d w h.1) refl

-- the word before a delimiter
pub strtok-delimiter : (d : ℕ) (w s : Text) → IsWord d w → strtok d (w ++ d ∷ s) ≡ some (w, s)
unfolding strtok skip
strtok-delimiter d [] s h = absurd h
strtok-delimiter d (c ∷ w) s h =
    rw (==_of_ne c d h.0, token-delimiter d (c ∷ w) s h, behind-delimiter d (c ∷ w) s h) refl

-- the last word
pub strtok-end : (d : ℕ) (w : Text) → IsWord d w → strtok d w ≡ some (w, [])
unfolding strtok skip
strtok-end d [] h = absurd h
strtok-end d (c ∷ w) h = rw (==_of_ne c d h.0, token-end d (c ∷ w) h, behind-end d (c ∷ w) h) refl

-- Words with a delimiter between each two of them.
unfoldable pub joined : ℕ → List Text → Text
joined d [] = []
joined d (w ∷ []) = w
joined d (w ∷ v ∷ ws) = w ++ d ∷ joined d (v ∷ ws)

length-joined : (d : ℕ) (ws : List Text) → AllWords d ws → length ws ≤ length (joined d ws)
unfolding joined
length-joined d [] h = omega arith
length-joined d ([] ∷ ws) h = absurd h.0
length-joined d ((c ∷ w) ∷ []) h = omega arith
length-joined d ((c ∷ w) ∷ v ∷ ws) h =
    omega (arith, length-joined d (v ∷ ws) h.1, length-append w (d ∷ joined d (v ∷ ws)))

length-behind : (d : ℕ) (s : Text) → length (behind d s) ≤ length s
unfolding behind
length-behind d [] = omega arith
length-behind d (c ∷ cs) = ground (arith, length-behind d cs)

length-skip : (d : ℕ) (s : Text) → length (skip d s) ≤ length s
unfolding skip
length-skip d [] = omega arith
length-skip d (c ∷ cs) = ground (arith, length-skip d cs)

-- Past a byte that is no delimiter, less is left than there was.
length-behind_first : (d c : ℕ) (s : Text) → (c == d) ≡ false → length (behind d (c ∷ s)) ≤ length s
unfolding behind
length-behind_first d c s h = rw h (length-behind d s)

token_loop-joined :
    (fuel d : ℕ) (ws : List Text)
    → AllWords d ws
    → length ws < fuel
    → token_loop fuel d (joined d ws) ≡ ws
unfolding token_loop joined strtok skip
token_loop-joined zero d ws h enough = absurd (omega arith)
token_loop-joined (suc fuel) d [] h enough = refl
token_loop-joined (suc zero) d (w ∷ ws) h enough = absurd (omega arith)
token_loop-joined (suc (suc fuel)) d (w ∷ []) h enough = rw (token_loop, strtok-end d w h.0) refl
token_loop-joined (suc (suc fuel)) d (w ∷ v ∷ ws) h enough =
    rw (token_loop, strtok-delimiter d w (joined d (v ∷ ws)) h.0)
      (ap (λ r. w ∷ r) (token_loop-joined (suc fuel) d (v ∷ ws) h.1 (omega arith)))

-- The loop over `strtok` finds the words that a text was put together from, each once and in order.
pub tokens-joined : (d : ℕ) (ws : List Text) → AllWords d ws → tokens d (joined d ws) ≡ ws
unfolding tokens
tokens-joined d ws h =
    token_loop-joined (length (joined d ws) + 1) d ws h (omega (arith, length-joined d ws h))

skip-first : (d c : ℕ) (s cs : Text) → skip d s ≡ c ∷ cs → (c == d) ≡ false
unfolding skip
skip-first d c [] cs e = cc
skip-first d c (b ∷ s) cs e = elim (Bool-cases (b == d)) [
  | inl y ↦ skip-first d c s cs (ground (arith, y))
  | inr n ↦ let h : b ∷ s ≡ c ∷ cs = ground (arith, n) in let k : b ≡ c = cc in rw (← k) n
]

strtok-shorter :
    (d : ℕ) (s t : Text) (w rest : Text)
    → skip d s ≡ t
    → token_of d t ≡ some (w, rest)
    → length rest < length s
strtok-shorter d s [] w rest k e = cc
strtok-shorter d s (c ∷ cs) w rest k e =
    let same : behind d (c ∷ cs) ≡ rest = cc in
    let left : length (c ∷ cs) ≤ length s = subst (λ t. length t ≤ length s) k (length-skip d s) in
    let less = length-behind_first d c cs (skip-first d c s cs k) in
    subst (λ r. length r < length s) same (omega arith)

-- The fuel of `tokens` is enough: any more gives the same.
pub token_loop-enough :
    (d : ℕ) (f g : ℕ) (s : Text) → length s < f → length s < g → token_loop f d s ≡ token_loop g d s
unfolding token_loop strtok
token_loop-enough d zero g s h k = absurd (omega arith)
token_loop-enough d (suc f) zero s h k = absurd (omega arith)
token_loop-enough d (suc f) (suc g) s h k = elim (Option-cases (token_of d (skip d s))) [
  | inl e ↦ rw (token_loop, e) refl
  | inr ((w, rest), e) ↦
      let less = strtok-shorter d s (skip d s) w rest refl e in
      rw (token_loop, e)
        (ap (λ r. w ∷ r) (token_loop-enough d f g rest (omega arith) (omega arith)))
]
