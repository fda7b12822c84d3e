-- ===== src/FileList/RoundTrip.antt =====
-- The list of files that one node writes, taken apart by another.
use mathlib.Core.List.{append_assoc}
use innopolis_networks_s.Base.{
  ℕ, ◌-◌, ◌<◌, ◌≡◌, ◌≢◌, refl, ap, ◌∙◌, true, List, [], ◌∷◌, ◌++◌, ltb, length, take, length-append,
  arith,
}
use innopolis_networks_s.Text.{Text, tokens, c_string}
use innopolis_networks_s.Text.Tokens.{
  Without, IsWord, AllWords, joined, tokens-joined, token-delimiter, token-end, Without-append,
}
use innopolis_networks_s.FileList.{parse_file_list}
use innopolis_networks_s.FileList.Written.{listing, take-append}

-- No 0 byte stands in a C string.
abbrev pub AllStrings : List Text → Type 0
AllStrings [] = Unit
AllStrings (n ∷ ns) = Without 0 n × AllStrings ns

joined-Without : (ns : List Text) → AllStrings ns → Without 0 (joined b',' ns)
unfolding joined
joined-Without [] h = tt
joined-Without (n ∷ []) h = h.0
joined-Without (n ∷ k ∷ ns) h =
    Without-append 0 n (b',' ∷ joined b',' (k ∷ ns)) h.0 (omega arith, joined-Without (k ∷ ns) h.1)

-- What lies between the brackets.
inner_lem : (j : Text) → take (length (b'[' ∷ (j ++ b']' ∷ [])) - 2) (j ++ b']' ∷ []) ≡ j
inner_lem j =
    let size : length (b'[' ∷ (j ++ b']' ∷ [])) - 2 ≡ length j =
      omega (arith, length-append j (b']' ∷ [])) in
    rw size (take-append j (b']' ∷ []))

length-first : (n : Text) (ns : List Text) → IsWord b',' n → 0 < length (joined b',' (n ∷ ns))
unfolding joined
length-first [] ns h = absurd h
length-first (c ∷ n) [] h = omega arith
length-first (c ∷ n) (k ∷ ns) h = omega (arith, length-append n (b',' ∷ joined b',' (k ∷ ns)))

-- The names, as `strtok` finds them behind the bracket, in front of the byte that is not copied.
parsed_lem :
    (g : ℕ) (n : Text) (ns : List Text)
    → IsWord b',' n
    → parse_file_list g (listing (n ∷ ns)) ≡ tokens b',' (c_string (joined b',' (n ∷ ns) ++ g ∷ []))
unfolding parse_file_list
parsed_lem g n ns h =
    let j = joined b',' (n ∷ ns) in
    let long : ltb 2 (length (b'[' ∷ (j ++ b']' ∷ []))) ≡ true =
      ground (arith, length-first n ns h, length-append j (b']' ∷ [])) in
    rw (long, inner_lem j) refl

-- Where the byte that `memcpy` does not reach is 0, `parse_node` finds the files that `form_file_str`
-- listed, all of them and in order, if no name is empty or has a comma in it.
pub parse_file_list-listing :
    (ns : List Text) → AllWords b',' ns → AllStrings ns → parse_file_list 0 (listing ns) ≡ ns
unfolding parse_file_list c_string
parse_file_list-listing [] h k = refl
parse_file_list-listing (n ∷ ns) h k =
    let j = joined b',' (n ∷ ns) in
    parsed_lem 0 n ns h.0
    ∙ ap (tokens b',') (token-delimiter 0 j [] (joined-Without (n ∷ ns) k))
    ∙ tokens-joined b',' (n ∷ ns) h

-- The names with a byte behind the last one.
abbrev pub spoiled : ℕ → Text → List Text → List Text
spoiled g n [] = (n ++ g ∷ []) ∷ []
spoiled g n (k ∷ ns) = n ∷ spoiled g k ns

joined-spoiled :
    (g : ℕ) (n : Text) (ns : List Text)
    → joined b',' (n ∷ ns) ++ g ∷ [] ≡ joined b',' (spoiled g n ns)
unfolding joined
joined-spoiled g n [] = refl
joined-spoiled g n (k ∷ []) = append_assoc n (b',' ∷ k) (g ∷ [])
joined-spoiled g n (k ∷ l ∷ ns) =
    append_assoc n (b',' ∷ joined b',' (k ∷ l ∷ ns)) (g ∷ [])
    ∙ ap (λ r. n ++ b',' ∷ r) (joined-spoiled g k (l ∷ ns))

IsWord-append : (n : Text) (g : ℕ) → g ≢ b',' → IsWord b',' n → IsWord b',' (n ++ g ∷ [])
IsWord-append [] g ne h = (ne, tt)
IsWord-append (c ∷ n) g ne h = (h.0, Without-append b',' n (g ∷ []) h.1 (ne, tt))

AllWords-spoiled :
    (g : ℕ) (n : Text) (ns : List Text)
    → g ≢ b','
    → AllWords b',' (n ∷ ns)
    → AllWords b',' (spoiled g n ns)
AllWords-spoiled g n [] ne h = (IsWord-append n g ne h.0, tt)
AllWords-spoiled g n (k ∷ ns) ne h = (h.0, AllWords-spoiled g k ns ne h.1)

-- The second half of `parse_node` on a list of one or more names, none of them empty or with a comma or
-- a 0 in it: where the byte of `filelist` that `memcpy` does not reach is neither 0 nor a comma, the
-- last name gets it behind its own, and the others are as they were listed.
pub parse_file_list-spoiled :
    (g : ℕ) (n : Text) (ns : List Text)
    → g ≢ 0
    → g ≢ b','
    → AllWords b',' (n ∷ ns)
    → AllStrings (n ∷ ns)
    → parse_file_list g (listing (n ∷ ns)) ≡ spoiled g n ns
unfolding c_string
parse_file_list-spoiled g n ns ne ne' h k =
    let j = joined b',' (n ∷ ns) in
    parsed_lem g n ns h.0
    ∙ ap (tokens b',') (
        token-end 0 (j ++ g ∷ [])
          (Without-append 0 j (g ∷ []) (joined-Without (n ∷ ns) k) (ne, tt)))
    ∙ ap (tokens b',') (joined-spoiled g n ns)
    ∙ tokens-joined b',' (spoiled g n ns) (AllWords-spoiled g n ns ne' h)
