-- ===== src/Transfer/Laws.antt =====
-- What the receiver has in the end.
use innopolis_networks_s.Base.{
  ltb, ◌%◌, ℕ, zero, suc, ◌+◌, ◌<◌, ◌^◌, ◌≡◌, refl, ap, ◌∙◌, Bool, true, none, some, List, [], ◌∷◌,
  ◌++◌, map, length, pos, arith, length-append,
}
use innopolis_networks_s.Socket.{got}
use innopolis_networks_s.Transfer.{
  no_file, saved, as_signed, count_words, send_words, file_request_handler, save_words,
  download_file,
}

-- `n` times the same word
unfoldable pub repeated : {W : Type 0} → ℕ → W → List W
repeated zero w = []
repeated (suc n) w = w ∷ repeated n w

-- the last word of a file, and `w` of an empty one
abbrev pub last_of : {W : Type 0} → List W → W → W
last_of [] w = w
last_of (x ∷ xs) w = last_of xs x

module _ {W : Type 0} where
  pub count_words_lem :
      (ws : List W) (n : ℕ) → n + length ws < 2 ^ 32 → count_words ws n ≡ n + length ws
  unfolding count_words
  count_words_lem [] n h = omega arith
  count_words_lem (w ∷ ws) n h =
      let e : (n + 1) % 2 ^ 32 ≡ n + 1 = omega arith in
      rw e (count_words_lem ws (n + 1) (omega arith) ∙ omega arith)

  send_words_lem : (ws : List W) (buf : W) → send_words (length ws) ws buf ≡ ws
  unfolding send_words
  send_words_lem [] buf = refl
  send_words_lem (w ∷ ws) buf = ap (λ r. w ∷ r) (send_words_lem ws w)

  save_words-nil : (n : ℕ) (buf : W) → save_words n [] buf ≡ repeated n buf
  unfolding save_words repeated
  save_words-nil zero buf = refl
  save_words-nil (suc n) buf = ap (λ r. buf ∷ r) (save_words-nil n buf)

  -- the words that came, then the last of them over and over
  save_words_lem :
      (ws : List W) (n : ℕ) (buf : W)
      → save_words (length ws + n) (map got ws) buf ≡ ws ++ repeated n (last_of ws buf)
  unfolding save_words
  save_words_lem [] n buf = let e : 0 + n ≡ n = omega arith in rw e (save_words-nil n buf)
  save_words_lem (w ∷ ws) n buf =
      let e : suc (length ws) + n ≡ suc (length ws + n) = omega arith in
      rw e (ap (λ r. w ∷ r) (save_words_lem ws n w))

  save_words-all : (ws : List W) (buf : W) → save_words (length ws) (map got ws) buf ≡ ws
  unfolding save_words
  save_words-all [] buf = refl
  save_words-all (w ∷ ws) buf = ap (λ r. w ∷ r) (save_words-all ws w)

  handler_lem :
      (ws : List W) (buf : W)
      → length ws < 2 ^ 31
      → file_request_handler (some ws) buf ≡ record { wordcount = pos (length ws); words = ws }
  unfolding file_request_handler as_signed
  handler_lem ws buf h =
      let fits : ltb (length ws) (2 ^ 31) ≡ true = ground arith in
      let counted : count_words ws 0 ≡ length ws =
        count_words_lem ws 0 (omega arith) ∙ omega arith in
      rw (counted, fits, send_words_lem ws buf) refl

  -- A file of fewer than 2^31 words that one node has, and sends over a connection that breaks after
  -- the words `xs`, is saved by the other node as `xs` and then, for each word that did not come, the
  -- last word that came once more, if both have opened their files and the count has come.
  pub broken_download :
      (xs ys : List W) (buf buf' : W)
      → length (xs ++ ys) < 2 ^ 31
      → download_file true true
          (got (file_request_handler (some (xs ++ ys)) buf).wordcount)
          true
          (map got xs)
          buf'
        ≡ saved (xs ++ repeated (length ys) (last_of xs buf'))
  unfolding download_file
  broken_download xs ys buf buf' h =
      rw (handler_lem (xs ++ ys) buf h, length-append xs ys)
        (ap saved (save_words_lem xs (length ys) buf'))

  -- The round trip: what a node sends of a file of fewer than 2^31 words, the other node saves word
  -- for word, if the connection works and the file to write could be opened.
  pub download-file_request_handler :
      (ws : List W) (buf buf' : W)
      → length ws < 2 ^ 31
      → download_file true true
          (got (file_request_handler (some ws) buf).wordcount)
          true
          (map got (file_request_handler (some ws) buf).words)
          buf'
        ≡ saved ws
  unfolding download_file repeated
  download-file_request_handler ws buf buf' h =
      rw (handler_lem ws buf h) (ap saved (save_words-all ws buf'))

  -- If the node that is asked has no such file, the other one saves nothing.
  pub download-missing :
      (opened : Bool) (buf buf' : W)
      → download_file true true
          (got (file_request_handler none buf).wordcount)
          opened
          (map got (file_request_handler none buf).words)
          buf'
        ≡ no_file
  unfolding download_file file_request_handler
  download-missing opened buf buf' = refl
