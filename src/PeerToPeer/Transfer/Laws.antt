-- ===== src/PeerToPeer/Transfer/Laws.antt =====
-- What goes over the connection, and what the receiver has in the end.
use innopolis_networks_s.Base.{
  Bool, ℕ, zero, suc, ◌-◌, ◌<◌, ◌≤◌, ◌^◌, ◌≡◌, refl, ap, ◌∙◌, true, some, none, List, [], ◌∷◌, map,
  length, ltb, arith,
}
use innopolis_networks_s.Socket.{got}
use innopolis_networks_s.Transfer.{saved, no_file, as_signed, count_words, send_words, save_words}
use innopolis_networks_s.Transfer.Laws.{count_words_lem}
use innopolis_networks_s.PeerToPeer.ByteOrder.{ByteOrder}
use innopolis_networks_s.PeerToPeer.Transfer.{file_request_handler, download_file}

length-send_words : {W : Type 0} (n : ℕ) (ws : List W) (buf : W) → length (send_words n ws buf) ≡ n
unfolding send_words
length-send_words zero ws buf = refl
length-send_words (suc n) [] buf = ap suc (length-send_words n [] buf)
length-send_words (suc n) (w ∷ ws) buf = ap suc (length-send_words n ws w)

-- The receiver takes as many words as the file has from a sender that sends at least as many.
save-send_words :
    {W : Type 0} (n : ℕ) (ws : List W) (buf buf' : W)
    → length ws ≤ n
    → save_words (length ws) (map got (send_words n ws buf)) buf' ≡ ws
unfolding save_words send_words
save-send_words n [] buf buf' h = refl
save-send_words zero (w ∷ ws) buf buf' h = absurd (omega arith)
save-send_words (suc n) (w ∷ ws) buf buf' h =
    ap (λ r. w ∷ r) (save-send_words n ws w w (omega arith))

module _ (b : ByteOrder) {W : Type 0} where
  counted : (ws : List W) → length ws < 2 ^ 31 → count_words ws 0 ≡ length ws
  counted ws h = count_words_lem ws 0 (omega arith) ∙ omega arith

  -- For a file of fewer than 2^31 words the handler sends, not as many words as the file has, but as
  -- many as the number in network order says.
  pub length-file_request_handler :
      (ws : List W) (buf : W)
      → length ws < 2 ^ 31
      → length (file_request_handler b (some ws) buf).words ≡ b.htonl (length ws)
  unfolding file_request_handler
  length-file_request_handler ws buf h =
      rw (counted ws h) (length-send_words (b.htonl (length ws)) ws buf)

  -- The round trip of a file of fewer than 2^31 words, where the number of words in network order is not
  -- below the number itself: what the handler sends, the other node saves word for word, if the
  -- connection works and the file to write could be opened.
  pub download_file-file_request_handler :
      (ws : List W) (buf buf' : W)
      → length ws < 2 ^ 31
      → length ws ≤ b.htonl (length ws)
      → download_file b true true
          (got (file_request_handler b (some ws) buf).wordcount)
          true
          (map got (file_request_handler b (some ws) buf).words)
          buf'
        ≡ saved ws
  unfolding download_file file_request_handler as_signed
  download_file-file_request_handler ws buf buf' h enough =
      let signed : ltb (length ws) (2 ^ 31) ≡ true = ground arith in
      rw (counted ws h, b.ntohl_htonl (length ws) (omega arith), signed)
        (ap saved (save-send_words (b.htonl (length ws)) ws buf buf' enough))

  -- If the node that is asked has no such file, the other one saves nothing.
  pub download_file-missing :
      (opened : Bool) (buf buf' : W)
      → download_file b true true
          (got (file_request_handler b none buf).wordcount)
          opened
          (map got (file_request_handler b none buf).words)
          buf'
        ≡ no_file
  unfolding download_file file_request_handler as_signed
  download_file-missing opened buf buf' = rw (b.ntohl_htonl (2 ^ 32 - 1) (omega arith)) refl
