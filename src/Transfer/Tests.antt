-- ===== src/Transfer/Tests.antt =====
-- A file of three words.
use innopolis_networks_s.Base.{◌≡◌, true, some, List, [], ◌∷◌, ◌++◌, map, length, arith, ℕ}
use innopolis_networks_s.Socket.{got}
use innopolis_networks_s.Transfer.{file_request_handler, download_file, saved}
use innopolis_networks_s.Transfer.Laws.{
  repeated, last_of, broken_download, download-file_request_handler,
}

abbrev rest : List ℕ
rest = 4 ∷ 5 ∷ []

abbrev file : List ℕ
file = 7 ∷ 8 ∷ 9 ∷ []

download-file_request_handler_example :
    download_file true true
      (got (file_request_handler (some file) 0).wordcount)
      true
      (map got (file_request_handler (some file) 0).words)
      1
    ≡ saved file
download-file_request_handler_example = download-file_request_handler file 0 1 (omega arith)

broken_download_example :
    download_file true true
      (got (file_request_handler (some (file ++ rest)) 0).wordcount)
      true
      (map got file)
      1
    ≡ saved (file ++ repeated (length rest) (last_of file 1))
broken_download_example = broken_download file rest 0 1 (omega arith)
