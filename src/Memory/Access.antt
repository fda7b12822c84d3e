-- ===== src/Memory/Access.antt =====
-- Reads and writes at an address in use.
use innopolis_networks_s.Base.{◌≡◌, ◌≢◌, none, some, ==_of_ne}
use innopolis_networks_s.Memory.{Ptr, null, Memory, put, done, load, store, release}

module _ {O : Type 0} (m : Memory O) (p : Ptr) (o : O) (ne : p ≢ null) (e : m.cell p ≡ some o) where
  pub load-some : load p m ≡ done o m
  unfolding load
  load-some = rw (==_of_ne p null ne, e)

  pub store-some : (o' : O) → store p o' m ≡ done tt (put m p (some o'))
  unfolding store
  store-some o' = rw load-some

  pub release-some : release p m ≡ done tt (put m p none)
  unfolding release
  release-some = rw load-some
