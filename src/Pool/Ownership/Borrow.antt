-- ===== src/Pool/Ownership/Borrow.antt =====
-- internal/util/resource_pool.go: AcquireWithTimeout hands a resource to one client.
use xiaozhi_esp32_server_gol.Common.{nat_eq}
use xiaozhi_esp32_server_gol.Pool.{Factory, Pool, Borrower}
use xiaozhi_esp32_server_gol.Pool.Ownership.{Fresh, Handed}

module _ {W : Type 0} {f : Factory W} (fr : Fresh f) where
  open fr use {reset_keeps}

  abbrev Gives : Borrower × Pool W → Type 0
  Gives r = Handed fr r.0 r.1
