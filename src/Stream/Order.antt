-- ===== src/Stream/Order.antt =====
-- internal/domain/chat/streamtransform/pipeline.go: the order of the registered factories.
use xiaozhi_esp32_server_gol.Common.{List, some}
use xiaozhi_esp32_server_gol.Common.Int.{ℤ}
use xiaozhi_esp32_server_gol.Common.Sorting.{Sorted, Placed, sort-Sorted}
use xiaozhi_esp32_server_gol.Stream.{Factory, register}

module _ {W C M E : Type 0} where
  abbrev pub rank : Factory W C M E → ℤ
  rank f = f.priority

  -- Register puts a factory into a list that is in order of priority, behind the factories of its
  -- priority and below; the others stay in their order, and the list in order.
  pub register-Sorted :
      (f : Factory W C M E) (fs : List (Factory W C M E))
      → Sorted rank fs
      → Sorted rank (register (some f) fs) × Placed rank f fs (register (some f) fs)
  unfolding register
  register-Sorted f fs s = sort-Sorted rank f fs s
