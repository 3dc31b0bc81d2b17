-- ===== src/Memory/Alloc/Unused.antt =====
-- `alloc_pages` on the memory that the kernel has from its start on.
use oslib.Memory.Types.{Memory}
use oslib.Memory.Page.History.{History}
