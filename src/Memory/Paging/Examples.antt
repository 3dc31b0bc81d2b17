-- ===== src/Memory/Paging/Examples.antt =====
-- A page that three tables lead to.
use oslib.Prelude.{◌+◌, ◌*◌, ◌%◌, ◌^◌, ◌≡◌, arith, some}
use oslib.Memory.Paging.Walk.{translate, map_page, translate-map_page}

translate-map_page_example :
    translate
      (map_page
        (0x101 * 2 ^ 12)
        (0x102 * 2 ^ 12)
        (0x103 * 2 ^ 12)
        (1 * 2 ^ 21)
        0xffff800000201234
        (λ a. 0))
      (0x101 * 2 ^ 12)
      0xffff800000201234
    ≡ some (1 * 2 ^ 21 + 0xffff800000201234 % 2 ^ 21)
translate-map_page_example =
    translate-map_page 0x101 0x102 0x103 1 0xffff800000201234 (λ a. 0) (omega arith) (omega arith)
      (omega arith) (omega arith) (omega arith) (omega arith)
