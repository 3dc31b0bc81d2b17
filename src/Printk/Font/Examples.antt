-- ===== src/Printk/Font/Examples.antt =====
-- A word in the middle of a row.
use oslib.Prelude.{ℕ, ◌+◌, ◌*◌, ◌≡◌, arith, some, List, [], ◌∷◌}
use oslib.Printk.Screen.{Screen, white, place, print_chars, dump_bin}
use oslib.Printk.Font.{font_ascii}
use oslib.Printk.Font.Line.{read_text, read_text-print_chars}
use oslib.Printk.Font.Dump.{binary_value, behind_prefix, dump_bin-shows}
use oslib.Printk.Font.Tab.{tab_wipes}

abbrev screen : Screen
screen = record {
  pos = record {
    x_resolution = 1440;
    y_resolution = 900;
    x_position = 3;
    y_position = 2;
    x_char_size = 8;
    y_char_size = 16;
    fb_addr = 0;
    fb_length = 5184000;
  };
  fb = λ i. 0;
}

abbrev word : List ℕ
word = b'c' ∷ b'O' ∷ b'S' ∷ b'!' ∷ []

read_text-print_chars_example :
    read_text 4 9 (record screen { fb = (print_chars font_ascii 9 5 word screen).fb }) 3 2
    ≡ some b'c' ∷ some b'O' ∷ some b'S' ∷ some b'!' ∷ []
read_text-print_chars_example =
    read_text-print_chars 9 5 word screen
      (
        (omega arith, omega arith),
        (
          (omega arith, omega arith),
          ((omega arith, omega arith), ((omega arith, omega arith), tt)),
        ),
      )
      (omega arith) (omega arith) (omega arith) (omega arith)

-- The cursor is in the third of the last four columns.
abbrev late_screen : Screen
late_screen = record screen { pos = record (screen.pos) { x_position = 178 } }

tab_wipes_example : (place font_ascii 9 5 9 late_screen).fb (1440 * (2 * 16 + 7) + 3) ≡ 5
tab_wipes_example =
    tab_wipes 9 5 late_screen 7 3 (omega arith) (omega arith) (omega arith) (omega arith)
      (omega arith) (omega arith)

dump_bin-shows_example :
    binary_value 0 (
      behind_prefix
        (read_text 66 white (record screen { fb = (dump_bin font_ascii 0xcafe screen).fb }) 3 2))
    ≡ 0xcafe
dump_bin-shows_example =
    dump_bin-shows 0xcafe screen (omega arith) (omega arith) (omega arith) (omega arith)
