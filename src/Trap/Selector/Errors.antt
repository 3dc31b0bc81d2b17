-- ===== src/Trap/Selector/Errors.antt =====
-- The error code of a selector error by its fields, as the processor pushes it.
use Prim.Native.String.{String}
use oslib.Prelude.{
  ℕ, ◌+◌, ◌*◌, ◌^◌, ◌<◌, ◌≡◌, arith, bit_and, Bool, true, false, List, [], ◌∷◌, ◌++◌,
}
use oslib.Prelude.Bits.{bit_and-pow}
use oslib.Prelude.Bits.Align.{bit_and-align}
use oslib.Trap.Report.{Memory, Call, Handled, halts, call, header}
use oslib.Trap.Selector.{
  do_invalid_tss, do_segment_not_present, do_stack_segment_fault, do_general_protection,
}

-- The descriptor table that the selector points into.
pub data Table : Type 0 where
  gdt ldt idt : Table

abbrev pub table_bits : Table → ℕ
table_bits gdt = 0
table_bits idt = 2
table_bits ldt = 4

abbrev pub external_bit : Bool → ℕ
external_bit true = 1
external_bit false = 0

abbrev pub error_code : (external : Bool) → Table → (index : ℕ) → ℕ
error_code external table index = external_bit external + table_bits table + index * 8

abbrev pub table_lines : Table → List Call
table_lines gdt =
    call "Refers to a descriptor in the GDT or the current LDT;\n" []
    ∷ call "Refers to a descriptor in the current GDT;\n" []
    ∷ []
table_lines ldt =
    call "Refers to a descriptor in the GDT or the current LDT;\n" []
    ∷ call "Refers to a segment or gate descriptor in the LDT;\n" []
    ∷ []
table_lines idt = call "Refers to a gate descriptor in the IDT;\n" [] ∷ []

abbrev pub external_lines : Bool → List Call
external_lines true =
    call
      "The exception occurred during delivery of an event external to the program, such as an interrupt or an earlier exception.\n"
      []
    ∷ []
external_lines false = []

abbrev pub report : (external : Bool) → Table → (index : ℕ) → List Call
report external table index =
    external_lines external
    ++ table_lines table
    ++ call "Segment Selector Index: %#010x\n" (index * 8 ∷ []) ∷ []

abbrev pub table_of : Table → ℕ
table_of gdt = 0
table_of idt = 2
table_of ldt = 0

abbrev pub local_of : Table → ℕ
local_of gdt = 0
local_of idt = 0
local_of ldt = 4

module _ (external : Bool) (table : Table) (index : ℕ) (h : index < 2 ^ 13) where
  abbrev code : ℕ
  code = error_code external table index

  code_small : code < 2 ^ 16
  code_small = ground (arith, h)

  fields :
      (bit_and code 1 ≡ external_bit external)
      × (bit_and code 2 ≡ table_of table)
      × (bit_and code 4 ≡ local_of table)
      × (bit_and code 0xfff8 ≡ index * 8)
  fields = ground (
    arith,
    h,
    bit_and-pow 0 code,
    bit_and-pow 1 code,
    bit_and-pow 2 code,
    bit_and-align 16 3 code code_small (omega arith),
  )

-- What a handler of selector errors puts out: its first line, then the report.
abbrev pub selector_error :
    (fmt : String) (rsp : ℕ) → Memory → (external : Bool) → Table → (index : ℕ) → Handled
selector_error fmt rsp mem external table index =
    halts (header fmt rsp (error_code external table index) mem ∷ report external table index)

-- For an error code of an external flag, a table and an index of 13 bits the four handlers of
-- selector errors put out their first line and the report of that flag, that table and, as the
-- "Segment Selector Index", of eight times that index.
pub selector_errors :
    (rsp : ℕ) (mem : Memory) (external : Bool) (table : Table) (index : ℕ)
    → index < 2 ^ 13
    → let e = error_code external table index in
      (do_invalid_tss rsp e mem
        ≡ selector_error "do_invalid_TSS(10), ERROR_CODE: %#018lx, RSP: %#018lx, RIP: %#018lx\n" rsp
            mem external table index)
      × (do_segment_not_present rsp e mem
          ≡ selector_error
              "do_segment_not_present(11), ERROR_CODE: %#018lx, RSP: %#018lx, RIP: %#018lx\n" rsp
              mem external table index)
      × (do_stack_segment_fault rsp e mem
          ≡ selector_error
              "do_stack_segment_fault(12), ERROR_CODE: %#018lx, RSP: %#018lx, RIP: %#018lx\n" rsp
              mem external table index)
      × (do_general_protection rsp e mem
          ≡ selector_error
              "do_general_protection(13), ERROR_CODE: %#018lx, RSP: %#018lx, RIP: %#018lx\n" rsp mem
              external table index)
unfolding do_invalid_tss do_segment_not_present do_stack_segment_fault do_general_protection
selector_errors rsp mem external table index h = ground (arith, fields external table index h)
