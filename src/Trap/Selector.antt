-- ===== src/Trap/Selector.antt =====
-- The handlers of cOS/kernel/src/trap.c that take their error code apart: those of the selector
-- errors and of the page fault.
pub mod Errors
use oslib.Prelude.{ℕ, ◌==◌, if◌then◌else◌, bit_and, [], ◌∷◌, ◌++◌}
use oslib.Trap.Report.{Memory, Handled, halts, call, header, when_set}

unfoldable pub do_invalid_tss : (rsp error_code : ℕ) → Memory → Handled
do_invalid_tss rsp error_code mem = halts (
    header "do_invalid_TSS(10), ERROR_CODE: %#018lx, RSP: %#018lx, RIP: %#018lx\n" rsp error_code
        mem
      ∷ when_set error_code 0x01 (
          call
            "The exception occurred during delivery of an event external to the program, such as an interrupt or an earlier exception.\n"
            []
          ∷ [])
    ++ (if bit_and error_code 0x02 == 0
        then call "Refers to a descriptor in the GDT or the current LDT;\n" [] ∷ []
        else call "Refers to a gate descriptor in the IDT;\n" [] ∷ [])
    ++ (if bit_and error_code 0x02 == 0
        then (if bit_and error_code 0x04 == 0
            then call "Refers to a descriptor in the current GDT;\n" [] ∷ []
            else call "Refers to a segment or gate descriptor in the LDT;\n" [] ∷ [])
        else [])
    ++ call "Segment Selector Index: %#010x\n" (bit_and error_code 0xfff8 ∷ []) ∷ [])

unfoldable pub do_segment_not_present : (rsp error_code : ℕ) → Memory → Handled
do_segment_not_present rsp error_code mem = halts (
    header "do_segment_not_present(11), ERROR_CODE: %#018lx, RSP: %#018lx, RIP: %#018lx\n" rsp
        error_code mem
      ∷ when_set error_code 0x01 (
          call
            "The exception occurred during delivery of an event external to the program, such as an interrupt or an earlier exception.\n"
            []
          ∷ [])
    ++ (if bit_and error_code 0x02 == 0
        then call "Refers to a descriptor in the GDT or the current LDT;\n" [] ∷ []
        else call "Refers to a gate descriptor in the IDT;\n" [] ∷ [])
    ++ (if bit_and error_code 0x02 == 0
        then (if bit_and error_code 0x04 == 0
            then call "Refers to a descriptor in the current GDT;\n" [] ∷ []
            else call "Refers to a segment or gate descriptor in the LDT;\n" [] ∷ [])
        else [])
    ++ call "Segment Selector Index: %#010x\n" (bit_and error_code 0xfff8 ∷ []) ∷ [])

unfoldable pub do_stack_segment_fault : (rsp error_code : ℕ) → Memory → Handled
do_stack_segment_fault rsp error_code mem = halts (
    header "do_stack_segment_fault(12), ERROR_CODE: %#018lx, RSP: %#018lx, RIP: %#018lx\n" rsp
        error_code mem
      ∷ when_set error_code 0x01 (
          call
            "The exception occurred during delivery of an event external to the program, such as an interrupt or an earlier exception.\n"
            []
          ∷ [])
    ++ (if bit_and error_code 0x02 == 0
        then call "Refers to a descriptor in the GDT or the current LDT;\n" [] ∷ []
        else call "Refers to a gate descriptor in the IDT;\n" [] ∷ [])
    ++ (if bit_and error_code 0x02 == 0
        then (if bit_and error_code 0x04 == 0
            then call "Refers to a descriptor in the current GDT;\n" [] ∷ []
            else call "Refers to a segment or gate descriptor in the LDT;\n" [] ∷ [])
        else [])
    ++ call "Segment Selector Index: %#010x\n" (bit_and error_code 0xfff8 ∷ []) ∷ [])

unfoldable pub do_general_protection : (rsp error_code : ℕ) → Memory → Handled
do_general_protection rsp error_code mem = halts (
    header "do_general_protection(13), ERROR_CODE: %#018lx, RSP: %#018lx, RIP: %#018lx\n" rsp
        error_code mem
      ∷ when_set error_code 0x01 (
          call
            "The exception occurred during delivery of an event external to the program, such as an interrupt or an earlier exception.\n"
            []
          ∷ [])
    ++ (if bit_and error_code 0x02 == 0
        then call "Refers to a descriptor in the GDT or the current LDT;\n" [] ∷ []
        else call "Refers to a gate descriptor in the IDT;\n" [] ∷ [])
    ++ (if bit_and error_code 0x02 == 0
        then (if bit_and error_code 0x04 == 0
            then call "Refers to a descriptor in the current GDT;\n" [] ∷ []
            else call "Refers to a segment or gate descriptor in the LDT;\n" [] ∷ [])
        else [])
    ++ call "Segment Selector Index: %#010x\n" (bit_and error_code 0xfff8 ∷ []) ∷ [])

-- `cr2` is the register that holds the faulting address.
unfoldable pub do_page_fault : (cr2 rsp error_code : ℕ) → Memory → Handled
do_page_fault cr2 rsp error_code mem = halts (
    header "do_page_fault(14), ERROR_CODE: %#018lx, RSP: %#018lx, RIP: %#018lx\n" rsp error_code mem
      ∷ (if bit_and error_code 0x01 == 0 then call "Page Not-Present, \t" [] ∷ [] else [])
    ++ (if bit_and error_code 0x02 == 0
        then call "Read Cause Fault, \t" [] ∷ []
        else call "Write Cause Fault, \t" [] ∷ [])
    ++ (if bit_and error_code 0x04 == 0
        then call "Fault in supervisor(0, 1, 2)\t" [] ∷ []
        else call "Fault in user(3)\t" [] ∷ [])
    ++ when_set error_code 0x08 (call ", Reserved Bit Cause Fault\t" [] ∷ [])
    ++ when_set error_code 0x10 (call ", Instruction fetch Cause Fault" [] ∷ [])
    ++ call "\n" [] ∷ call "CR2: %#018lx\n" (cr2 ∷ []) ∷ [])
