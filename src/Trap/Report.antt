-- ===== src/Trap/Report.antt =====
-- What the exception handlers of cOS/kernel/src/trap.c put out. A handler prints in red on black and
-- then loops for ever, so it is the list of its calls of `color_printk`, each with its format and
-- its values. `mem` is the memory by address: the saved instruction pointer lies at `rsp + 0x98`.
use Prim.Native.String.{String}
use oslib.Prelude.{ℕ, ◌+◌, ◌==◌, if◌then◌else◌, bit_and, List, [], ◌∷◌}

pub record Call : Type 0 where
  pub fmt : String
  pub args : List ℕ

abbrev pub call : String → List ℕ → Call
call fmt args = record { fmt = fmt; args = args }

-- `while (1);` behind the output.
pub data Handled : Type 0 where
  halts : List Call → Handled

abbrev pub Memory : Type 0
Memory = ℕ → ℕ

abbrev pub header : String → (rsp error_code : ℕ) → Memory → Call
header fmt rsp error_code mem = call fmt (error_code ∷ rsp ∷ mem (rsp + 0x98) ∷ [])

-- `if (error_code & bit) color_printk(...)`, with what follows.
abbrev pub when_set : (error_code bit : ℕ) → List Call → List Call
when_set error_code bit calls = if bit_and error_code bit == 0 then [] else calls
