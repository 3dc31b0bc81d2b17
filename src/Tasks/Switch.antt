-- ===== src/Tasks/Switch.antt =====
-- The switch from one task to another: `switch_to` and `__switch_to` of cOS/kernel/src/task.c.
pub mod Back
use oslib.Prelude.{ℕ, ◌+◌, ◌-◌, ◌%◌, ◌^◌}
use oslib.Gate.{set_tss64}
use oslib.Tasks.Types.{ThreadStruct, Kernel, Layout, set_thread}
use oslib.Tasks.Thread.{pushq}

pub switch_tss : (next : ℕ) → Kernel → Kernel
switch_tss next k =
    let k = record k { tss = record (k.tss) { rsp0 = (k.threads (k.tasks next).thread).rsp0 } } in
    record k {
      tss_table =
          set_tss64 k.tss.rsp0 k.tss.rsp1 k.tss.rsp2 k.tss.ist1 k.tss.ist2 k.tss.ist3 k.tss.ist4
            k.tss.ist5 k.tss.ist6 k.tss.ist7 k.tss_table;
    }

-- A segment register holds 16 bits.
pub switch_segments : (prev next : ℕ) → Kernel → Kernel
switch_segments prev next k =
    let p = (k.tasks prev).thread in
    let n = (k.tasks next).thread in
    let k = record k { cpu = record (k.cpu) { rax = k.cpu.fs } } in
    let k = set_thread p (record (k.threads p) { fs = k.cpu.rax }) k in
    let k = record k { cpu = record (k.cpu) { rax = k.cpu.gs } } in
    let k = set_thread p (record (k.threads p) { gs = k.cpu.rax }) k in
    let k = record k { cpu = record (k.cpu) { rax = (k.threads n).fs } } in
    let k = record k { cpu = record (k.cpu) { fs = k.cpu.rax % 2 ^ 16 } } in
    let k = record k { cpu = record (k.cpu) { rax = (k.threads n).gs } } in
    record k { cpu = record (k.cpu) { gs = k.cpu.rax % 2 ^ 16 } }

-- `__switch_to`, which `switch_to` jumps to.
pub switch_to_next : (prev next : ℕ) → Kernel → Kernel
unfolding switch_tss switch_segments
switch_to_next prev next k = switch_segments prev next (switch_tss next k)

-- `ret`, at the end of `__switch_to`.
pub ret : Kernel → Kernel
ret k = record k { cpu = record (k.cpu) { rip = k.words k.cpu.rsp; rsp = k.cpu.rsp + 8 } }

-- The instructions of `switch_to` up to its jump.
pub save_and_load : Layout → (prev next : ℕ) → Kernel → Kernel
save_and_load l prev next k =
    let p = (k.tasks prev).thread in
    let n = (k.tasks next).thread in
    let k = record k { cpu = record (k.cpu) { rdi = prev; rsi = next } } in
    let k = pushq k.cpu.rbp k in
    let k = pushq k.cpu.rax k in
    let k = set_thread p (record (k.threads p) { rsp = k.cpu.rsp }) k in
    let k = record k { cpu = record (k.cpu) { rsp = (k.threads n).rsp } } in
    let k = record k { cpu = record (k.cpu) { rax = l.resumed } } in
    let k = set_thread p (record (k.threads p) { rip = k.cpu.rax }) k in pushq (k.threads n).rip k

-- Up to the first instruction of the next task.
unfoldable pub switch_to : Layout → (prev next : ℕ) → Kernel → Kernel
unfolding save_and_load switch_to_next ret
switch_to l prev next k = ret (switch_to_next prev next (save_and_load l prev next k))

-- The instructions at label 1, which a task that was switched away from runs first.
pub resume : Kernel → Kernel
resume k =
    let k = record k { cpu = record (k.cpu) { rax = k.words k.cpu.rsp; rsp = k.cpu.rsp + 8 } } in
    record k { cpu = record (k.cpu) { rbp = k.words k.cpu.rsp; rsp = k.cpu.rsp + 8 } }
