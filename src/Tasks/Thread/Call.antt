-- ===== src/Tasks/Thread/Call.antt =====
-- What `kernel_thread_func` makes of the words on its stack.
use oslib.Prelude.{ℕ, ◌+◌, ◌*◌, ◌≡◌, ap, arith}
use oslib.Tasks.Types.{Kernel}
use oslib.Tasks.Thread.{kernel_thread_func}

-- `kernel_thread_func` calls the function in the frame's place of `rbx` with the argument in the
-- place of `rdx`.
pub kernel_thread_func-call :
    (return_address : ℕ) (k : Kernel)
    → let r = kernel_thread_func return_address k in
      (r.cpu.rip ≡ k.words (k.cpu.rsp + 8 * 8)) × (r.cpu.rdi ≡ k.words (k.cpu.rsp + 8 * 10))
unfolding kernel_thread_func
kernel_thread_func-call return_address k = (ap k.words (omega arith), ap k.words (omega arith))
