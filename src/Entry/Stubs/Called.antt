-- ===== src/Entry/Stubs/Called.antt =====
-- What a stub calls, and with what arguments.
use mathlib.Core.Path.{fun_ext, subst}
use oslib.Prelude.{List, [], ◌∷◌, ap, sym, ◌∙◌, ℕ, ◌-◌, ◌*◌, ◌≤◌, ◌≡◌, refl, arith, none, some}
use oslib.Memory.Types.{update}
use oslib.Tasks.Types.{Kernel, Cpu, words_of}
use oslib.Tasks.Thread.{pushq}
use oslib.Entry.{Context, deliver, save_registers, error_code}
use oslib.Entry.Stack.{IsRegs, regs_of, Holds, pushed, pushed-Holds, Holds-word, Holds-push}
use oslib.Entry.Return.{IsCalled}
use oslib.Entry.Stubs.{
  Handlers, plain_stub, place_holder_stub, stub, nmi_stub, push_handler, divide_error,
}

pushed_over : (words : ℕ → ℕ) (a v w : ℕ) → update (update words a v) a w ≡ update words a w
pushed_over words a v w = fun_ext λ i. ground arith

-- After all, only the handler's address is pushed.
push_handler_lem : (handler : ℕ) (k : Kernel) → push_handler handler k ≡ pushq handler k
push_handler_lem handler k =
    let words = pushed_over k.words (k.cpu.rsp - 8) k.cpu.rax handler in
    let rax : update k.words (k.cpu.rsp - 8) k.cpu.rax (k.cpu.rsp - 8) ≡ k.cpu.rax = ground arith in
    λ i. record k { words = words i; cpu = record (k.cpu) { rax = rax i; rsp = k.cpu.rsp - 8 } }

-- What `error_code` finds.
record IsPushed (func errcode : ℕ) (c : Context) (k : Kernel) : Type 0 where
  pub words :
      Holds k.words k.cpu.rsp (func ∷ errcode ∷ c.cpu.rip ∷ c.cs ∷ c.rflags ∷ c.cpu.rsp ∷ c.ss ∷ [])
  pub room : 19 * 8 ≤ k.cpu.rsp
  pub cpu : k.cpu ≡ record (c.cpu) { rip = k.cpu.rip; rsp = k.cpu.rsp }

saved : Kernel → List ℕ
saved k =
    k.cpu.rax ∷ k.cpu.es ∷ k.cpu.ds ∷ k.cpu.rbp ∷ k.cpu.rdi ∷ k.cpu.rsi ∷ k.cpu.rdx ∷ k.cpu.rcx
    ∷ k.cpu.rbx ∷ k.cpu.r8 ∷ k.cpu.r9 ∷ k.cpu.r10 ∷ k.cpu.r11 ∷ k.cpu.r12 ∷ k.cpu.r13 ∷ k.cpu.r14
    ∷ k.cpu.r15 ∷ []

save_registers-IsRegs :
    (func errcode : ℕ) (c : Context) (k : Kernel)
    → IsPushed func errcode c k
    → IsRegs (save_registers k).words (save_registers k).cpu.rsp func errcode c
unfolding save_registers saved
save_registers-IsRegs func errcode c k p =
    subst
      (λ (cpu : Cpu).
        IsRegs (save_registers k).words (save_registers k).cpu.rsp func errcode
          (record c { cpu = record cpu { rip = c.cpu.rip; rsp = c.cpu.rsp } }))
      p.cpu
      (pushed-Holds (saved k) (func ∷ errcode ∷ c.cpu.rip ∷ c.cs ∷ c.rflags ∷ c.cpu.rsp ∷ c.ss ∷ [])
        k.words k.cpu.rsp (omega (arith, p.room)) p.words)

error_code-IsCalled :
    (ret func errcode : ℕ) (c : Context) (k : Kernel)
    → IsPushed func errcode c k
    → IsCalled func func errcode errcode ret c (error_code ret k)
unfolding error_code save_registers
error_code-IsCalled ret func errcode c k p =
    let regs = save_registers-IsRegs func errcode c k p in
    let room = p.room in
    let rsp = (save_registers k).cpu.rsp in
    let words = (save_registers k).words in
    let list = words_of (regs_of func errcode c) in
    record {
      entry = Holds-word words rsp 17 func list refl regs;
      regs = Holds-push words rsp ret list (omega (arith, room)) regs;
      error = Holds-word words rsp 18 errcode list refl regs;
      return_to = ground arith;
      depth = omega (arith, room);
      data_segment = refl;
      extra_segment = refl;
    }

-- The context that the words behind the two stubs of `divide_error` seem to hold.
abbrev pub misread : Handlers → Context → Context
misread h c = record {
  cpu = record (c.cpu) { rip = h.do_divide_error; rsp = c.cs };
  cs = 0;
  rflags = c.cpu.rip;
  ss = c.rflags;
}

module _ (ret stack : ℕ) (c : Context) (k : Kernel) (room : 28 * 8 ≤ stack) where
  pub plain_stub-IsCalled :
      (handler error : ℕ)
      → IsCalled handler handler error error ret c
          (plain_stub ret handler (deliver stack (some error) c k))
  unfolding plain_stub deliver
  plain_stub-IsCalled handler error =
      let start = deliver stack (some error) c k in
      subst (λ k. IsCalled handler handler error error ret c (error_code ret k))
        (sym (push_handler_lem handler start))
        (error_code-IsCalled ret handler error c (pushq handler start) (record {
          words =
              pushed-Holds (c.ss ∷ c.cpu.rsp ∷ c.rflags ∷ c.cs ∷ c.cpu.rip ∷ error ∷ handler ∷ [])
                [] k.words stack (omega (arith, room)) tt;
          room = omega (arith, room);
          cpu = refl;
        }))

  pub place_holder_stub-IsCalled :
      (handler : ℕ)
      → IsCalled handler handler 0 0 ret c (place_holder_stub ret handler (deliver stack none c k))
  unfolding place_holder_stub deliver
  place_holder_stub-IsCalled handler =
      let start = pushq 0 (deliver stack none c k) in
      subst (λ k. IsCalled handler handler 0 0 ret c (error_code ret k))
        (sym (push_handler_lem handler start))
        (error_code-IsCalled ret handler 0 c (pushq handler start) (record {
          words =
              pushed-Holds (c.ss ∷ c.cpu.rsp ∷ c.rflags ∷ c.cs ∷ c.cpu.rip ∷ 0 ∷ handler ∷ []) []
                k.words stack (omega (arith, room)) tt;
          room = omega (arith, room);
          cpu = refl;
        }))

  pub nmi_stub-IsCalled :
      (do_nmi : ℕ)
      → IsCalled do_nmi c.cpu.rax c.cpu.rax 0 ret c (nmi_stub do_nmi ret (deliver stack none c k))
  unfolding nmi_stub deliver save_registers
  nmi_stub-IsCalled do_nmi =
      let start = deliver stack none c k in
      let pushed = pushq start.cpu.rax (pushq start.cpu.rax start) in
      let rsp = (save_registers pushed).cpu.rsp in
      let words = (save_registers pushed).words in
      let regs = save_registers-IsRegs c.cpu.rax c.cpu.rax c pushed (record {
        words =
            pushed-Holds
              (c.ss ∷ c.cpu.rsp ∷ c.rflags ∷ c.cs ∷ c.cpu.rip ∷ c.cpu.rax ∷ c.cpu.rax ∷ []) []
              k.words stack (omega (arith, room)) tt;
        room = omega (arith, room);
        cpu = refl;
      }) in
      record {
        entry = refl;
        regs =
            Holds-push words rsp ret (words_of (regs_of c.cpu.rax c.cpu.rax c))
              (omega (arith, room)) regs;
        error = refl;
        return_to = ground arith;
        depth = omega (arith, room);
        data_segment = refl;
        extra_segment = refl;
      }

  -- Behind the words that the processor pushed there are two more, which `do_debug` takes for the
  -- last of them.
  pub divide_error-IsCalled :
      (h : Handlers)
      → IsCalled h.do_debug h.do_debug 0 0 ret
          (misread h c)
          (stub h ret divide_error (deliver stack none c k))
  unfolding stub place_holder_stub deliver
  divide_error-IsCalled h =
      let start = pushq 0 (deliver stack none c k) in
      let first = push_handler_lem h.do_divide_error start in
      let second = push_handler_lem h.do_debug (pushq 0 (pushq h.do_divide_error start)) in
      subst (λ k. IsCalled h.do_debug h.do_debug 0 0 ret (misread h c) (error_code ret k))
        (sym (ap (λ k. push_handler h.do_debug (pushq 0 k)) first ∙ second))
        (error_code-IsCalled ret h.do_debug 0 (misread h c)
          (pushq h.do_debug (pushq 0 (pushq h.do_divide_error start)))
          (record {
            words =
                pushed-Holds
                  (c.rflags ∷ c.cs ∷ c.cpu.rip ∷ 0 ∷ h.do_divide_error ∷ 0 ∷ h.do_debug ∷ []) []
                  (pushed (c.ss ∷ c.cpu.rsp ∷ []) k.words stack) (stack - 8 - 8)
                  (omega (arith, room)) tt;
            room = omega (arith, room);
            cpu = refl;
          }))
