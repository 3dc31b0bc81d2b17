-- ===== src/Entry/Return.antt =====
-- How the entry code calls a C function, and what goes on when `RSETORE_ALL` has taken back what the
-- structure `pt_regs` holds.
use mathlib.Core.Path.{subst}
use oslib.Prelude.{ℕ, ◌+◌, ◌^◌, ◌≤◌, ◌<◌, ◌≡◌, ◌∙◌, arith}
use oslib.Tasks.Types.{Kernel, words_of}
use oslib.Tasks.Thread.{pop_frame}
use oslib.Entry.{Context, restore_all}
use oslib.Entry.Stack.{Holds, Holds-kept, IsRegs, regs_of}

-- Segment registers have 16 bits.
pub record HasSelectors (c : Context) : Type 0 where
  pub ds : c.cpu.ds < 2 ^ 16
  pub es : c.cpu.es < 2 ^ 16
  pub cs : c.cs < 2 ^ 16
  pub ss : c.ss < 2 ^ 16

-- What goes on is the context, but for the segments that the entry code never saves.
pub record Continues (c resumed : Context) : Type 0 where
  pub r15 : resumed.cpu.r15 ≡ c.cpu.r15
  pub r14 : resumed.cpu.r14 ≡ c.cpu.r14
  pub r13 : resumed.cpu.r13 ≡ c.cpu.r13
  pub r12 : resumed.cpu.r12 ≡ c.cpu.r12
  pub r11 : resumed.cpu.r11 ≡ c.cpu.r11
  pub r10 : resumed.cpu.r10 ≡ c.cpu.r10
  pub r9 : resumed.cpu.r9 ≡ c.cpu.r9
  pub r8 : resumed.cpu.r8 ≡ c.cpu.r8
  pub rbx : resumed.cpu.rbx ≡ c.cpu.rbx
  pub rcx : resumed.cpu.rcx ≡ c.cpu.rcx
  pub rdx : resumed.cpu.rdx ≡ c.cpu.rdx
  pub rsi : resumed.cpu.rsi ≡ c.cpu.rsi
  pub rdi : resumed.cpu.rdi ≡ c.cpu.rdi
  pub rbp : resumed.cpu.rbp ≡ c.cpu.rbp
  pub rax : resumed.cpu.rax ≡ c.cpu.rax
  pub ds : resumed.cpu.ds ≡ c.cpu.ds
  pub es : resumed.cpu.es ≡ c.cpu.es
  pub rip : resumed.cpu.rip ≡ c.cpu.rip
  pub rsp : resumed.cpu.rsp ≡ c.cpu.rsp
  pub cs : resumed.cs ≡ c.cs
  pub rflags : resumed.rflags ≡ c.rflags
  pub ss : resumed.ss ≡ c.ss

restore_all-Continues :
    (func errcode : ℕ) (c : Context) (k : Kernel)
    → HasSelectors c
    → IsRegs k.words k.cpu.rsp func errcode c
    → Continues c (restore_all k)
unfolding restore_all pop_frame
restore_all-Continues func errcode c k fit
      (
        r15,
        (
          r14,
          (
            r13,
            (
              r12,
              (
                r11,
                (
                  r10,
                  (
                    r9,
                    (
                      r8,
                      (
                        rbx,
                        (
                          rcx,
                          (
                            rdx,
                            (
                              rsi,
                              (
                                rdi,
                                (
                                  rbp,
                                  (
                                    ds,
                                    (es, (rax, (f, (e, (rip, (cs, (rflags, (rsp, (ss, end))))))))),
                                  ),
                                ),
                              ),
                            ),
                          ),
                        ),
                      ),
                    ),
                  ),
                ),
              ),
            ),
          ),
        ),
      ) =
    record {
      r15 = r15;
      r14 = r14;
      r13 = ground (arith, r13);
      r12 = ground (arith, r12);
      r11 = ground (arith, r11);
      r10 = ground (arith, r10);
      r9 = ground (arith, r9);
      r8 = ground (arith, r8);
      rbx = ground (arith, rbx);
      rcx = ground (arith, rcx);
      rdx = ground (arith, rdx);
      rsi = ground (arith, rsi);
      rdi = ground (arith, rdi);
      rbp = ground (arith, rbp);
      rax = ground (arith, rax);
      ds = ground (arith, ds, fit.ds);
      es = ground (arith, es, fit.es);
      rip = ground (arith, rip);
      rsp = ground (arith, rsp);
      cs = ground (arith, cs, fit.cs);
      rflags = ground (arith, rflags);
      ss = ground (arith, ss, fit.ss);
    }

-- A C function has returned to the address that was on top of the stack, and the words above it
-- are as they were.
pub record HasReturned (called back : Kernel) : Type 0 where
  pub rip : back.cpu.rip ≡ called.words called.cpu.rsp
  pub rsp : back.cpu.rsp ≡ called.cpu.rsp + 8
  pub words : (a : ℕ) → called.cpu.rsp + 8 ≤ a → back.words a ≡ called.words a

-- A function of two arguments is entered: the structure `pt_regs` of the context, and the error
-- code. The kernel's data segment is loaded.
pub record IsCalled (function func errcode second ret : ℕ) (c : Context) (k : Kernel) : Type 0 where
  pub entry : k.cpu.rip ≡ function
  pub regs : IsRegs k.words k.cpu.rdi func errcode c
  pub error : k.cpu.rsi ≡ second
  pub return_to : k.words k.cpu.rsp ≡ ret
  pub depth : k.cpu.rdi ≡ k.cpu.rsp + 8
  pub data_segment : k.cpu.ds ≡ 0x10
  pub extra_segment : k.cpu.es ≡ 0x10

-- A C function that returns is followed by what was interrupted, if the code at `ret` is
-- `RSETORE_ALL`.
pub called-Continues :
    (function func errcode second ret : ℕ) (c : Context) (called back : Kernel)
    → HasSelectors c
    → IsCalled function func errcode second ret c called
    → HasReturned called back
    → (back.cpu.rip ≡ ret) × Continues c (restore_all back)
called-Continues function func errcode second ret c called back fit call r =
    let list = words_of (regs_of func errcode c) in
    (
      r.rip ∙ call.return_to,
      restore_all-Continues func errcode c back fit (
          subst (λ a. Holds back.words a list) (omega (arith, r.rsp, call.depth))
            (Holds-kept called.words back.words called.cpu.rdi list
              (λ a le. r.words a (omega (arith, le, call.depth))) call.regs)),
    )
