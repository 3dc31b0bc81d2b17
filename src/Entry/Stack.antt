-- ===== src/Entry/Stack.antt =====
-- The words on a stack as a list, and the structure `pt_regs` of an interrupted context.
use mathlib.Core.Path.{subst}
use oslib.Prelude.{
  ℕ, zero, suc, ◌+◌, ◌-◌, ◌*◌, ◌≤◌, ◌≡◌, ap, ◌∙◌, arith, some, List, [], ◌∷◌, get_elem?, length,
}
use oslib.Memory.Types.{update}
use oslib.Tasks.Types.{PtRegs, words_of}
use oslib.Entry.{Context}

-- The words from an address up.
abbrev pub Holds : (words : ℕ → ℕ) (a : ℕ) → List ℕ → Type 0
Holds words a [] = Unit
Holds words a (v ∷ vs) = (words a ≡ v) × Holds words (a + 8) vs

-- Words that nobody changed.
pub Holds-kept :
    (words words' : ℕ → ℕ) (a : ℕ) (vs : List ℕ)
    → ((p : ℕ) → a ≤ p → words' p ≡ words p)
    → Holds words a vs
    → Holds words' a vs
Holds-kept words words' a [] same h = tt
Holds-kept words words' a (v ∷ vs) same (h, rest) = (
  same a (omega arith) ∙ h,
  Holds-kept words words' (a + 8) vs (λ p le. same p (omega (arith, le))) rest,
)

-- A word that is pushed lies below.
pub Holds-push :
    (words : ℕ → ℕ) (rsp v : ℕ) (vs : List ℕ)
    → 8 ≤ rsp
    → Holds words rsp vs
    → Holds (update words (rsp - 8) v) rsp vs
Holds-push words rsp v vs room h =
    Holds-kept words (update words (rsp - 8) v) rsp vs (λ p le. ground (arith, le, room)) h

-- The structure of a context, with what lies in the words of the function and of the error code.
abbrev pub regs_of : (func errcode : ℕ) → Context → PtRegs
regs_of func errcode c = record {
  r15 = c.cpu.r15;
  r14 = c.cpu.r14;
  r13 = c.cpu.r13;
  r12 = c.cpu.r12;
  r11 = c.cpu.r11;
  r10 = c.cpu.r10;
  r9 = c.cpu.r9;
  r8 = c.cpu.r8;
  rbx = c.cpu.rbx;
  rcx = c.cpu.rcx;
  rdx = c.cpu.rdx;
  rsi = c.cpu.rsi;
  rdi = c.cpu.rdi;
  rbp = c.cpu.rbp;
  ds = c.cpu.ds;
  es = c.cpu.es;
  rax = c.cpu.rax;
  func = func;
  errcode = errcode;
  rip = c.cpu.rip;
  cs = c.cs;
  rflags = c.rflags;
  rsp = c.cpu.rsp;
  ss = c.ss;
}

-- The structure `pt_regs` of the context is at the address.
abbrev pub IsRegs : (words : ℕ → ℕ) (a func errcode : ℕ) → Context → Type 0
IsRegs words a func errcode c = Holds words a (words_of (regs_of func errcode c))

-- One word of them by its number.
pub Holds-word :
    (words : ℕ → ℕ) (a n v : ℕ) (vs : List ℕ)
    → get_elem? vs n ≡ some v
    → Holds words a vs
    → words (a + 8 * n) ≡ v
Holds-word words a n v [] e h = absurd (ground (arith, e))
Holds-word words a zero v (w ∷ vs) e (h, rest) = ap words (omega arith) ∙ h ∙ ground (arith, e)
Holds-word words a (suc n) v (w ∷ vs) e (h, rest) =
    ap words (omega arith) ∙ Holds-word words (a + 8) n v vs e rest

-- Several words pushed, the first of the list first: the stack's words, its pointer, and the list of
-- what the stack then holds.
abbrev pub pushed : List ℕ → (words : ℕ → ℕ) (rsp : ℕ) → ℕ → ℕ
pushed [] words rsp = words
pushed (v ∷ vs) words rsp = pushed vs (update words (rsp - 8) v) (rsp - 8)

abbrev pub below : List ℕ → ℕ → ℕ
below [] rsp = rsp
below (v ∷ vs) rsp = below vs (rsp - 8)

abbrev pub onto : List ℕ → List ℕ → List ℕ
onto [] ws = ws
onto (v ∷ vs) ws = onto vs (v ∷ ws)

pub pushed-Holds :
    (vs ws : List ℕ) (words : ℕ → ℕ) (rsp : ℕ)
    → 8 * length vs ≤ rsp
    → Holds words rsp ws
    → Holds (pushed vs words rsp) (below vs rsp) (onto vs ws)
pushed-Holds [] ws words rsp room h = h
pushed-Holds (v ∷ vs) ws words rsp room h =
    pushed-Holds vs (v ∷ ws) (update words (rsp - 8) v) (rsp - 8) (omega (arith, room)) (
      ground arith,
      subst (λ a. Holds (update words (rsp - 8) v) a ws) (omega (arith, room))
          (Holds-push words rsp v ws (omega (arith, room)) h),
    )
