-- ===== src/Tasks/Switch/Back.antt =====
-- A task that is switched away from and back to goes on where it was.
use oslib.Prelude.{ℕ, ◌+◌, ◌-◌, ◌%◌, ◌^◌, ◌≤◌, ◌<◌, ◌≡◌, ◌≢◌, ◌⊎◌, refl, ap, ◌∙◌, inl, inr, arith}
use oslib.Tasks.Types.{ThreadStruct, Kernel, Layout}
use oslib.Tasks.Switch.{switch_to, resume}

-- `later` has what `before` left of task `a` when it was switched away from: the thread, and the two
-- words at the end of its stack, which the stack of the next task and the stack that the processor
-- is on later do not touch.
pub record IsKept (l : Layout) (a b : ℕ) (before later : Kernel) : Type 0 where
  pub thread : (later.tasks a).thread ≡ (before.tasks a).thread
  pub saved :
      later.threads (before.tasks a).thread
      ≡ (switch_to l a b before).threads (before.tasks a).thread
  pub words :
      (i : ℕ)
      → (i ≡ before.cpu.rsp - 8) ⊎ (i ≡ before.cpu.rsp - 8 - 8)
      → later.words i ≡ (switch_to l a b before).words i
  pub threads : (before.tasks a).thread ≢ (before.tasks b).thread
  pub room : 24 ≤ before.cpu.rsp
  pub next_room : 24 ≤ (before.threads (before.tasks b).thread).rsp
  pub apart :
      ((before.threads (before.tasks b).thread).rsp + 16 ≤ before.cpu.rsp)
      ⊎ (before.cpu.rsp + 16 ≤ (before.threads (before.tasks b).thread).rsp)
  pub other_room : 24 ≤ later.cpu.rsp
  pub selectors : (before.cpu.fs < 2 ^ 16) × (before.cpu.gs < 2 ^ 16)
  pub other_apart : (later.cpu.rsp + 16 ≤ before.cpu.rsp) ⊎ (before.cpu.rsp + 16 ≤ later.cpu.rsp)

module _ (l : Layout) (a b : ℕ) (k : Kernel) where
  -- What the switch leaves in the thread of the task.
  saved_thread :
      (k.tasks a).thread ≢ (k.tasks b).thread
      → let t = (switch_to l a b k).threads (k.tasks a).thread in
        (t.rsp ≡ k.cpu.rsp - 8 - 8) × (t.rip ≡ l.resumed) × (t.fs ≡ k.cpu.fs) × (t.gs ≡ k.cpu.gs)
  unfolding switch_to
  saved_thread apart = (ground arith, ground arith, ground arith, ground arith)

  saved_words :
      24 ≤ k.cpu.rsp
      → 24 ≤ (k.threads (k.tasks b).thread).rsp
      → (k.tasks a).thread ≢ (k.tasks b).thread
      → ((k.threads (k.tasks b).thread).rsp + 16 ≤ k.cpu.rsp)
        ⊎ (k.cpu.rsp + 16 ≤ (k.threads (k.tasks b).thread).rsp)
      → ((switch_to l a b k).words (k.cpu.rsp - 8) ≡ k.cpu.rbp)
        × ((switch_to l a b k).words (k.cpu.rsp - 8 - 8) ≡ k.cpu.rax)
  unfolding switch_to
  saved_words room next_room threads apart =
      (ground (arith, room, apart, threads), ground (arith, room, apart, threads))

-- What a switch to task `a` and the instructions at label 1 take from its thread and its stack.
module _ (l : Layout) (c a : ℕ) (k : Kernel) (other : (k.tasks c).thread ≢ (k.tasks a).thread) where
  pub switch_to-rip : (switch_to l c a k).cpu.rip ≡ (k.threads (k.tasks a).thread).rip
  unfolding switch_to
  switch_to-rip = ground (arith, other)

  pub switch_to-rsp : (switch_to l c a k).cpu.rsp ≡ (k.threads (k.tasks a).thread).rsp - 8 + 8
  unfolding switch_to
  switch_to-rsp = ground (arith, other)

  switch_to-segments :
      ((switch_to l c a k).cpu.fs ≡ (k.threads (k.tasks a).thread).fs % 2 ^ 16)
      × ((switch_to l c a k).cpu.gs ≡ (k.threads (k.tasks a).thread).gs % 2 ^ 16)
  unfolding switch_to
  switch_to-segments = (ground (arith, other), ground (arith, other))

  pub switch_to-words :
      (i : ℕ)
      → i ≢ k.cpu.rsp - 8
      → i ≢ k.cpu.rsp - 8 - 8
      → i ≢ (k.threads (k.tasks a).thread).rsp - 8
      → (switch_to l c a k).words i ≡ k.words i
  unfolding switch_to
  switch_to-words i first second third = ground (arith, first, second, third, other)

short : {n m : ℕ} → n ≡ m → m < 2 ^ 16 → n % 2 ^ 16 ≡ m
short e h = omega (arith, e, h)

-- The registers that a task finds again.
pub record IsRestored (before after : Kernel) : Type 0 where
  pub rsp : after.cpu.rsp ≡ before.cpu.rsp
  pub rbp : after.cpu.rbp ≡ before.cpu.rbp
  pub rax : after.cpu.rax ≡ before.cpu.rax
  pub fs : after.cpu.fs ≡ before.cpu.fs
  pub gs : after.cpu.gs ≡ before.cpu.gs

-- Task `a` is switched away from. Whatever runs then, as long as it keeps the thread of the task
-- and the two words at the end of its stack: a switch back to it, from a task of another thread,
-- goes on behind the first switch, with the stack pointer, the frame pointer, `rax` and the
-- segments of the first switch. The threads of the two tasks of the first switch differ, the stacks
-- have room and are apart, and the segments fit 16 bits.
pub switch_to-IsRestored :
    (l : Layout) (a b c : ℕ) (before later : Kernel)
    → IsKept l a b before later
    → (later.tasks c).thread ≢ (later.tasks a).thread
    → ((switch_to l c a later).cpu.rip ≡ l.resumed)
      × IsRestored before (resume (switch_to l c a later))
unfolding resume
switch_to-IsRestored l a b c before later kept other =
    let t = saved_thread l a b before kept.threads in
    let w = saved_words l a b before kept.room kept.next_room kept.threads kept.apart in
    let thread = ap later.threads kept.thread ∙ kept.saved in
    let depth = ap (λ (x : ThreadStruct). x.rsp) thread ∙ t.0 in
    let room = kept.room in
    let sp : (switch_to l c a later).cpu.rsp ≡ before.cpu.rsp - 8 - 8 =
      omega (arith, switch_to-rsp l c a later other, depth, room) in
    let frame : (switch_to l c a later).cpu.rsp + 8 ≡ before.cpu.rsp - 8 =
      omega (arith, sp, room) in
    let segments = switch_to-segments l c a later other in
    let rip = switch_to-rip l c a later other in
    let words = switch_to-words l c a later other in
    let facts = kept.other_apart in
    let other_room = kept.other_room in
    (
      rip ∙ ap (λ (x : ThreadStruct). x.rip) thread ∙ t.1,
      record {
        rsp = omega (arith, sp, room);
        rbp =
            ap (switch_to l c a later).words frame
            ∙ words (before.cpu.rsp - 8) (omega (arith, depth, facts, room, other_room))
                (omega (arith, depth, facts, room, other_room))
                (omega (arith, depth, facts, room, other_room))
            ∙ kept.words (before.cpu.rsp - 8) (inl refl)
            ∙ w.0;
        rax =
            ap (switch_to l c a later).words sp
            ∙ words (before.cpu.rsp - 8 - 8) (omega (arith, depth, facts, room, other_room))
                (omega (arith, depth, facts, room, other_room))
                (omega (arith, depth, facts, room, other_room))
            ∙ kept.words (before.cpu.rsp - 8 - 8) (inr refl)
            ∙ w.1;
        fs =
            segments.0
            ∙ ap (λ (x : ThreadStruct). x.fs % 2 ^ 16) thread
            ∙ short t.2 kept.selectors.0;
        gs =
            segments.1
            ∙ ap (λ (x : ThreadStruct). x.gs % 2 ^ 16) thread
            ∙ short t.3 kept.selectors.1;
      },
    )
