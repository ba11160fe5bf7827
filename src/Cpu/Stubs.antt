-- ===== src/Cpu/Stubs.antt =====
-- src/cpu/isr.asm with the entries of src/cpu/isr_gen.inc: the stub of each vector saves the
-- registers as the structure that isr_handler is given, and restores them from it. The
-- instructions act on the registers and the 64-bit words of memory by their address; the compiled
-- code of isr_handler is the parameter `isr_handler`. An interrupt is taken at privilege 0, where
-- the kernel runs.
pub mod Stack
pub mod Entry
pub mod Frame
mod Tests
use rainstorm_os.Base.{
  ℕ, ◌+◌, ◌-◌, ◌*◌, ◌%◌, ◌^◌, Bool, ◌||◌, ◌&&◌, List, [], ◌∷◌, ◌++◌, u64, leb, ◌==◌, if◌then◌else◌,
}

pub record Cpu : Type 0 where
  pub rax : ℕ
  pub rbx : ℕ
  pub rcx : ℕ
  pub rdx : ℕ
  pub rsi : ℕ
  pub rdi : ℕ
  pub rbp : ℕ
  pub r8 : ℕ
  pub r9 : ℕ
  pub r10 : ℕ
  pub r11 : ℕ
  pub r12 : ℕ
  pub r13 : ℕ
  pub r14 : ℕ
  pub r15 : ℕ
  pub rip : ℕ
  pub cs : ℕ
  pub rflags : ℕ
  pub rsp : ℕ
  pub ss : ℕ
  pub word : ℕ → ℕ

pub data Register : Type 0 where
  rax rbx rcx rdx rsi rdi rbp r8 r9 r10 r11 r12 r13 r14 r15 : Register

pub data Instruction : Type 0 where
  push : Register → Instruction
  push_value : ℕ → Instruction
  pop : Register → Instruction
  mov_rdi_rsp : Instruction
  call_isr_handler : Instruction
  add_rsp : ℕ → Instruction
  iretq : Instruction

abbrev pub value_of : Register → Cpu → ℕ
value_of rax c = c.rax
value_of rbx c = c.rbx
value_of rcx c = c.rcx
value_of rdx c = c.rdx
value_of rsi c = c.rsi
value_of rdi c = c.rdi
value_of rbp c = c.rbp
value_of r8 c = c.r8
value_of r9 c = c.r9
value_of r10 c = c.r10
value_of r11 c = c.r11
value_of r12 c = c.r12
value_of r13 c = c.r13
value_of r14 c = c.r14
value_of r15 c = c.r15

abbrev pub set_register : Register → ℕ → Cpu → Cpu
set_register rax v c = record c { rax = v }
set_register rbx v c = record c { rbx = v }
set_register rcx v c = record c { rcx = v }
set_register rdx v c = record c { rdx = v }
set_register rsi v c = record c { rsi = v }
set_register rdi v c = record c { rdi = v }
set_register rbp v c = record c { rbp = v }
set_register r8 v c = record c { r8 = v }
set_register r9 v c = record c { r9 = v }
set_register r10 v c = record c { r10 = v }
set_register r11 v c = record c { r11 = v }
set_register r12 v c = record c { r12 = v }
set_register r13 v c = record c { r13 = v }
set_register r14 v c = record c { r14 = v }
set_register r15 v c = record c { r15 = v }

-- A push and a pop of 64 bits.
abbrev pub below : ℕ → ℕ
below rsp = u64 (rsp + (2 ^ 64 - 8))

unfoldable pub pushed : ℕ → Cpu → Cpu
pushed v c = record c { rsp = below c.rsp; word = λ a. if below c.rsp == a then v else c.word a }

abbrev pub next_up : ℕ → ℕ
next_up rsp = u64 (rsp + 8)

-- `iretq` takes five words from the stack.
unfoldable pub returned : Cpu → Cpu
returned c =
    let p = c.rsp in
    record c {
      rip = c.word p;
      cs = c.word (next_up p);
      rflags = c.word (next_up (next_up p));
      rsp = c.word (next_up (next_up (next_up p)));
      ss = c.word (next_up (next_up (next_up (next_up p))));
    }

-- What the processor does before the stub: it aligns the stack to 16 bytes and pushes the place to
-- return to, and for some of the exceptions an error code.
unfoldable pub pushes_error_code : (vector : ℕ) → Bool
pushes_error_code vector =
    vector == 8
    || leb 10 vector && leb vector 14
    || vector == 17
    || vector == 21
    || vector == 29
    || vector == 30

unfoldable pub interrupted : (vector error_code : ℕ) → Cpu → Cpu
interrupted vector error_code c =
    let aligned = record c { rsp = c.rsp - c.rsp % 16 } in
    let c' = pushed c.rip (pushed c.cs (pushed c.rflags (pushed c.rsp (pushed c.ss aligned)))) in
    if pushes_error_code vector then pushed error_code c' else c'

-- The vectors of ISR_ERROR.
unfoldable pub is_isr_error : (vector : ℕ) → Bool
is_isr_error vector = vector == 8 || leb 10 vector && leb vector 14 || vector == 17 || vector == 21

abbrev pub isr_entry : (vector : ℕ) → List Instruction
isr_entry vector =
    if is_isr_error vector then push_value vector ∷ [] else push_value 0 ∷ push_value vector ∷ []

abbrev pub isr_save : List Instruction
isr_save =
    push rax
    ∷ push rbx
    ∷ push rcx
    ∷ push rdx
    ∷ push rsi
    ∷ push rdi
    ∷ push rbp
    ∷ push r8
    ∷ push r9
    ∷ push r10
    ∷ push r11
    ∷ push r12
    ∷ push r13
    ∷ push r14
    ∷ push r15
    ∷ mov_rdi_rsp
    ∷ []

abbrev pub isr_restore : List Instruction
isr_restore =
    pop r15
    ∷ pop r14
    ∷ pop r13
    ∷ pop r12
    ∷ pop r11
    ∷ pop r10
    ∷ pop r9
    ∷ pop r8
    ∷ pop rbp
    ∷ pop rdi
    ∷ pop rsi
    ∷ pop rdx
    ∷ pop rcx
    ∷ pop rbx
    ∷ pop rax
    ∷ add_rsp 16
    ∷ iretq
    ∷ []

-- `_isr_common`
abbrev pub isr_common : List Instruction
isr_common = isr_save ++ (call_isr_handler ∷ isr_restore)

module _ (isr_handler : Cpu → Cpu) where
  unfoldable pub step : Instruction → Cpu → Cpu
  step (push r) c = pushed (value_of r c) c
  step (push_value v) c = pushed v c
  step (pop r) c = set_register r (c.word c.rsp) (record c { rsp = next_up c.rsp })
  step mov_rdi_rsp c = record c { rdi = c.rsp }
  step call_isr_handler c = isr_handler c
  step (add_rsp n) c = record c { rsp = u64 (c.rsp + n) }
  step iretq c = returned c

  unfoldable pub run : List Instruction → Cpu → Cpu
  run [] c = c
  run (i ∷ is) c = run is (step i c)

  -- The interrupt from the processor's pushes to the return.
  pub isr_stub : (vector error_code : ℕ) → Cpu → Cpu
  isr_stub vector error_code c =
      run (isr_entry vector ++ isr_common) (interrupted vector error_code c)
