-- ===== src/Cpu/Idt/Gates.antt =====
-- What the processor reads in the gates that `idt_init` sets.
use rainstorm_os.Base.{
  ℕ, zero, suc, ◌+◌, ◌*◌, ◌^◌, ◌<◌, ◌≡◌, refl, some, ◌&&◌, ◌>>>◌, leb, ltb, if◌then◌else◌, arith,
  ◌∙◌,
}
use rainstorm_os.Base.Bits.{bit_and_low}
use rainstorm_os.Cpu.Idt.{
  IdtEntry, Idt, gate, zeroed, idt_set_gate, stubs, low_stubs, set_gates, low_gates, high_gates,
  isr_init, idt_init,
}

-- The handler's address as the processor puts it together from a gate.
unfoldable pub handler : IdtEntry → ℕ
handler e = e.addr_low + e.addr_mid * 2 ^ 16 + e.addr_high * 2 ^ 32

-- The three fields of a gate hold the whole address of the handler.
pub handler-gate :
    (e : IdtEntry) (addr flags : ℕ) → addr < 2 ^ 64 → handler (gate e addr flags) ≡ addr
unfolding handler
handler-gate e addr flags h =
    omega (arith, bit_and_low 16 addr, bit_and_low 16 (addr >>> 16), bit_and_low 32 (addr >>> 32))

set_gates_lem :
    (left : ℕ) (stub : ℕ → ℕ) (n : ℕ) (s : Idt) (k : ℕ)
    → (set_gates (stubs left n) stub n s).idt k
      ≡ (if leb n k && ltb k (n + left) then gate (s.idt k) (stub k) 0x8E else s.idt k)
unfolding set_gates idt_set_gate stubs
set_gates_lem zero stub n s k = ground arith
set_gates_lem (suc left) stub n s k =
    ground (arith, set_gates_lem left stub (n + 1) (idt_set_gate n (stub n) 0x8E s) k)

-- The descriptor stays.
set_gates-descriptor :
    (left : ℕ) (stub : ℕ → ℕ) (n : ℕ) (s : Idt)
    → ((set_gates (stubs left n) stub n s).size ≡ s.size)
      × ((set_gates (stubs left n) stub n s).address ≡ s.address)
unfolding set_gates idt_set_gate stubs
set_gates-descriptor zero stub n s = (refl, refl)
set_gates-descriptor (suc left) stub n s = set_gates-descriptor left stub (n + 1) _

isr_init_lem :
    (stub : ℕ → ℕ) (s : Idt) (k : ℕ)
    → k < 256
    → (isr_init stub s).idt k ≡ gate (s.idt k) (stub k) 0x8E
unfolding isr_init low_gates high_gates
isr_init_lem stub s k h = ground (
  arith,
  set_gates_lem 128 stub 128 (set_gates low_stubs stub 0 s) k,
  set_gates_lem 128 stub 0 s k,
)

isr_init-descriptor :
    (stub : ℕ → ℕ) (s : Idt)
    → ((isr_init stub s).size ≡ s.size) × ((isr_init stub s).address ≡ s.address)
unfolding isr_init low_gates high_gates
isr_init-descriptor stub s =
    let (size, address) = set_gates-descriptor 128 stub 128 _ in
    let (size', address') = set_gates-descriptor 128 stub 0 s in (size ∙ size', address ∙ address')

-- The processor has the table of 4096 bytes at `address`, and each of its 256 gates leads to the
-- stub of the same number.
abbrev pub Gated : (address : ℕ) (stub : ℕ → ℕ) → Idt → Type 0
Gated address stub t =
    (t.loaded ≡ some (4095, address))
    × ((n : ℕ)
        → n < 256
        → (handler (t.idt n) ≡ stub n)
          × ((t.idt n).flags ≡ 0x8E)
          × ((t.idt n).kernel_cs ≡ 8)
          × ((t.idt n).ist ≡ 0)
          × ((t.idt n).reserved ≡ 0))

-- Where the stubs have 64-bit addresses, `idt_init` gives the processor the table of 4096 bytes at
-- `address`, in which each of the 256 vectors is a present interrupt gate of privilege 0 in the
-- kernel's code segment, without a stack of its own, and leads to the stub of the same number.
pub idt_init-handler :
    (address : ℕ) (stub : ℕ → ℕ) (s : Idt)
    → ((n : ℕ) → n < 256 → stub n < 2 ^ 64)
    → Gated address stub (idt_init address stub s)
unfolding idt_init
idt_init-handler address stub s wide =
    let s1 = record s { idt = λ n. zeroed; size = 4095; address = address } in
    let (size, at) = isr_init-descriptor stub s1 in
    (
      rw (size, at) refl,
      λ n h.
          rw (isr_init_lem stub s1 n h)
            (handler-gate zeroed (stub n) 0x8E (wide n h), refl, refl, refl, refl),
    )
