-- ===== src/Memory/Paging/Spaces/Extends.antt =====
-- `paging_init` keeps the size of memory and every frame that is in use.
use rainstorm_os.Base.{ℕ, zero, suc, ◌+◌, ◌≡◌, refl, false, arith, String, Cmd, ok, Ends}
use rainstorm_os.Memory.Pmm
use rainstorm_os.Memory.Pmm.{Pmm}
use rainstorm_os.Memory.Pmm.State.{IsValid}
use rainstorm_os.Memory.Paging.{Machine, lift, lifted, switch_dir}
use rainstorm_os.Memory.Paging.Growing.{
  Extends, Extends-refl, grows, Growing, chain, pure-Growing, klog-Growing, read_entry-Growing,
  write_entry-Growing, clear_page-Growing, alloc_frame-Growing, map_range-Growing, with_growth,
}
use rainstorm_os.Memory.Paging.Spaces.{
  SegmentInfo, fill_kernel, map_segment, save_entries, enable_nxe, paging_init,
}

map_segment-Growing :
    (pml4 kernel_phys kernel_virt start end flags : ℕ)
    → Growing false (map_segment pml4 kernel_phys kernel_virt start end flags)
unfolding map_segment
map_segment-Growing pml4 kernel_phys kernel_virt start end flags = map_range-Growing _ _ _ _ _

fill_kernel-Growing : (n pml4 i : ℕ) → Growing false (fill_kernel n pml4 i)
unfolding fill_kernel
fill_kernel-Growing zero pml4 i = pure-Growing tt
fill_kernel-Growing (suc n) pml4 i = chain alloc_frame-Growing (λ pdpt.
    chain (clear_page-Growing pdpt)
      (λ _. chain (write_entry-Growing _ _ _) (λ _. fill_kernel-Growing n pml4 (i + 1))))

save_entry : (i e : ℕ) → Cmd Machine (Unit {0})
save_entry i e m = ok tt (record m { kernel_pml4_entries = Pmm.update m.kernel_pml4_entries i e })

save_entries-Growing : (n pml4 i : ℕ) → Growing false (save_entries n pml4 i)
unfolding save_entries save_entry
save_entries-Growing zero pml4 i = pure-Growing tt
save_entries-Growing (suc n) pml4 i = chain (read_entry-Growing _ _) (λ e.
    chain {c = save_entry i e} (λ m v. grows (Extends-refl v refl refl refl))
      (λ _. save_entries-Growing n pml4 (i + 1)))

get_total_size-Growing : Growing false (lift Pmm.get_total_size)
unfolding lifted Pmm.get_total_size
get_total_size-Growing m v = grows (Extends-refl v refl refl refl)

-- A change of the processor's registers alone.
loose : {m n : Machine} → IsValid m.pmm → n.pmm ≡ m.pmm → Extends false m n
loose v same = record {
  valid = rw same v;
  total = rw same refl;
  offset = rw same refl;
  frames = λ f h. rw same h;
  cr3 = λ h. absurd (ground (arith, h));
  nxe = λ h. absurd (ground (arith, h));
}

enable_nxe-Growing : Growing false enable_nxe
unfolding enable_nxe
enable_nxe-Growing m v = grows (loose v refl)

switch_dir-Growing : (pml4 : ℕ) → Growing false (switch_dir pml4)
unfolding switch_dir
switch_dir-Growing pml4 m v = grows (loose v refl)

paging_init-Growing :
    (kernel_phys kernel_virt : ℕ) (seg : SegmentInfo)
    → Growing false (paging_init kernel_phys kernel_virt seg)
unfolding paging_init
paging_init-Growing kernel_phys kernel_virt seg = chain alloc_frame-Growing (λ pml4.
    chain (clear_page-Growing pml4) (λ _. chain (fill_kernel-Growing 256 pml4 256) (λ _.
      chain get_total_size-Growing (λ memsize n.
        chain (map_range-Growing pml4 n.pmm.hhdm_offset 0 memsize _)
          (λ _. chain (map_segment-Growing _ _ _ _ _ _) (λ _.
            chain (map_segment-Growing _ _ _ _ _ _) (λ _.
              chain (map_segment-Growing _ _ _ _ _ _) (λ _.
                chain (map_segment-Growing _ _ _ _ _ _) (λ _.
                  chain (save_entries-Growing 256 pml4 0) (λ _. chain enable_nxe-Growing (λ _.
                    chain (switch_dir-Growing pml4)
                      (λ _. chain (klog-Growing _ _ _) (λ _. pure-Growing pml4)))))))))
          n))))

-- What `paging_init` establishes, it establishes with the frames extended.
pub paging_init-Extends :
    {P : ℕ → Machine → Type 0} {Q : String → Machine → Type 0} (kernel_phys kernel_virt : ℕ)
    (seg : SegmentInfo) (m : Machine)
    → IsValid m.pmm
    → Ends P Q (paging_init kernel_phys kernel_virt seg m)
    → Ends (λ pml4 n. P pml4 n × Extends false m n) Q (paging_init kernel_phys kernel_virt seg m)
paging_init-Extends kernel_phys kernel_virt seg m v e =
    with_growth e (paging_init-Growing kernel_phys kernel_virt seg m v)
