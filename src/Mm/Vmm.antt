-- ===== src/Mm/Vmm.antt =====
-- kernel/common/src/mm/vmm.c: virtual memory over what the processor's part and the physical
-- memory manager offer.
pub mod First
pub mod Free
use neo_sys_x.Common.{
  ℕ, zero, suc, ◌+◌, ◌-◌, ◌*◌, ◌/◌, ◌%◌, ◌^◌, Bool, true, false, not, ◌&&◌, Option, none, some, ltb,
  leb, ◌==◌, if◌then◌else◌, bit_and,
}

-- The functions of the processor's part, on a state `S`; those of `mm/pmm.h`; and the kernel's
-- end. `get_paddr` is `none` for the answer `false`.
pub record Space (S : Type 0) : Type 0 where
  pub current_config : S → ℕ
  pub kernel_config : S → ℕ
  pub find_free : S → ℕ → ℕ → ℕ → ℕ
  pub map : S → ℕ → ℕ → ℕ → ℕ → ℕ → S
  pub unmap : S → ℕ → ℕ → ℕ → S
  pub get_paddr : S → ℕ → ℕ → Option ℕ
  pub is_vaddr_used : S → ℕ → ℕ → Bool
  pub pmm_alloc : S → ℕ → S × ℕ
  pub pmm_free : S → ℕ → ℕ → S
  pub frame_size : ℕ
  pub kernel_end : ℕ

abbrev pub uintptr_max : ℕ
uintptr_max = 2 ^ 32 - 1

abbrev pub uint64_max : ℕ
uint64_max = 2 ^ 64 - 1

-- `VMM_FLAG_ALLOC_CONTIGUOUS`
abbrev pub alloc_contiguous : ℕ
alloc_contiguous = 2 ^ 31

module _ {S : Type 0} (space : Space S) where
  -- `flags & ~VMM_FLAG_ALLOC_CONTIGUOUS`
  unfoldable pub map_flags : ℕ → ℕ
  map_flags flags = bit_and flags (2 ^ 32 - 1 - alloc_contiguous)

  -- The loop that asks for less and less memory; `none` is `break` without any.
  unfoldable pub ask_less : ℕ → S → ℕ → S × Option (ℕ × ℕ)
  ask_less zero s iter_size = (s, none)
  ask_less (suc fuel) s iter_size =
      let (t, paddr) = space.pmm_alloc s iter_size in
      elim (paddr == uint64_max) [
        | false ↦ (t, some (iter_size, paddr))
        | true ↦ elim (leb iter_size (space.frame_size)) [
          | true ↦ (t, none)
          | false ↦ ask_less fuel t (iter_size - space.frame_size)
        ]
      ]

  -- `vmm_free_pmm_frames`, with `count` turns of its loop.
  unfoldable pub free_frames : ℕ → S → ℕ → ℕ → S
  free_frames zero s config vaddr = s
  free_frames (suc count) s config vaddr =
      let next : S = elim (space.get_paddr s config vaddr) [
        | none ↦ s
        | some paddr ↦ space.pmm_free s paddr (space.frame_size)
      ] in
      free_frames count next config ((vaddr + space.frame_size) % 2 ^ 32)

  -- The frames of a region, the last one whole. For sizes above 0xFFFFF000 `freed_size` wraps around
  -- and the loop of the code does not end; the model takes the sizes up to there.
  abbrev pub frames_of : ℕ → ℕ
  frames_of size = (size + space.frame_size - 1) / space.frame_size

  unfoldable pub vmm_free_pmm_frames : S → ℕ → ℕ → ℕ → S
  unfolding free_frames
  vmm_free_pmm_frames s config vaddr size = free_frames (frames_of size) s config vaddr

  -- The loop of `vmm_alloc` over regions that need not adjoin: `true` once all is mapped, `false`
  -- after the clean-up.
  unfoldable pub alloc_loop : ℕ → S → ℕ → ℕ → ℕ → ℕ → ℕ → S × Bool
  unfolding ask_less vmm_free_pmm_frames map_flags
  alloc_loop zero s config flags vaddr next_vaddr remaining_size = (s, false)
  alloc_loop (suc fuel) s config flags vaddr next_vaddr remaining_size =
      let (t, answer) = ask_less remaining_size s remaining_size in
      elim answer [
        | none ↦ (
          space.unmap (vmm_free_pmm_frames t config vaddr (next_vaddr - vaddr)) config vaddr
              (next_vaddr - vaddr),
          false,
        )
        | some r ↦
            let mapped = space.map t config (r.1) next_vaddr (r.0) (map_flags flags) in
            elim (leb remaining_size (r.0)) [
              | true ↦ (mapped, true)
              | false ↦
                  alloc_loop fuel mapped config flags vaddr ((next_vaddr + r.0) % 2 ^ 32)
                    (remaining_size - r.0)
            ]
      ]

  -- `vmm_alloc`
  unfoldable pub vmm_alloc : S → ℕ → ℕ → ℕ → ℕ → S × ℕ
  unfolding alloc_loop map_flags
  vmm_alloc s config size flags from_vaddr =
      let vaddr = space.find_free s config from_vaddr size in
      let (t, paddr) = space.pmm_alloc s size in
      let (u, done) = alloc_loop size s config flags vaddr vaddr size in
      if vaddr == uintptr_max
      then (s, 0)
      else if bit_and flags alloc_contiguous == 0
      then (if size == 0 then (s, vaddr) else (u, if done then vaddr else 0))
      else if paddr == uint64_max
      then (t, 0)
      else (space.map t config paddr vaddr size (map_flags flags), vaddr)

  -- `vmm_map_paddr`
  unfoldable pub vmm_map_paddr : S → ℕ → ℕ → ℕ → ℕ → ℕ → S × ℕ
  vmm_map_paddr s config paddr from_vaddr size flags =
      let remainder = paddr % space.frame_size in
      let whole = (size + remainder) % 2 ^ 32 in
      let vaddr = space.find_free s config from_vaddr whole in
      if vaddr == uintptr_max
      then (s, uintptr_max)
      else (space.map s config (paddr - remainder) vaddr whole flags, (vaddr + remainder) % 2 ^ 32)

  -- The default `vmm_find_free`, from `iter_vaddr` on; `none` where the fuel is not enough.
  unfoldable pub find_from : ℕ → S → ℕ → ℕ → ℕ → ℕ → ℕ → Option ℕ
  find_from zero s config vaddr frames free_frames iter_vaddr = none
  find_from (suc fuel) s config vaddr frames free_frames iter_vaddr =
      let free = if space.is_vaddr_used s config iter_vaddr then 0 else free_frames + 1 in
      elim (not (space.is_vaddr_used s config iter_vaddr) && free == frames) [
        | true ↦ some vaddr
        | false ↦ elim (leb (uintptr_max - space.frame_size + 1) iter_vaddr) [
          | true ↦ some uintptr_max
          | false ↦ find_from fuel s config vaddr frames free (iter_vaddr + space.frame_size)
        ]
      ]

  unfoldable pub default_find_free : ℕ → S → ℕ → ℕ → ℕ → Option ℕ
  unfolding find_from
  default_find_free fuel s config from_vaddr size =
      let over = from_vaddr % space.frame_size in
      let vaddr =
        if over == 0 then from_vaddr else (from_vaddr + (space.frame_size - over)) % 2 ^ 32 in
      find_from fuel s config vaddr ((size + space.frame_size - 1) % 2 ^ 32 / space.frame_size) 0
        vaddr

  -- The functions for the current config and for the kernel's; `vmm_unmap`, `vmm_get_paddr`,
  -- `vmm_is_vaddr_used` and `vmm_find_free` are those of the processor's part.
  unfoldable pub vmm_map_current : S → ℕ → ℕ → ℕ → ℕ → S
  vmm_map_current s paddr vaddr size flags =
      space.map s (space.current_config s) paddr vaddr size flags

  unfoldable pub vmm_map_kernel : S → ℕ → ℕ → ℕ → ℕ → S
  vmm_map_kernel s paddr vaddr size flags =
      space.map s (space.kernel_config s) paddr vaddr size flags

  unfoldable pub vmm_unmap_current : S → ℕ → ℕ → S
  vmm_unmap_current s vaddr size = space.unmap s (space.current_config s) vaddr size

  unfoldable pub vmm_unmap_kernel : S → ℕ → ℕ → S
  vmm_unmap_kernel s vaddr size = space.unmap s (space.kernel_config s) vaddr size

  unfoldable pub vmm_get_paddr_current : S → ℕ → Option ℕ
  vmm_get_paddr_current s vaddr = space.get_paddr s (space.current_config s) vaddr

  unfoldable pub vmm_get_paddr_kernel : S → ℕ → Option ℕ
  vmm_get_paddr_kernel s vaddr = space.get_paddr s (space.kernel_config s) vaddr

  unfoldable pub vmm_is_vaddr_used_current : S → ℕ → Bool
  vmm_is_vaddr_used_current s vaddr = space.is_vaddr_used s (space.current_config s) vaddr

  unfoldable pub vmm_is_vaddr_used_kernel : S → ℕ → Bool
  vmm_is_vaddr_used_kernel s vaddr = space.is_vaddr_used s (space.kernel_config s) vaddr

  unfoldable pub vmm_find_free_current : S → ℕ → ℕ → ℕ
  vmm_find_free_current s from_vaddr size =
      space.find_free s (space.current_config s) from_vaddr size

  unfoldable pub vmm_find_free_kernel : S → ℕ → ℕ → ℕ
  vmm_find_free_kernel s from_vaddr size = space.find_free s (space.kernel_config s) from_vaddr size

  unfoldable pub vmm_alloc_current : S → ℕ → ℕ → ℕ → S × ℕ
  unfolding vmm_alloc
  vmm_alloc_current s size flags from_vaddr =
      vmm_alloc s (space.current_config s) size flags from_vaddr

  unfoldable pub vmm_alloc_kernel : S → ℕ → ℕ → ℕ → S × ℕ
  unfolding vmm_alloc
  vmm_alloc_kernel s size flags from_vaddr =
      vmm_alloc s (space.kernel_config s) size flags from_vaddr

  unfoldable pub vmm_alloc_kernel_addrspace : S → ℕ → ℕ → S × ℕ
  unfolding vmm_alloc_kernel
  vmm_alloc_kernel_addrspace s size flags = vmm_alloc_kernel s size flags (space.kernel_end)

  unfoldable pub vmm_free_pmm_frames_current : S → ℕ → ℕ → S
  unfolding vmm_free_pmm_frames
  vmm_free_pmm_frames_current s vaddr size =
      vmm_free_pmm_frames s (space.current_config s) vaddr size

  unfoldable pub vmm_free_pmm_frames_kernel : S → ℕ → ℕ → S
  unfolding vmm_free_pmm_frames
  vmm_free_pmm_frames_kernel s vaddr size = vmm_free_pmm_frames s (space.kernel_config s) vaddr size

  unfoldable pub vmm_map_paddr_current : S → ℕ → ℕ → ℕ → ℕ → S × ℕ
  unfolding vmm_map_paddr
  vmm_map_paddr_current s paddr from_vaddr size flags =
      vmm_map_paddr s (space.current_config s) paddr from_vaddr size flags

  unfoldable pub vmm_map_paddr_kernel : S → ℕ → ℕ → ℕ → ℕ → S × ℕ
  unfolding vmm_map_paddr
  vmm_map_paddr_kernel s paddr from_vaddr size flags =
      vmm_map_paddr s (space.kernel_config s) paddr from_vaddr size flags

  unfoldable pub vmm_map_paddr_kernel_addrspace : S → ℕ → ℕ → ℕ → S × ℕ
  unfolding vmm_map_paddr_kernel
  vmm_map_paddr_kernel_addrspace s paddr size flags =
      vmm_map_paddr_kernel s paddr (space.kernel_end) size flags
