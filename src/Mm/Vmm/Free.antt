-- ===== src/Mm/Vmm/Free.antt =====
-- What the default `vmm_find_free` of kernel/common/src/mm/vmm.c answers.
use neo_sys_x.Common.{
  ℕ, zero, suc, ◌+◌, ◌-◌, ◌/◌, ◌%◌, ◌^◌, ◌≤◌, ◌<◌, ◌≡◌, refl, ◌∙◌, Bool, true, false, not, ◌&&◌,
  some, leb, ◌==◌, if◌then◌else◌, arith,
}
use neo_sys_x.Mm.Vmm.{Space, uintptr_max, find_from, default_find_free}

module _ {S : Type 0} (space : Space S) (s : S) (config : ℕ) (frame : 1 ≤ space.frame_size) where
  abbrev uses : ℕ → Bool
  uses vaddr = space.is_vaddr_used s config vaddr

  find_from-used :
      (fuel vaddr frames free iter : ℕ)
      → uses iter ≡ true
      → iter + space.frame_size < uintptr_max
      → find_from space (suc fuel) s config vaddr frames free iter
        ≡ find_from space fuel s config vaddr frames 0 (iter + space.frame_size)
  unfolding find_from
  find_from-used fuel vaddr frames free iter e h =
      let f : leb (uintptr_max - space.frame_size + 1) iter ≡ false = ground arith in
      let g : (not (uses iter) && ((if uses iter then 0 else free + 1) == frames)) ≡ false =
        ground arith in
      rw (g, f, e, find_from) refl

  find_from-free :
      (fuel vaddr frames free iter : ℕ)
      → uses iter ≡ false
      → free + 1 ≡ frames
      → find_from space (suc fuel) s config vaddr frames free iter ≡ some vaddr
  unfolding find_from
  find_from-free fuel vaddr frames free iter e count =
      let f : (not (uses iter) && ((if uses iter then 0 else free + 1) == frames)) ≡ true =
        ground arith in
      rw (f, find_from) refl

  -- Where a page is wanted, the first page looked at is in use and the one behind it is not, the
  -- default `vmm_find_free` answers the first: the page that is in use.
  default_find_free-used :
      (fuel vaddr size : ℕ)
      → space.frame_size ≡ 4096
      → vaddr % 4096 ≡ 0
      → vaddr + 8192 < 2 ^ 32
      → 1 ≤ size
      → size ≤ 4096
      → uses vaddr ≡ true
      → uses (vaddr + 4096) ≡ false
      → 2 ≤ fuel
      → default_find_free space fuel s config vaddr size ≡ some vaddr
  unfolding default_find_free
  default_find_free-used zero vaddr size whole aligned fits a b taken free enough =
      absurd (omega arith)
  default_find_free-used (suc zero) vaddr size whole aligned fits a b taken free enough =
      absurd (omega arith)
  default_find_free-used (suc (suc fuel)) vaddr size whole aligned fits a b taken free enough =
      let e : (vaddr % space.frame_size == 0) ≡ true = rw whole (ground arith) in
      let f : (size + space.frame_size - 1) % 2 ^ 32 / space.frame_size ≡ 1 =
        rw whole (omega arith) in
      let g : uses (vaddr + space.frame_size) ≡ false = rw whole free in
      rw (e, f)
        (find_from-used (suc fuel) vaddr 1 0 vaddr taken (omega arith)
          ∙ find_from-free fuel vaddr 1 0 (vaddr + space.frame_size) g refl)
