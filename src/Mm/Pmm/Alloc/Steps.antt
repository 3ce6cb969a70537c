-- ===== src/Mm/Pmm/Alloc/Steps.antt =====
-- `pmm_alloc` step by step, for runs on concrete memories.
use neo_sys_x.Common.{ℕ, suc, ◌+◌, ◌-◌, ◌*◌, ◌/◌, ◌≡◌, refl, sym, subst, some, u32, u64}
use neo_sys_x.Mm.Pmm.{Pmm, pick_level, search_level, search_levels, reserve, alloc}

-- The level that is searched has a run.
pub level_found :
    (p : Pmm) (left len level block start : ℕ)
    → search_level
        (u32 (p.sizes level * 32) + 1)
        (p.words level)
        (u32 (p.sizes level * 32))
        (u32 (u64 (len + block - 1) / block))
        0
        0
        0
        0
      ≡ some start
    → search_levels (suc left) p level block len ≡ some (u32 (start * block))
unfolding search_levels
level_found p left len level block start hit = rw (hit, search_levels) refl

-- `pmm_alloc`, from the level that is picked and what the search finds.
pub answered :
    (wide : ℕ) (p : Pmm) (len level block addr : ℕ)
    → pick_level 4 p 0 4096 len ≡ (level, block)
    → search_levels 4 p level block len ≡ some addr
    → alloc wide p len ≡ (addr, reserve wide p addr len)
unfolding alloc
answered wide p len level block addr pick found =
    let q = pick_level 4 p 0 4096 len in
    let e : search_levels 4 p q.0 q.1 len ≡ some addr =
      subst (λ q. search_levels 4 p q.0 q.1 len ≡ some addr) (sym pick) found in
    rw (e, alloc) refl
