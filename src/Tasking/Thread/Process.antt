-- ===== src/Tasking/Thread/Process.antt =====
-- What `thread_new_pcb` of kernel/common/src/tasking/thread.c does, on every path.
use neo_sys_x.Common.{
  ℕ, ◌≡◌, refl, ◌≢◌, ◌⊎◌, inl, inr, false, Bool-cases, some, size_max, ◌==◌, if◌then◌else◌, arith,
  update,
}
use neo_sys_x.Algo.Idalloc.{Idalloc}
use neo_sys_x.Algo.Idalloc.Wf.{IsWf, IsHeap, used}
use neo_sys_x.Algo.Idalloc.Alloc.{Took, alloc-Returns, free-IsWf, free-used}
use neo_sys_x.Tasking.Thread.{Threads, Services, config_pcb, link_pcb, thread_new_pcb}

module _ {W : Type 0} (services : Services W) where
  -- A process is made and has an id that no other had; or nothing is left behind: the same ids are
  -- taken as before, and no list has changed.
  abbrev pub MadeOrNot : Threads W → Threads W → ℕ → Type 0
  MadeOrNot s t pcb =
      IsWf (t.pids)
      × (((pcb ≡ 0) × ((j : ℕ) → used (t.pids) j ≡ used (s.pids) j) × (t.nodes ≡ s.nodes))
          ⊎ ((pcb ≢ 0)
              × (used (s.pids) (t.pcb_id pcb) ≡ 0)
              × ((j : ℕ) → used (t.pids) j ≡ (if j == t.pcb_id pcb then 1 else used (s.pids) j))
              × (t.pcb_config pcb ≢ 0)))

  config_pcb-MadeOrNot :
      (s u : Threads W) (pcb id : ℕ)
      → Took (s.pids) id (u.pids)
      → pcb ≢ 0
      → u.nodes ≡ s.nodes
      → u.pcb_id pcb ≡ id
      → MadeOrNot s ((config_pcb services u pcb id).0) ((config_pcb services u pcb id).1)
  unfolding config_pcb link_pcb
  config_pcb-MadeOrNot s u pcb id took there same at =
      let (w, config) = services.new_config (u.outside) in
      elim (Bool-cases (config == 0)) [
        | inl e ↦ rw e (
          free-IsWf (took.wf) id,
          inl (
            refl,
            λ j. ground (arith, free-used (took.wf) id j, took.marks j, took.was_free),
            same,
          ),
        )
        | inr e ↦
            rw e
              (took.wf, inr (there, rw at (took.was_free), λ j. rw at (took.marks j), ground arith))
      ]

  -- `thread_new_pcb` after the allocation of an id.
  abbrev with_id : Threads W → W → ℕ → ℕ → Idalloc → Threads W
  with_id s w pcb id after = record s {
    outside = w;
    pids = after;
    pcb_id = update (s.pcb_id) pcb id;
  }

  failed-MadeOrNot :
      (s : Threads W) (w : W) (pcb : ℕ) (after : Idalloc)
      → IsWf (s.pids)
      → after ≡ s.pids
      → MadeOrNot s (record (with_id s w pcb size_max after) { outside = services.free w pcb }) 0
  failed-MadeOrNot s w pcb after wf kept = rw kept (wf, inl (refl, λ j. refl, refl))

  -- With a well-formed allocator of process ids and a heap as it needs, `thread_new_pcb` always
  -- returns. Either it answers a process whose id was free before and is now the only one more
  -- that is taken, with an address space; or it answers `NULL`, whichever of its three
  -- allocations failed, and then exactly the ids are taken that were, and no list has changed.
  pub thread_new_pcb-MadeOrNot :
      (s : Threads W)
      → IsHeap (services.realloc)
      → IsWf (s.pids)
      → (t : Threads W) × (pcb : ℕ) × (thread_new_pcb services s ≡ some (t, pcb))
        × MadeOrNot s t pcb
  unfolding thread_new_pcb
  thread_new_pcb-MadeOrNot s heap wf =
      let (w, pcb) = services.malloc (s.outside) in
      elim (Bool-cases (pcb == 0)) [
        | inl e ↦ (record s { outside = w }, 0, rw e refl, (wf, inl (refl, λ j. refl, refl)))
        | inr e ↦
            let (id, after, f, ends) = alloc-Returns (services.realloc) heap wf in
            elim ends [
              | inl took ↦
                  let g : (id == size_max) ≡ false =
                    ground (arith, took.next, took.wf.next_bounded) in
                  let r = config_pcb services (with_id s w pcb id after) pcb id in
                  (
                    r.0,
                    r.1,
                    rw (e, f, g) refl,
                    config_pcb-MadeOrNot s (with_id s w pcb id after) pcb id took (ground arith)
                        refl (ground arith),
                  )
              | inr full ↦
                  let g : id ≡ size_max = full.no_id in
                  (
                    record (with_id s w pcb id after) { outside = services.free w pcb },
                    0,
                    rw (e, f, g) refl,
                    rw g (failed-MadeOrNot s w pcb after wf (full.kept)),
                  )
            ]
      ]
