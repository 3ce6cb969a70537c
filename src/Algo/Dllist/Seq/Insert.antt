-- ===== src/Algo/Dllist/Seq/Insert.antt =====
-- `dllist_insert` puts the node in at an index of the sequence.
use neo_sys_x.Common.{
  ℕ, zero, suc, ◌+◌, ◌-◌, ◌^◌, ◌≤◌, ◌<◌, ◌≡◌, refl, ◌≢◌, inl, inr, sym, ◌∙◌, ap, subst, true, false,
  ◌||◌, Bool-cases, ltb, ◌==◌, if◌then◌else◌, arith, update,
}
use neo_sys_x.Algo.Dllist.{
  Store, step_next, step_prev, prepend_head, detached, insert_forward, insert_backward, insert,
}
use neo_sys_x.Algo.Dllist.Seq.{
  IsSeq, put_in, Spliced, Spliced-IsSeq, append_tail-Spliced, prepend_head-Spliced,
  insert_between-Spliced, insert_before-Spliced,
}

-- The index that a position stands for, in a list of `n` nodes.
abbrev pub index_of : ℕ → ℕ → ℕ
index_of n pos =
    if ltb pos (2 ^ 31)
    then if ltb pos n then pos else n
    else if pos == 2 ^ 32 - 1
    then n
    else n - 1 - (2 ^ 32 - 1 - pos)

step_next-zero : (pos : ℕ) (s : Store) → step_next pos s 0 ≡ 0
unfolding step_next
step_next-zero zero s = refl
step_next-zero (suc pos) s = refl

module _ (s : Store) (list node n : ℕ) (x : ℕ → ℕ) (seq : IsSeq s list n x)
    (fresh : (i : ℕ) → i < n → x i ≢ node) where
  abbrev t : Store
  t = detached s list node

  step_next-at :
      (pos i : ℕ) → i < n → step_next pos t (x i) ≡ (if ltb (i + pos) n then x (i + pos) else 0)
  unfolding step_next
  step_next-at zero i h = let e : i + 0 ≡ i = omega arith in rw e (ground arith)
  step_next-at (suc pos) i h =
      let a : (x i == 0) ≡ false = ground (arith, seq.some_at i) in
      elim (Bool-cases (suc i == n)) [
        | inl e ↦
            let f : t.next (x i) ≡ 0 = ground (arith, seq.next_at i, fresh i) in
            let g : ltb (i + suc pos) n ≡ false = ground arith in
            rw (a, f, g) (step_next-zero pos t)
        | inr e ↦
            let f : t.next (x i) ≡ x (suc i) = ground (arith, seq.next_at i, fresh i) in
            let g : i + suc pos ≡ suc i + pos = omega arith in
            rw (a, f, g) (step_next-at pos (suc i) (ground arith))
      ]

  step_prev-at : (steps i : ℕ) → i < n → step_prev steps t (x i) ≡ x (i - steps)
  unfolding step_prev
  step_prev-at zero i h = ap x (omega arith)
  step_prev-at (suc steps) i h = elim (Bool-cases (i == 0)) [
    | inl e ↦
        let a : (t.prev (x i) == 0) ≡ true = ground (arith, seq.prev_at i, fresh i) in
        rw a (ap x (ground arith))
    | inr e ↦
        let f : t.prev (x i) ≡ x (i - 1) = ground (arith, seq.prev_at i, fresh i) in
        let a : (x (i - 1) == 0) ≡ false = ground (arith, seq.some_at (i - 1)) in
        let g : i - 1 - steps ≡ i - suc steps = omega arith in
        rw (f, a) (step_prev-at steps (i - 1) (omega arith) ∙ ap x g)
  ]

module _ (s : Store) (list node n : ℕ) (x : ℕ → ℕ) (seq : IsSeq s list n x) (some_node : node ≢ 0)
    (fresh : (i : ℕ) → i < n → x i ≢ node) (filled : 1 ≤ n) where
  insert_forward-Spliced :
      (pos : ℕ)
      → Spliced s
          (insert_forward (detached s list node) list node pos)
          list
          n
          x
          (if ltb pos n then pos else n)
          node
  unfolding insert_forward
  insert_forward-Spliced pos =
      let head : s.head list ≡ x 0 = ground (arith, seq.head_at) in
      let at = step_next-at s list node n x seq fresh pos 0 filled in
      let z : 0 + pos ≡ pos = omega arith in
      let d = detached s list node in
      elim (Bool-cases (ltb pos n)) [
        | inr e ↦
            let c : step_next pos d (s.head list) ≡ 0 = rw head (at ∙ rw (z, e) refl) in
            rw (c, e) (append_tail-Spliced s list node n x seq some_node fresh filled)
        | inl e ↦
            let c : step_next pos d (s.head list) ≡ x pos = rw head (at ∙ rw (z, e) refl) in
            let a : (x pos == 0) ≡ false = ground (arith, seq.some_at pos) in
            elim (Bool-cases (pos == 0)) [
              | inl f ↦
                  let g : pos ≡ 0 = ground arith in
                  let b : (x pos == s.head list) ≡ true = ground (arith, ap x g) in
                  rw (c, e, a, b)
                    (subst (λ (k : ℕ). Spliced s (prepend_head d list node) list n x k node) (sym g)
                      (prepend_head-Spliced s list node n x seq some_node fresh filled))
              | inr f ↦
                  let b : (x pos == s.head list) ≡ false = ground (arith, seq.apart pos 0) in
                  rw (c, e, a, b)
                    (insert_between-Spliced s list node n x seq some_node fresh pos (ground arith)
                      (ground arith))
            ]
      ]

  insert_backward-Spliced :
      (steps : ℕ)
      → Spliced s
          (insert_backward (detached s list node) list node steps)
          list
          n
          x
          (if steps == 0 then n else n - 1 - steps)
          node
  unfolding insert_backward
  insert_backward-Spliced steps =
      let tail : s.tail list ≡ x (n - 1) = ground (arith, seq.tail_at) in
      let at = step_prev-at s list node n x seq fresh steps (n - 1) (omega arith) in
      elim (Bool-cases (steps == 0)) [
        | inl e ↦ rw e (append_tail-Spliced s list node n x seq some_node fresh filled)
        | inr e ↦
            rw (e, tail, at)
              (insert_before-Spliced s list node n x seq some_node fresh (n - 1 - steps)
                (omega arith))
      ]

-- A list of one node.
abbrev alone : Store → ℕ → ℕ → Store
alone s list node =
    let d = detached s list node in
    record d { head = update d.head list node; tail = update d.tail list node }

alone-Spliced :
    (s : Store) (list node n : ℕ) (x : ℕ → ℕ)
    → n ≡ 0
    → Spliced s (alone s list node) list n x 0 node
alone-Spliced s list node n x none_there = record {
  new_head = ground arith;
  new_tail = ground arith;
  node_owner = ground arith;
  node_next = ground arith;
  node_prev = ground arith;
  same_owner = λ i b. absurd (omega arith);
  new_next = λ i b. absurd (omega arith);
  new_prev = λ i b. absurd (omega arith);
}

module _ (s : Store) (list node n : ℕ) (x : ℕ → ℕ) (seq : IsSeq s list n x) (some_node : node ≢ 0)
    (fresh : (i : ℕ) → i < n → x i ≢ node) where
  insert-Spliced :
      (pos : ℕ)
      → list ≢ 0
      → pos < 2 ^ 32
      → Spliced s (insert s list node pos) list n x (index_of n pos) node
  unfolding insert
  insert-Spliced pos some_list fits =
      let a : (list == 0 || node == 0) ≡ false = ground arith in
      elim (Bool-cases (n == 0)) [
        | inl e ↦
            let b : (s.head list == 0) ≡ true = ground (arith, seq.head_at) in
            let k : 0 ≡ index_of n pos = ground arith in
            rw (a, b)
              (subst (λ (j : ℕ). Spliced s (alone s list node) list n x j node) k
                (alone-Spliced s list node n x (ground arith)))
        | inr e ↦
            let b : (s.head list == 0) ≡ false = ground (arith, seq.head_at, seq.some_at 0) in
            elim (Bool-cases (ltb pos (2 ^ 31))) [
              | inl f ↦
                  rw (a, b, f)
                    (insert_forward-Spliced s list node n x seq some_node fresh (ground arith) pos)
              | inr f ↦
                  let g : (2 ^ 32 - pos - 1 == 0) ≡ (pos == 2 ^ 32 - 1) = ground arith in
                  let h : 2 ^ 32 - pos - 1 ≡ 2 ^ 32 - 1 - pos = omega arith in
                  rw (a, b, f)
                    (subst
                      (λ (k : ℕ).
                        Spliced s
                          (insert_backward (detached s list node) list node (2 ^ 32 - pos - 1)) list
                          n x k node)
                      (ground (arith, g, h))
                      (insert_backward-Spliced s list node n x seq some_node fresh (ground arith)
                        (2 ^ 32 - pos - 1)))
            ]
      ]

  -- `dllist_insert` of a node that is not in the list puts it into the sequence of the list, with
  -- all links right. A position from 0 on is the index, or the end where it is too large; -1 is
  -- the end; and a position of -1 - k stands k places before the last node, or first: so -2 goes
  -- before the last but one, not before the last.
  pub insert-IsSeq :
      (pos : ℕ)
      → list ≢ 0
      → pos < 2 ^ 32
      → IsSeq (insert s list node pos) list (suc n) (put_in x (index_of n pos) node)
  insert-IsSeq pos some_list fits =
      Spliced-IsSeq s (insert s list node pos) list n x (index_of n pos) node seq
        (insert-Spliced pos some_list fits) (ground arith) some_node fresh
