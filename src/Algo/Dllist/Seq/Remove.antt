-- ===== src/Algo/Dllist/Seq/Remove.antt =====
-- `dllist_remove` takes the node out of the sequence.
use neo_sys_x.Common.{
  ℕ, suc, ◌-◌, ◌<◌, ◌≡◌, ◌≢◌, inl, inr, ap, true, false, ◌||◌, Bool-cases, ltb, ◌==◌, if◌then◌else◌,
  arith, update,
}
use neo_sys_x.Algo.Dllist.{Store, detached, unlink_node, remove}
use neo_sys_x.Algo.Dllist.Seq.{IsSeq, take_out}

-- A store that no longer has the node at index `k` between its neighbours.
record Unspliced (s t : Store) (list n : ℕ) (x : ℕ → ℕ) (k : ℕ) : Type 0 where
  new_head : t.head list ≡ (if k == 0 then s.next (x k) else s.head list)
  new_tail : t.tail list ≡ (if suc k == n then s.prev (x k) else s.tail list)
  same_owner : (i : ℕ) → i < n → i ≢ k → t.owner (x i) ≡ s.owner (x i)
  new_next :
      (i : ℕ) → i < n → i ≢ k → t.next (x i) ≡ (if suc i == k then s.next (x k) else s.next (x i))
  new_prev :
      (i : ℕ) → i < n → i ≢ k → t.prev (x i) ≡ (if i == suc k then s.prev (x k) else s.prev (x i))

module _ (s t : Store) (list n : ℕ) (x : ℕ → ℕ) (k : ℕ) (seq : IsSeq s list n x)
    (unspliced : Unspliced s t list n x k) (at : k < n) where
  unspliced-head : t.head list ≡ (if n - 1 == 0 then 0 else take_out x k 0)
  unspliced-head = ground (arith, unspliced.new_head, seq.head_at, seq.next_at k)

  unspliced-tail : t.tail list ≡ (if n - 1 == 0 then 0 else take_out x k (n - 1 - 1))
  unspliced-tail = elim (Bool-cases (suc k == n)) [
    | inl e ↦
        let same : n - 1 - 1 ≡ k - 1 = ground arith in
        rw same (ground (arith, unspliced.new_tail, seq.prev_at k))
    | inr e ↦
        let same : x (suc (n - 1 - 1)) ≡ x (n - 1) = ap x (ground arith) in
        ground (arith, same, unspliced.new_tail, seq.tail_at)
  ]

  unspliced-next :
      (i : ℕ)
      → i < n - 1
      → t.next (take_out x k i) ≡ (if suc i == n - 1 then 0 else take_out x k (suc i))
  unspliced-next i h = elim (Bool-cases (ltb i k)) [
    | inl e ↦ elim (Bool-cases (suc i == k)) [
      | inl f ↦
          let same : k ≡ suc i = ground arith in
          ground (arith, unspliced.new_next i, seq.next_at k, seq.next_at i)
      | inr f ↦ ground (arith, unspliced.new_next i, seq.next_at i)
    ]
    | inr e ↦ ground (arith, unspliced.new_next (suc i), seq.next_at (suc i))
  ]

  unspliced-prev :
      (i : ℕ) → i < n - 1 → t.prev (take_out x k i) ≡ (if i == 0 then 0 else take_out x k (i - 1))
  unspliced-prev i h = elim (Bool-cases (ltb i k)) [
    | inl e ↦ ground (arith, unspliced.new_prev i, seq.prev_at i)
    | inr e ↦ elim (Bool-cases (i == k)) [
      | inl f ↦
          let same : i ≡ k = ground arith in
          rw same (ground (arith, unspliced.new_prev (suc k), seq.prev_at k))
      | inr f ↦
          let same : x (suc (i - 1)) ≡ x i = ap x (ground arith) in
          ground (arith, same, unspliced.new_prev (suc i), seq.prev_at (suc i))
    ]
  ]

  Unspliced-IsSeq : IsSeq t list (n - 1) (take_out x k)
  Unspliced-IsSeq = record {
    head_at = unspliced-head;
    tail_at = unspliced-tail;
    some_at = λ i b. ground (arith, seq.some_at i, seq.some_at (suc i));
    owner_at = λ i b. ground (
      arith,
      unspliced.same_owner i,
      unspliced.same_owner (suc i),
      seq.owner_at i,
      seq.owner_at (suc i),
    );
    next_at = unspliced-next;
    prev_at = unspliced-prev;
    apart = λ i j b c e.
        ground (
          arith,
          seq.apart i j,
          seq.apart i (suc j),
          seq.apart (suc i) j,
          seq.apart (suc i) (suc j),
        );
  }

module _ (s : Store) (list n : ℕ) (x : ℕ → ℕ) (seq : IsSeq s list n x) (some_list : list ≢ 0)
    (k : ℕ) (at : k < n) where
  only-Unspliced :
      k ≡ 0
      → n ≡ 1
      → Unspliced s
          (detached
            (record s { head = update (s.head) list 0; tail = update (s.tail) list 0 })
            0
            (x k))
          list
          n
          x
          k
  only-Unspliced first one = record {
    new_head = ground (arith, seq.next_at k);
    new_tail = ground (arith, seq.prev_at k);
    same_owner = λ i b o. absurd (omega arith);
    new_next = λ i b o. absurd (omega arith);
    new_prev = λ i b o. absurd (omega arith);
  }

  first-Unspliced :
      k ≡ 0
      → 1 < n
      → Unspliced s
          (detached
            (record s {
              head = update (s.head) list (s.next (x k));
              prev = update (s.prev) (s.next (x k)) 0;
            })
            0
            (x k))
          list
          n
          x
          k
  first-Unspliced first more =
      let next : s.next (x k) ≡ x (suc k) = ground (arith, seq.next_at k) in
      let prev : s.prev (x k) ≡ 0 = ground (arith, seq.prev_at k) in
      record {
        new_head = ground arith;
        new_tail = ground arith;
        same_owner = λ i b o. ground (arith, seq.apart i k);
        new_next = λ i b o. ground (arith, seq.apart i k);
        new_prev = λ i b o. elim (Bool-cases (i == suc k)) [
          | inl e ↦
              let same : i ≡ suc k = ground arith in
              rw same (ground (arith, next, prev, seq.apart (suc k) k))
          | inr e ↦ ground (arith, next, seq.apart i k, seq.apart i (suc k))
        ];
      }

  last-Unspliced :
      suc k ≡ n
      → 0 < k
      → Unspliced s
          (detached
            (record s {
              tail = update (s.tail) list (s.prev (x k));
              next = update (s.next) (s.prev (x k)) 0;
            })
            0
            (x k))
          list
          n
          x
          k
  last-Unspliced last more =
      let next : s.next (x k) ≡ 0 = ground (arith, seq.next_at k) in
      let prev : s.prev (x k) ≡ x (k - 1) = ground (arith, seq.prev_at k) in
      record {
        new_head = ground arith;
        new_tail = ground arith;
        same_owner = λ i b o. ground (arith, seq.apart i k);
        new_next = λ i b o. elim (Bool-cases (suc i == k)) [
          | inl e ↦
              let same : i ≡ k - 1 = ground arith in
              rw same (ground (arith, next, prev, seq.apart (k - 1) k))
          | inr e ↦ ground (arith, prev, seq.apart i k, seq.apart i (k - 1))
        ];
        new_prev = λ i b o. ground (arith, seq.apart i k);
      }

  middle-Unspliced :
      suc k < n
      → 0 < k
      → Unspliced s
          (detached
            (record s {
              next = update (s.next) (s.prev (x k)) (s.next (x k));
              prev = update (s.prev) (s.next (x k)) (s.prev (x k));
            })
            0
            (x k))
          list
          n
          x
          k
  middle-Unspliced before behind =
      let next : s.next (x k) ≡ x (suc k) = ground (arith, seq.next_at k) in
      let prev : s.prev (x k) ≡ x (k - 1) = ground (arith, seq.prev_at k) in
      record {
        new_head = ground arith;
        new_tail = ground arith;
        same_owner = λ i b o. ground (arith, seq.apart i k);
        new_next = λ i b o. elim (Bool-cases (suc i == k)) [
          | inl e ↦
              let same : i ≡ k - 1 = ground arith in
              rw same (ground (arith, next, prev, seq.apart (k - 1) k))
          | inr e ↦ ground (arith, prev, seq.apart i k, seq.apart i (k - 1))
        ];
        new_prev = λ i b o. elim (Bool-cases (i == suc k)) [
          | inl e ↦
              let same : i ≡ suc k = ground arith in
              rw same (ground (arith, next, prev, seq.apart (suc k) k))
          | inr e ↦ ground (arith, next, seq.apart i k, seq.apart i (suc k))
        ];
      }

  remove-Unspliced : Unspliced s (detached (unlink_node s (x k)) 0 (x k)) list n x k
  unfolding unlink_node
  remove-Unspliced =
      let owner = seq.owner_at k at in
      let head : s.head list ≡ x 0 = ground (arith, seq.head_at) in
      let tail : s.tail list ≡ x (n - 1) = ground (arith, seq.tail_at) in
      elim (Bool-cases (k == 0)) [
        | inl e ↦
            let h : (s.head list == x k) ≡ true =
              ground (arith, head, ap x {x = k} {y = 0} (ground arith)) in
            elim (Bool-cases (n == 1)) [
              | inl f ↦
                  let g : (s.head list == s.tail list) ≡ true =
                    ground (arith, head, tail, ap x {x = n - 1} {y = 0} (ground arith)) in
                  rw (owner, h, g) (only-Unspliced (ground arith) (ground arith))
              | inr f ↦
                  let g : (s.head list == s.tail list) ≡ false =
                    ground (arith, head, tail, seq.apart 0 (n - 1)) in
                  rw (owner, h, g) (first-Unspliced (ground arith) (ground arith))
            ]
        | inr e ↦
            let h : (s.head list == x k) ≡ false = ground (arith, head, seq.apart 0 k) in
            elim (Bool-cases (suc k == n)) [
              | inl f ↦
                  let g : (s.tail list == x k) ≡ true =
                    ground (arith, tail, ap x {x = k} {y = n - 1} (ground arith)) in
                  rw (owner, h, g) (last-Unspliced (ground arith) (ground arith))
              | inr f ↦
                  let g : (s.tail list == x k) ≡ false =
                    ground (arith, tail, seq.apart (n - 1) k) in
                  rw (owner, h, g) (middle-Unspliced (ground arith) (ground arith))
            ]
      ]

  -- `dllist_remove` of a node of a list takes it out of the sequence of the list, wherever it
  -- stands, with all links right, and the node belongs to no list afterwards.
  pub remove-IsSeq :
      IsSeq (remove s (x k)) list (n - 1) (take_out x k) × ((remove s (x k)).owner (x k) ≡ 0)
  unfolding remove
  remove-IsSeq =
      let owner = seq.owner_at k at in
      let a : (x k == 0 || s.owner (x k) == 0) ≡ false = ground (arith, owner, seq.some_at k) in
      rw a (
        Unspliced-IsSeq s (detached (unlink_node s (x k)) 0 (x k)) list n x k seq remove-Unspliced
            at,
        ground arith,
      )
