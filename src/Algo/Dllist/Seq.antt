-- ===== src/Algo/Dllist/Seq.antt =====
-- What a list holds, as a sequence: `dllist_insert` and `dllist_remove` against insertion into a
-- sequence at an index, and removal from it.
pub mod Insert
pub mod Remove
use neo_sys_x.Common.{
  ℕ, zero, suc, ◌+◌, ◌-◌, ◌^◌, ◌≤◌, ◌<◌, ◌≡◌, refl, ◌≢◌, inl, inr, sym, ◌∙◌, ap, subst, Bool, true,
  false, ◌||◌, Bool-cases, ltb, ◌==◌, if◌then◌else◌, min, arith, update,
}
use neo_sys_x.Algo.Dllist.{
  Store, step_next, step_prev, append_tail, prepend_head, insert_between, insert_before, detached,
  insert_forward, insert_backward, insert, unlink_node, remove,
}

-- The nodes of a list are `x 0`, …, `x (n - 1)`.
pub record IsSeq (s : Store) (list n : ℕ) (x : ℕ → ℕ) : Type 0 where
  pub head_at : s.head list ≡ (if n == 0 then 0 else x 0)
  pub tail_at : s.tail list ≡ (if n == 0 then 0 else x (n - 1))
  pub some_at : (i : ℕ) → i < n → x i ≢ 0
  pub owner_at : (i : ℕ) → i < n → s.owner (x i) ≡ list
  pub next_at : (i : ℕ) → i < n → s.next (x i) ≡ (if suc i == n then 0 else x (suc i))
  pub prev_at : (i : ℕ) → i < n → s.prev (x i) ≡ (if i == 0 then 0 else x (i - 1))
  pub apart : (i j : ℕ) → i < n → j < n → x i ≡ x j → i ≡ j

-- A sequence with a node put in at an index, and one with the node at an index taken out.
abbrev pub put_in : (ℕ → ℕ) → ℕ → ℕ → ℕ → ℕ
put_in x k node i = if ltb i k then x i else if i == k then node else x (i - 1)

abbrev pub take_out : (ℕ → ℕ) → ℕ → ℕ → ℕ
take_out x k i = if ltb i k then x i else x (suc i)

-- A store that has a node more at index `k`, next to what it had.
pub record Spliced (s t : Store) (list n : ℕ) (x : ℕ → ℕ) (k node : ℕ) : Type 0 where
  pub new_head : t.head list ≡ (if k == 0 then node else s.head list)
  pub new_tail : t.tail list ≡ (if k == n then node else s.tail list)
  pub node_owner : t.owner node ≡ list
  pub node_next : t.next node ≡ (if k == n then 0 else x k)
  pub node_prev : t.prev node ≡ (if k == 0 then 0 else x (k - 1))
  pub same_owner : (i : ℕ) → i < n → t.owner (x i) ≡ s.owner (x i)
  pub new_next : (i : ℕ) → i < n → t.next (x i) ≡ (if suc i == k then node else s.next (x i))
  pub new_prev : (i : ℕ) → i < n → t.prev (x i) ≡ (if i == k then node else s.prev (x i))

module _ (s t : Store) (list n : ℕ) (x : ℕ → ℕ) (k node : ℕ) (seq : IsSeq s list n x)
    (spliced : Spliced s t list n x k node) (at : k ≤ n) (some_node : node ≢ 0)
    (fresh : (i : ℕ) → i < n → x i ≢ node) where
  spliced-next :
      (i : ℕ)
      → i < suc n
      → t.next (put_in x k node i) ≡ (if suc i == suc n then 0 else put_in x k node (suc i))
  spliced-next i h = elim (Bool-cases (ltb i k)) [
    | inl e ↦ ground (arith, spliced.new_next i, seq.next_at i)
    | inr e ↦ elim (Bool-cases (i == k)) [
      | inl f ↦ ground (arith, spliced.node_next)
      | inr f ↦ ground (arith, spliced.new_next (i - 1), seq.next_at (i - 1))
    ]
  ]

  spliced-prev :
      (i : ℕ)
      → i < suc n
      → t.prev (put_in x k node i) ≡ (if i == 0 then 0 else put_in x k node (i - 1))
  spliced-prev i h = elim (Bool-cases (ltb i k)) [
    | inl e ↦ ground (arith, spliced.new_prev i, seq.prev_at i)
    | inr e ↦ elim (Bool-cases (i == k)) [
      | inl f ↦ ground (arith, spliced.node_prev)
      | inr f ↦ ground (arith, spliced.new_prev (i - 1), seq.prev_at (i - 1))
    ]
  ]

  spliced-apart : (i j : ℕ) → i < suc n → j < suc n → put_in x k node i ≡ put_in x k node j → i ≡ j
  spliced-apart i j h l e = ground (
    arith,
    fresh i,
    fresh j,
    fresh (i - 1),
    fresh (j - 1),
    seq.apart i j,
    seq.apart i (j - 1),
    seq.apart (i - 1) j,
    seq.apart (i - 1) (j - 1),
  )

  pub Spliced-IsSeq : IsSeq t list (suc n) (put_in x k node)
  Spliced-IsSeq = record {
    head_at = ground (arith, spliced.new_head, seq.head_at);
    tail_at = ground (arith, spliced.new_tail, seq.tail_at);
    some_at = λ i h. ground (arith, seq.some_at i, seq.some_at (i - 1));
    owner_at = λ i h. ground (
      arith,
      spliced.node_owner,
      spliced.same_owner i,
      spliced.same_owner (i - 1),
      seq.owner_at i,
      seq.owner_at (i - 1),
    );
    next_at = spliced-next;
    prev_at = spliced-prev;
    apart = spliced-apart;
  }

module _ (s : Store) (list node n : ℕ) (x : ℕ → ℕ) (seq : IsSeq s list n x) (some_node : node ≢ 0)
    (fresh : (i : ℕ) → i < n → x i ≢ node) where
  pub append_tail-Spliced :
      1 ≤ n → Spliced s (append_tail (detached s list node) list node) list n x n node
  unfolding append_tail
  append_tail-Spliced h =
      let last : s.tail list ≡ x (n - 1) = ground (arith, seq.tail_at) in
      record {
        new_head = ground arith;
        new_tail = ground arith;
        node_owner = ground arith;
        node_next = ground (arith, fresh (n - 1));
        node_prev = ground (arith, last);
        same_owner = λ i b. ground (arith, fresh i);
        new_next = λ i b. ground (arith, last, fresh i, seq.apart i (n - 1));
        new_prev = λ i b. ground (arith, fresh i);
      }

  pub prepend_head-Spliced :
      1 ≤ n → Spliced s (prepend_head (detached s list node) list node) list n x 0 node
  unfolding prepend_head
  prepend_head-Spliced h =
      let first : s.head list ≡ x 0 = ground (arith, seq.head_at) in
      record {
        new_head = ground arith;
        new_tail = ground arith;
        node_owner = ground arith;
        node_next = ground (arith, first);
        node_prev = ground (arith, first, fresh 0);
        same_owner = λ i b. ground (arith, fresh i);
        new_next = λ i b. ground (arith, fresh i);
        new_prev = λ i b. ground (arith, first, fresh i, seq.apart i 0);
      }

  pub insert_between-Spliced :
      (k : ℕ)
      → 1 ≤ k
      → k < n
      → Spliced s (insert_between (detached s list node) (x k) node) list n x k node
  unfolding insert_between
  insert_between-Spliced k h l =
      let before : update (s.prev) node 0 (x k) ≡ x (k - 1) =
        ground (arith, seq.prev_at k, fresh k) in
      record {
        new_head = ground arith;
        new_tail = ground arith;
        node_owner = ground arith;
        node_next = ground (arith, before, fresh (k - 1), fresh k);
        node_prev = ground (arith, before, fresh k);
        same_owner = λ i b. ground (arith, fresh i);
        new_next = λ i b. elim (Bool-cases (suc i == k)) [
          | inl e ↦
              let same : x i ≡ x (k - 1) = ap x (ground arith) in
              ground (arith, before, same, fresh i, fresh k)
          | inr e ↦
              let other : x i ≢ x (k - 1) =
                (λ f. absurd (ground (arith, seq.apart i (k - 1) b (omega arith) f))) in
              ground (arith, before, other, fresh i, fresh k)
        ];
        new_prev = λ i b. ground (arith, before, fresh i, fresh k, seq.apart i k);
      }

  insert_before-first :
      1 ≤ n → Spliced s (insert_before (detached s list node) list (x 0) node) list n x 0 node
  unfolding insert_before
  insert_before-first h =
      let a : (update (s.prev) node 0 (x 0) == 0) ≡ true = ground (arith, seq.prev_at 0, fresh 0) in
      let b : update (s.prev) node 0 (x 0) ≡ 0 = ground arith in
      rw (a, insert_before)
        (record {
          new_head = ground arith;
          new_tail = ground arith;
          node_owner = ground arith;
          node_next = ground (arith, fresh 0);
          node_prev = ground (arith, b, fresh 0);
          same_owner = λ i b. ground (arith, fresh i);
          new_next = λ i b. ground (arith, fresh i);
          new_prev = λ i b. ground (arith, fresh i, seq.apart i 0);
        })

  pub insert_before-Spliced :
      (k : ℕ)
      → k < n
      → Spliced s (insert_before (detached s list node) list (x k) node) list n x k node
  unfolding insert_before
  insert_before-Spliced k l = elim (Bool-cases (k == 0)) [
    | inl e ↦
        let z : k ≡ 0 = ground arith in
        subst
          (λ (j : ℕ).
            Spliced s (insert_before (detached s list node) list (x j) node) list n x j node)
          (sym z) (insert_before-first (omega arith))
    | inr e ↦
        let a : (update (s.prev) node 0 (x k) == 0) ≡ false =
          ground (arith, seq.prev_at k, fresh k, seq.some_at (k - 1)) in
        rw (a, insert_before) (insert_between-Spliced k (ground arith) l)
  ]
