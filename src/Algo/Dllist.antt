-- ===== src/Algo/Dllist.antt =====
-- kernel/common/src/algo/dllist.c: doubly linked lists, whose nodes stand in their owners.
-- A store gives each address of a node or of a list its fields; 0 is `NULL`.
pub mod Seq
mod Tests
use neo_sys_x.Common.{ℕ, zero, suc, ◌-◌, ◌^◌, ◌||◌, ltb, ◌==◌, if◌then◌else◌, update}

-- The fields of `dllist_node_t`, and of `dllist_t`.
pub record Store : Type 0 where
  pub owner : ℕ → ℕ
  pub prev : ℕ → ℕ
  pub next : ℕ → ℕ
  pub head : ℕ → ℕ
  pub tail : ℕ → ℕ

-- The loop from the head, `pos` steps at most.
unfoldable pub step_next : ℕ → Store → ℕ → ℕ
step_next zero s curr = curr
step_next (suc pos) s curr =
    let rest = step_next pos s (s.next curr) in if curr == 0 then curr else rest

-- The loop from the tail, which stops at the first node.
unfoldable pub step_prev : ℕ → Store → ℕ → ℕ
step_prev zero s curr = curr
step_prev (suc steps) s curr =
    let rest = step_prev steps s (s.prev curr) in if s.prev curr == 0 then curr else rest

unfoldable pub append_tail : Store → ℕ → ℕ → Store
append_tail s list node = record s {
  prev = update s.prev node (s.tail list);
  next = update s.next (s.tail list) node;
  tail = update s.tail list node;
}

unfoldable pub prepend_head : Store → ℕ → ℕ → Store
prepend_head s list node = record s {
  next = update s.next node (s.head list);
  prev = update s.prev (s.head list) node;
  head = update s.head list node;
}

-- Before `curr`, which has a node before it.
unfoldable pub insert_between : Store → ℕ → ℕ → Store
insert_between s curr node =
    let before = s.prev curr in
    record s {
      prev = update (update s.prev node before) curr node;
      next = update (update s.next node curr) before node;
    }

-- Before `curr`, which may be the head.
unfoldable pub insert_before : Store → ℕ → ℕ → ℕ → Store
unfolding insert_between
insert_before s list curr node =
    if s.prev curr == 0
    then record s {
      prev = update (update s.prev node (s.prev curr)) curr node;
      next = update s.next node curr;
      head = update s.head list node;
    }
    else insert_between s curr node

abbrev pub detached : Store → ℕ → ℕ → Store
detached s list node = record s {
  owner = update s.owner node list;
  prev = update s.prev node 0;
  next = update s.next node 0;
}

-- `dllist_insert` for `pos >= 0`, once the list is known not to be empty.
unfoldable pub insert_forward : Store → ℕ → ℕ → ℕ → Store
unfolding step_next append_tail prepend_head insert_between
insert_forward s list node pos =
    let curr = step_next pos s (s.head list) in
    if curr == 0
    then append_tail s list node
    else if curr == s.head list
    then prepend_head s list node
    else insert_between s curr node

-- The same for `pos < 0`, with `steps = -pos - 1`.
unfoldable pub insert_backward : Store → ℕ → ℕ → ℕ → Store
unfolding step_prev append_tail insert_before
insert_backward s list node steps =
    let curr = step_prev steps s (s.tail list) in
    if steps == 0 then append_tail s list node else insert_before s list curr node

-- `pos` is the pattern of an `int`; from `2 ^ 31` on it is negative.
unfoldable pub insert : Store → ℕ → ℕ → ℕ → Store
unfolding insert_forward insert_backward
insert s list node pos =
    if list == 0 || node == 0
    then s
    else if s.head list == 0
    then (let t = detached s list node in
        record t { head = update t.head list node; tail = update t.tail list node })
    else if ltb pos (2 ^ 31)
    then insert_forward (detached s list node) list node pos
    else insert_backward (detached s list node) list node (2 ^ 32 - pos - 1)

-- The links of `dllist_remove`, before the node is cleared.
unfoldable pub unlink_node : Store → ℕ → Store
unlink_node s node =
    let list = s.owner node in
    if s.head list == node
    then (if s.head list == s.tail list
        then record s { head = update s.head list 0; tail = update s.tail list 0 }
        else record s {
          head = update s.head list (s.next node);
          prev = update s.prev (s.next node) 0;
        })
    else if s.tail list == node
    then record s { tail = update s.tail list (s.prev node); next = update s.next (s.prev node) 0 }
    else record s {
      next = update s.next (s.prev node) (s.next node);
      prev = update s.prev (s.next node) (s.prev node);
    }

unfoldable pub remove : Store → ℕ → Store
unfolding unlink_node
remove s node = if node == 0 || s.owner node == 0 then s else detached (unlink_node s node) 0 node
