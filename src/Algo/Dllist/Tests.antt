-- ===== src/Algo/Dllist/Tests.antt =====
-- A list of two nodes.
use neo_sys_x.Common.{ℕ, ◌+◌, ◌-◌, ◌^◌, ◌≡◌, ◌==◌, if◌then◌else◌, arith}
use neo_sys_x.Algo.Dllist.{Store, insert, remove}
use neo_sys_x.Algo.Dllist.Seq.{IsSeq, put_in, take_out}
use neo_sys_x.Algo.Dllist.Seq.Insert.{index_of, insert-IsSeq}
use neo_sys_x.Algo.Dllist.Seq.Remove.{remove-IsSeq}

-- The list 1 of the nodes 2 and 3.
abbrev two : Store
two = record {
  owner = λ j. 1;
  prev = λ j. if j == 3 then 2 else 0;
  next = λ j. if j == 2 then 3 else 0;
  head = λ j. 2;
  tail = λ j. 3;
}

abbrev nodes : ℕ → ℕ
nodes i = i + 2

two-IsSeq : IsSeq two 1 2 nodes
two-IsSeq = record {
  head_at = ground arith;
  tail_at = ground arith;
  some_at = λ i b. omega arith;
  owner_at = λ i b. omega arith;
  next_at = λ i b. ground arith;
  prev_at = λ i b. ground arith;
  apart = λ i j b c e. omega arith;
}

insert-IsSeq_example :
    IsSeq (insert two 1 9 (2 ^ 32 - 2)) 1 3 (put_in nodes (index_of 2 (2 ^ 32 - 2)) 9)
insert-IsSeq_example =
    insert-IsSeq two 1 9 2 nodes two-IsSeq (omega arith) (λ i b. omega arith) (2 ^ 32 - 2)
      (omega arith) (omega arith)

remove-IsSeq_example : IsSeq (remove two 2) 1 1 (take_out nodes 0) × ((remove two 2).owner 2 ≡ 0)
remove-IsSeq_example = remove-IsSeq two 1 2 nodes two-IsSeq (omega arith) 0 (omega arith)
