-- ===== src/Mm/Pmm/Free.antt =====
-- `pmm_free`: which frames it frees, and the relation between a block and its two halves.
use neo_sys_x.Common.{
  ℕ, zero, suc, ◌+◌, ◌-◌, ◌*◌, ◌/◌, ◌%◌, ◌^◌, ◌≤◌, ◌<◌, ◌≡◌, refl, ap, inl, inr, true, false, ◌&&◌,
  ltb, leb, ◌==◌, if◌then◌else◌, arith, Bool-cases, ◌∙◌, bit_and, u32, u64, update, update_self,
  update_ne,
}
use neo_sys_x.Common.Bits.{bit, bit-le, bit-bit_and, bit-zero, bit_shl, bit_mod}
use neo_sys_x.Common.Bitmap.{IsWords, mark, clear_bit, mark-clear_bit, clear_bit-IsWords}
use neo_sys_x.Mm.Pmm.{Pmm, frame_size, propagate, free_frame, free_frames, free, clip}

-- Words have 32 bits, and a block that is marked free has both its halves free.
pub record IsBuddy (pmm : Pmm) : Type 0 where
  pub words : (l : ℕ) → IsWords (pmm.words l)
  pub halves :
      (l j : ℕ)
      → mark (pmm.words (l + 1)) j ≡ 0
      → pmm.present (l + 1) ≡ true
      → (mark (pmm.words l) (j * 2) ≡ 0) × (mark (pmm.words l) (j * 2 + 1) ≡ 0)

abbrev cleared : Pmm → ℕ → ℕ → Pmm
cleared pmm level b = record pmm { words = update pmm.words level (clear_bit (pmm.words level) b) }

mark-cleared :
    (pmm : Pmm) (level b l j : ℕ)
    → IsWords (pmm.words level)
    → mark ((cleared pmm level b).words l) j
      ≡ (if l == level && j == b then 0 else mark (pmm.words l) j)
mark-cleared pmm level b l j h = elim (Bool-cases (l == level)) [
  | inl same ↦
      (let e : l ≡ level = ground arith in
        rw
          (
            e,
            update_self pmm.words level (clear_bit (pmm.words level) b),
            mark-clear_bit (pmm.words level) b j h,
          )
          (ground arith))
  | inr other ↦ rw (other) refl
]

-- The test `& (0b11 << k)` reads bits `k` and `k + 1`.
pair_clear :
    (x k : ℕ)
    → k < 31
    → (bit_and x (u32 (3 * 2 ^ k)) == 0) ≡ true
    → (bit x k ≡ 0) × (bit x (k + 1) ≡ 0)
unfolding bit
pair_clear x k h e =
    let none_set : bit_and x (u32 (3 * 2 ^ k)) ≡ 0 = ground arith in
    let low : bit (u32 (3 * 2 ^ k)) k ≡ 1 =
      bit_mod 32 (3 * 2 ^ k) k (omega arith)
      ∙ ap (bit (3 * 2 ^ k)) {x = k} {y = k + 0} (omega arith)
      ∙ bit_shl k 3 0 in
    let high : bit (u32 (3 * 2 ^ k)) (k + 1) ≡ 1 =
      bit_mod 32 (3 * 2 ^ k) (k + 1) (omega arith) ∙ bit_shl k 3 1 in
    (
      ground (
        arith,
        bit-bit_and x (u32 (3 * 2 ^ k)) k,
        bit-le x k,
        low,
        ap (λ (t : ℕ). bit t k) none_set,
        bit-zero k,
      ),
      ground (
        arith,
        bit-bit_and x (u32 (3 * 2 ^ k)) (k + 1),
        bit-le x (k + 1),
        high,
        ap (λ (t : ℕ). bit t (k + 1)) none_set,
        bit-zero (k + 1),
      ),
    )

module _ (pmm : Pmm) (v : IsBuddy pmm) where
  cleared-words : (level b l : ℕ) → IsWords ((cleared pmm level b).words l)
  cleared-words level b l = elim (Bool-cases (l == level)) [
    | inl same ↦ rw same (clear_bit-IsWords (pmm.words level) b (v.words level))
    | inr other ↦ rw other (v.words l)
  ]

  -- A frame, or a block whose halves are clear, can be cleared.
  cleared-IsBuddy :
      (level b : ℕ)
      → ((h : ℕ)
          → level ≡ h + 1
          → (mark (pmm.words h) (b * 2) ≡ 0) × (mark (pmm.words h) (b * 2 + 1) ≡ 0))
      → IsBuddy (cleared pmm level b)
  cleared-IsBuddy level b clear = record {
    words = cleared-words level b;
    halves = λ l j m p.
        let up = mark-cleared pmm level b (l + 1) j (v.words level) in
        let left = mark-cleared pmm level b l (j * 2) (v.words level) in
        let right = mark-cleared pmm level b l (j * 2 + 1) (v.words level) in
        elim (Bool-cases (l + 1 == level && j == b)) [
          | inl this ↦
              (let e : j ≡ b = ground arith in
                let halves = clear l (ground arith) in
                (left ∙ rw e (ground (arith, halves)), right ∙ rw e (ground (arith, halves))))
          | inr other ↦
              (let halves = v.halves l j (ground arith) p in
                (left ∙ ground (arith, halves), right ∙ ground (arith, halves)))
        ];
  }

-- Passing the change on to the larger blocks keeps the relation.
propagate-IsBuddy :
    (left : ℕ) (pmm : Pmm) (level b : ℕ)
    → 0 < level
    → IsBuddy pmm
    → IsBuddy (propagate left pmm level b)
unfolding propagate
propagate-IsBuddy zero pmm level b h v = v
propagate-IsBuddy (suc left) pmm level b h v = elim (Bool-cases (pmm.present level)) [
  | inr absent ↦ simp absent v
  | inl there ↦
      simp there
        (elim (Bool-cases
          (bit_and (pmm.words (level - 1) (b * 2 / 32)) (u32 (3 * 2 ^ (b * 2 % 32))) == 0)) [
            | inr one_taken ↦ simp one_taken v
            | inl both ↦ simp both (
                propagate-IsBuddy left (cleared pmm level b) (level + 1) (b / 2) (omega arith)
                  (cleared-IsBuddy pmm v level b (halves both)))
          ])
]
  where
    halves :
        (bit_and (pmm.words (level - 1) (b * 2 / 32)) (u32 (3 * 2 ^ (b * 2 % 32))) == 0) ≡ true
        → (h : ℕ) → level ≡ h + 1
        → (mark (pmm.words h) (b * 2) ≡ 0) × (mark (pmm.words h) (b * 2 + 1) ≡ 0)
    halves both h e =
        let down : level - 1 ≡ h = omega arith in
        let word : (b * 2 + 1) / 32 ≡ b * 2 / 32 = omega arith in
        let place : (b * 2 + 1) % 32 ≡ b * 2 % 32 + 1 = omega arith in
        let pair =
          pair_clear (pmm.words (level - 1) (b * 2 / 32)) (b * 2 % 32) (omega arith) both in
        rw (← down) (pair.0, rw (word, place) pair.1)

free_frame-IsBuddy : (pmm : Pmm) (frame : ℕ) → IsBuddy pmm → IsBuddy (free_frame pmm frame)
unfolding free_frame
free_frame-IsBuddy pmm frame v =
    propagate-IsBuddy 3 (cleared pmm 0 frame) 1 (frame / 2) (omega arith)
      (cleared-IsBuddy pmm v 0 frame (λ h e. absurd (omega arith)))

propagate-frames :
    (left : ℕ) (pmm : Pmm) (level b : ℕ)
    → 0 < level
    → (propagate left pmm level b).words 0 ≡ pmm.words 0
unfolding propagate
propagate-frames zero pmm level b h = refl
propagate-frames (suc left) pmm level b h = ground (
  arith,
  propagate-frames left (cleared pmm level b) (level + 1) (b / 2) (omega arith),
  update_ne pmm.words level (clear_bit (pmm.words level) b) 0 (omega arith),
)

free_frames-IsBuddy :
    (left : ℕ) (pmm : Pmm) (frame : ℕ) → IsBuddy pmm → IsBuddy (free_frames left pmm frame)
unfolding free_frames
free_frames-IsBuddy zero pmm frame v = v
free_frames-IsBuddy (suc left) pmm frame v =
    free_frames-IsBuddy left (free_frame pmm frame) (frame + 1) (free_frame-IsBuddy pmm frame v)

-- The frames that a call goes through.
abbrev freed_start : ℕ → ℕ
freed_start addr = u32 ((addr - addr % frame_size) / frame_size)

abbrev freed_count : ℕ → ℕ → ℕ
freed_count addr len = u32 (u64 (u64 (len + addr % frame_size) + frame_size - 1) / frame_size)

-- `pmm_free` keeps the words at 32 bits, and keeps every block that is marked free with both its
-- halves free.
pub free-IsBuddy : (pmm : Pmm) (addr len : ℕ) → IsBuddy pmm → IsBuddy (free pmm addr len)
unfolding free
free-IsBuddy pmm addr len v = elim (Bool-cases (ltb pmm.max_size addr)) [
  | inl outside ↦ simp outside v
  | inr inside ↦
      simp inside
        (free_frames-IsBuddy (freed_count addr (clip pmm addr len)) pmm (freed_start addr) v)
]

mark-free_frame :
    (pmm : Pmm) (frame j : ℕ)
    → IsBuddy pmm
    → mark ((free_frame pmm frame).words 0) j ≡ (if j == frame then 0 else mark (pmm.words 0) j)
unfolding free_frame
mark-free_frame pmm frame j v =
    rw (propagate-frames 3 (cleared pmm 0 frame) 1 (frame / 2) (omega arith))
      (mark-cleared pmm 0 frame 0 j (v.words 0))

mark-free_frames :
    (left : ℕ) (pmm : Pmm) (frame j : ℕ)
    → IsBuddy pmm
    → mark ((free_frames left pmm frame).words 0) j
      ≡ (if leb frame j && ltb j (frame + left) then 0 else mark (pmm.words 0) j)
unfolding free_frames
mark-free_frames zero pmm frame j v = ground arith
mark-free_frames (suc left) pmm frame j v =
    mark-free_frames left (free_frame pmm frame) (frame + 1) j (free_frame-IsBuddy pmm frame v)
    ∙ rw (mark-free_frame pmm frame j v) (ground arith)

-- In a memory below 2^43 bytes whose words have 32 bits and whose free blocks have free halves,
-- `pmm_free` of a range inside the memory frees exactly the frames that the range touches.
pub mark-free :
    (pmm : Pmm) (addr len j : ℕ)
    → IsBuddy pmm
    → pmm.max_size < 2 ^ 43
    → addr + len ≤ pmm.max_size
    → mark ((free pmm addr len).words 0) j ≡ (
        if ltb addr ((j + 1) * frame_size) && ltb (j * frame_size) (addr + len)
        then 0
        else mark (pmm.words 0) j)
unfolding free
mark-free pmm addr len j v small inside =
    let entered : ltb pmm.max_size addr ≡ false = ground arith in
    let whole : clip pmm addr len ≡ len = ground arith in
    rw (entered, whole)
      (mark-free_frames (freed_count addr len) pmm (freed_start addr) j v ∙ ground arith)
