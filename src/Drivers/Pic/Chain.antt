-- ===== src/Drivers/Pic/Chain.antt =====
-- The lists of handlers: registering, unregistering, and what an interrupt runs.
use neo_sys_x.Common.{
  ℕ, zero, suc, ◌^◌, ◌≤◌, ◌<◌, ◌≡◌, refl, ◌≢◌, ◌⊎◌, leb, inl, inr, true, false, ◌&&◌, some, ltb,
  ◌==◌, if◌then◌else◌, arith, Bool-cases, update, update_self, update_ne, List, [], ◌∷◌, ◌++◌,
  length, All, bit_and, ap, sym, subst,
}
use neo_sys_x.Drivers.Pic.{
  Out, Pic, Handled, HandlerLists, outs, outb, register_handler, unlink, unregister_handler,
  handlers_from, handler_stub, ask_isr, space, eoi,
}

-- The nodes from an address on, in order, up to `NULL`.
abbrev pub Chain : (ℕ → ℕ) → ℕ → List ℕ → Type 0
Chain next p [] = p ≡ 0
Chain next p (x ∷ xs) = (p ≡ x) × (x ≢ 0) × Chain next (next x) xs

abbrev pub NotIn : ℕ → List ℕ → Type 0
NotIn a xs = All (λ x. x ≢ a) xs

-- A write to another node leaves a list alone.
Chain-update :
    (next : ℕ → ℕ) (p a v : ℕ) (xs : List ℕ)
    → NotIn a xs
    → Chain next p xs
    → Chain (update next a v) p xs
Chain-update next p a v [] n c = c
Chain-update next p a v (x ∷ xs) (d, n) (e, z, c) =
    (e, z, rw (update_ne next a v x d) (Chain-update next (next x) a v xs n c))

handlers_from-Chain :
    (fuel : ℕ) (next : ℕ → ℕ) (p : ℕ) (xs : List ℕ)
    → Chain next p xs
    → length xs < fuel
    → handlers_from fuel next p ≡ some xs
unfolding handlers_from
handlers_from-Chain zero next p xs c h = absurd (omega arith)
handlers_from-Chain (suc fuel) next p [] c h = let e : (p == 0) ≡ true = ground arith in rw e refl
handlers_from-Chain (suc fuel) next p (x ∷ xs) (e, z, c) h =
    let n : (p == 0) ≡ false = ground arith in
    let rest : handlers_from fuel next (next p) ≡ some xs =
      rw e (handlers_from-Chain fuel next (next x) xs c (omega arith)) in
    rw (n, rest) (ap (λ (t : ℕ). some (t ∷ xs)) e)

-- How many times the end of an interrupt, byte 0x20, is written to a port.
abbrev pub acks : ℕ → List Out → ℕ
acks port [] = 0
acks port (o ∷ os) =
    let rest = acks port os in if o.0 == port && (o.1 == 0x20) then suc rest else rest

-- The first controller, at 0x20, is told `master` times that an interrupt has ended and the second,
-- at 0xA0, `slave` times; neither mask changes.
abbrev pub Acknowledged : List Out → ℕ → ℕ → Type 0
Acknowledged writes master slave =
    (acks 0x20 writes ≡ master) × (acks 0xA0 writes ≡ slave) × ((pic : Pic) → outs pic writes ≡ pic)

-- An interrupt on line 15 or 7 that is not in service.
abbrev pub IsSpurious : ℕ → ℕ → ℕ → Type 0
IsSpurious isr1 isr2 irq =
    ((irq ≡ 15) × (bit_and isr2 (2 ^ 7) ≡ 0)) ⊎ ((irq ≡ 7) × (bit_and isr1 (2 ^ 7) ≡ 0))

-- The handlers `xs` have run, and both controllers are served as the line wants it.
abbrev pub Served : ℕ → ℕ → ℕ → List ℕ → Handled → Type 0
Served isr1 isr2 irq xs r =
    (¬ IsSpurious isr1 isr2 irq
      → (r.ran ≡ xs)
        × (r.pic1_spurious ≡ 0)
        × (r.pic2_spurious ≡ 0)
        × Acknowledged r.writes 1 (if leb 8 irq then 1 else 0))
    × (IsSpurious isr1 isr2 irq
        → (r.ran ≡ [])
          × (r.pic1_spurious ≡ (if irq == 7 then 1 else 0))
          × (r.pic2_spurious ≡ (if irq == 15 then 1 else 0))
          × Acknowledged r.writes (if irq == 15 then 1 else 0) 0)

eoi-Acknowledged : (irq : ℕ) → Acknowledged (eoi irq) 1 (if leb 8 irq then 1 else 0)
unfolding eoi outs outb
eoi-Acknowledged irq = elim (Bool-cases (ltb 7 irq)) [
  | inl e ↦ let f : leb 8 irq ≡ true = ground arith in rw (e, f) (refl, refl, λ pic. refl)
  | inr e ↦ let f : leb 8 irq ≡ false = ground arith in rw (e, f) (refl, refl, λ pic. refl)
]

-- To ask for the register that is in service ends no interrupt.
ask_isr-Acknowledged :
    (irq master slave : ℕ) (writes : List Out)
    → Acknowledged writes master slave
    → Acknowledged (ask_isr irq ++ writes) master slave
unfolding outs outb
ask_isr-Acknowledged irq master slave writes a = elim (Bool-cases (irq == 15)) [
  | inl e ↦ rw e a
  | inr e ↦ elim (Bool-cases (irq == 7)) [ inl f ↦ rw (e, f) a | inr f ↦ rw (e, f) a ]
]

-- For a list of fewer than 2^32 handlers: an interrupt that is not spurious runs each handler of
-- its line once, in the order of the list, and counts as none of the spurious ones; the end of the
-- interrupt is written once to the first controller, and once to the second for a line from 8 on. A
-- spurious one runs none and is counted for its controller; on line 15 the first controller alone
-- is told of the end, and on line 7 neither is. The masks stay as they are.
pub handler_stub-Chain :
    (isr1 isr2 : ℕ) (s : HandlerLists) (irq : ℕ) (xs : List ℕ)
    → Chain s.next (s.heads irq) xs
    → length xs < space
    → (r : Handled) × (handler_stub isr1 isr2 s irq ≡ some r) × Served isr1 isr2 irq xs r
unfolding handler_stub outs outb eoi
handler_stub-Chain isr1 isr2 s irq xs c h =
    elim (Bool-cases (irq == 15 && (bit_and isr2 (2 ^ 7) == 0))) [
      | inl second ↦
          let e : irq ≡ 15 = ground arith in
          let z : bit_and isr2 (2 ^ 7) ≡ 0 = ground arith in
          let on_15 : (irq == 15) ≡ true = ground arith in
          let on_7 : (irq == 7) ≡ false = ground arith in
          rw (second, handler_stub)
            (
              _,
              refl,
              (
                λ real. absurd (real (inl (e, z))),
                λ spurious. rw (on_15, on_7) (refl, refl, refl, (refl, refl, λ pic. refl)),
              ),
            )
      | inr more ↦ elim (Bool-cases (irq == 7 && (bit_and isr1 (2 ^ 7) == 0))) [
        | inl first ↦
            let e : irq ≡ 7 = ground arith in
            let z : bit_and isr1 (2 ^ 7) ≡ 0 = ground arith in
            let on_15 : (irq == 15) ≡ false = ground arith in
            let on_7 : (irq == 7) ≡ true = ground arith in
            rw (more, first, handler_stub)
              (
                _,
                refl,
                (
                  λ real. absurd (real (inr (e, z))),
                  λ spurious. rw (on_15, on_7) (refl, refl, refl, (refl, refl, λ pic. refl)),
                ),
              )
        | inr real ↦
            let there = handlers_from-Chain space s.next (s.heads irq) xs c h in
            let a = ask_isr-Acknowledged irq 1 _ (eoi irq) (eoi-Acknowledged irq) in
            rw (more, real, there, handler_stub)
              (
                _,
                refl,
                (
                  λ r. (refl, refl, refl, a),
                  λ spurious. elim spurious [
                    | inl (line, z) ↦ absurd (ground arith)
                    | inr (line, z) ↦ absurd (ground arith)
                  ],
                ),
              )
      ]
    ]

-- How the lists stand once a node is registered, and once it is unregistered again.
abbrev pub Registered : HandlerLists → ℕ → List ℕ → HandlerLists → Type 0
Registered s node xs after =
    Chain after.next (after.heads (s.irq node)) (node ∷ xs)
    × ((i : ℕ) → i ≢ s.irq node → after.heads i ≡ s.heads i)
    × (back : HandlerLists) × (unregister_handler after node ≡ some back)
    × Chain back.next (back.heads (s.irq node)) xs
    × ((i : ℕ) → back.heads i ≡ s.heads i)

-- A node, not `NULL` and for a line up to 15, that is in no list of its line can be registered: it
-- becomes the first of the list, the other lines keep their heads, and unregistering it at once
-- gives the list back.
register-unregister :
    (s : HandlerLists) (node : ℕ) (xs : List ℕ)
    → s.irq node ≤ 15
    → node ≢ 0
    → NotIn node xs
    → Chain s.next (s.heads (s.irq node)) xs
    → Registered s node xs (register_handler s node)
unfolding unregister_handler
register-unregister s node xs line some_node new c = subst (Registered s node xs) (sym registered) (
  (
    update_self s.heads i node,
    some_node,
    rw (update_self s.next node (s.heads i))
        (Chain-update s.next (s.heads i) node (s.heads i) xs new c),
  ),
  (λ j d. update_ne s.heads i node j d),
  back,
  rw (valid, update_self s.heads i node, a, b) refl,
  rw
      (
        update_self (update s.heads i node) i (update s.next node (s.heads i) node),
        update_self s.next node (s.heads i),
      )
      (Chain-update (update s.next node (s.heads i)) (s.heads i) node 0 xs new
        (Chain-update s.next (s.heads i) node (s.heads i) xs new c)),
  (λ j. elim (Bool-cases (j == i)) [
    | inl same ↦
        (let e : j ≡ i = ground arith in
          rw (same, update_self s.next node (s.heads i)) (ap s.heads (sym e)))
    | inr other ↦ rw other refl
  ]),
)
  where
    i : ℕ
    i = s.irq node

    valid : ltb 15 (s.irq node) ≡ false
    valid = ground arith

    a : (node == 0) ≡ false
    a = ground arith

    b : (node == node) ≡ true
    b = ground arith

    registered : register_handler s node ≡ record s {
      next = update s.next node (s.heads (s.irq node));
      heads = update s.heads (s.irq node) node;
    }
    registered = unfold register_handler in rw valid refl

    back : HandlerLists
    back = record s {
      heads = update (update s.heads i node) i (update s.next node (s.heads i) node);
      next = update (update s.next node (s.heads i)) node 0;
    }

-- The search finds the node behind the first, and takes out what lies between with it.
unlink-Chain :
    (fuel : ℕ) (next : ℕ → ℕ) (prev p node : ℕ) (xs ys : List ℕ)
    → Chain next p (xs ++ node ∷ ys)
    → NotIn node xs
    → length xs < fuel
    → unlink fuel next prev p node ≡ some (update next prev (next node))
unfolding unlink
unlink-Chain zero next prev p node xs ys c n h = absurd (omega arith)
unlink-Chain (suc fuel) next prev p node [] ys (e, z, c) n h =
    let a : (node == 0) ≡ false = ground arith in
    let b : (node == node) ≡ true = ground arith in rw e (rw (a, b) refl)
unlink-Chain (suc fuel) next prev p node (x ∷ xs) ys (e, z, c) (d, n) h =
    let a : (x == 0) ≡ false = ground arith in
    let b : (x == node) ≡ false = ground arith in
    rw e (rw (a, b) (unlink-Chain fuel next prev (next x) node xs ys c n (omega arith)))

Chain-behind :
    (next : ℕ → ℕ) (p node : ℕ) (xs ys : List ℕ)
    → Chain next p (xs ++ node ∷ ys)
    → Chain next (next node) ys
Chain-behind next p node [] ys (e, z, c) = c
Chain-behind next p node (x ∷ xs) ys (e, z, c) = Chain-behind next (next x) node xs ys c

-- Unregistering a node that is not the first of its list, which has no node twice and fewer than
-- 2^32 between the two, leaves the first node and what stands behind the removed one: the nodes
-- between the two are lost as well.
unregister-Chain :
    (s : HandlerLists) (first node : ℕ) (xs ys : List ℕ)
    → s.irq node ≤ 15
    → Chain s.next (s.heads (s.irq node)) (first ∷ xs ++ node ∷ ys)
    → NotIn node (first ∷ xs)
    → NotIn node ys
    → NotIn first ys
    → length xs < space
    → (after : HandlerLists) × (unregister_handler s node ≡ some after)
      × Chain after.next (after.heads (s.irq node)) (first ∷ ys)
unfolding unregister_handler
unregister-Chain s first node xs ys line (e, z, c) (d, n) m f h =
    let valid : ltb 15 (s.irq node) ≡ false = ground arith in
    let a : (first == 0) ≡ false = ground arith in
    let b : (first == node) ≡ false = ground arith in
    let found = unlink-Chain space s.next first (s.next first) node xs ys c n h in
    let linked = update s.next first (s.next node) in
    let rest : Chain (update linked node 0) (s.next node) ys =
      Chain-update linked (s.next node) node 0 ys m (
        Chain-update s.next (s.next node) first (s.next node) ys f
          (Chain-behind s.next (s.next first) node xs ys c)) in
    (
      record s { next = update linked node 0 },
      rw (valid, e) (rw (a, b, found) refl),
      (e, z, rw (update_ne linked node 0 first d, update_self s.next first (s.next node)) rest),
    )
