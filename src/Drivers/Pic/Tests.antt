-- ===== src/Drivers/Pic/Tests.antt =====
-- The interrupt controllers on concrete masks and lists.
use neo_sys_x.Common.{◌≡◌, refl, some, ◌==◌, if◌then◌else◌, arith, [], ◌∷◌}
use neo_sys_x.Drivers.Pic.{Pic, Handled, HandlerLists, handler_stub}
use neo_sys_x.Drivers.Pic.Chain.{Chain, Served, handler_stub-Chain}

abbrev all_unmasked : Pic
all_unmasked = record { data1 = 0; data2 = 0 }

-- On line 4: nodes 100, 200, 300 and 400, in this order; node 500 is in no list.
abbrev handlers : HandlerLists
handlers = record {
  heads = λ i. if i == 4 then 100 else 0;
  next = λ a. if a == 100 then 200 else if a == 200 then 300 else if a == 300 then 400 else 0;
  irq = λ a. 4;
}

handlers-Chain : Chain handlers.next 100 (100 ∷ 200 ∷ 300 ∷ 400 ∷ [])
handlers-Chain =
    (refl, ground arith, (refl, ground arith, (refl, ground arith, (refl, ground arith, refl))))

handler_stub-Chain_example :
    (r : Handled) × (handler_stub 0 0 handlers 4 ≡ some r)
    × Served 0 0 4 (100 ∷ 200 ∷ 300 ∷ 400 ∷ []) r
handler_stub-Chain_example =
    handler_stub-Chain 0 0 handlers 4 (100 ∷ 200 ∷ 300 ∷ 400 ∷ []) handlers-Chain (omega arith)
