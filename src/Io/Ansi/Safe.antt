-- ===== src/Io/Ansi/Safe.antt =====
-- Which of the display's functions the colour handlers call: where a call goes through `NULL`.
use neo_sys_x.Common.{
  ℕ, ◌<◌, ◌≡◌, ◌≢◌, true, false, none, arith, Bool-cases, inl, inr, get_elem?-some, ◌↔◌,
}
use neo_sys_x.Io.Ansi.{Callbacks, Plane, normal, bright}
use neo_sys_x.Io.Ansi.Colour.{set_8, palette_normal, palette_light}

-- Of the eight colours, a normal one is never set through `NULL`. A bright one is, exactly on a
-- display that has only the function for RGB colours.
pub set_8-null :
    (p : Plane) (cb : Callbacks) (colour : ℕ)
    → colour < 8
    → (set_8 p cb colour normal ≢ none)
      × ((set_8 p cb colour bright ≡ none) ↔ (
          (cb.set_colour_8 p ≡ false)
          × (cb.set_colour_256 p ≡ false)
          × (cb.set_colour_rgb p ≡ true)))
unfolding set_8
set_8-null p cb colour h =
    let (c, light) = get_elem?-some palette_light colour (unfold palette_light in h) in
    let (d, dark) = get_elem?-some palette_normal colour (unfold palette_normal in h) in
    elim (Bool-cases (cb.set_colour_8 p)) [
      | inl e ↦ rw e (ground arith)
      | inr e ↦ rw e (elim (Bool-cases (cb.set_colour_256 p)) [
        | inl f ↦ rw f (ground arith)
        | inr f ↦ rw f (elim (Bool-cases (cb.set_colour_rgb p)) [
          | inl g ↦ rw (g, dark, light) (ground arith)
          | inr g ↦ rw g (ground arith)
        ])
      ])
    ]
