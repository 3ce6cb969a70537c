-- ===== src/Io/Ansi.antt =====
-- kernel/common/src/io/ansi_terminal: escape sequences turned into calls of a display's functions.
-- The display's functions are outside the model: a run is the list of the calls made to them. An
-- `int` argument is its 32-bit pattern.
pub mod Parse
pub mod Cursor
pub mod Erase
pub mod Colour
pub mod Sgr
pub mod Write
pub mod Text
pub mod Moves
pub mod Safe
mod Tests
use neo_sys_x.Common.{ℕ, Bool, List, [], ◌∷◌, ◌++◌, Option, none, some, ◌≡◌, refl}

-- The colour that a call sets.
pub data Plane : Type 0 where
  foreground : Plane
  background : Plane

-- `ansi_terminal_colour8_modifier_t`
pub data Modifier : Type 0 where
  normal : Modifier
  bright : Modifier

-- The functions of `ansi_terminal_t`; a flag is a pointer that is not `NULL`.
pub record Callbacks : Type 0 where
  pub read : Bool
  pub write : Bool
  pub read_available : Bool
  pub write_available : Bool
  pub move_cursor : Bool
  pub set_cursor : Bool
  pub clear_line : Bool
  pub clear_line_left : Bool
  pub clear_line_right : Bool
  pub clear_lines_before : Bool
  pub clear_lines_after : Bool
  pub clear_screen : Bool
  pub reset_colour : Plane → Bool
  pub set_colour_8 : Plane → Bool
  pub set_colour_256 : Plane → Bool
  pub set_colour_rgb : Plane → Bool

-- A call of one of them.
pub data Call : Type 0 where
  put : ℕ → Call
  move_cursor : ℕ → ℕ → Call
  set_cursor : ℕ → ℕ → Call
  clear_line clear_line_left clear_line_right clear_lines_before clear_lines_after clear_screen :
      Call
  reset_colour : Plane → Call
  set_colour_8 : Plane → ℕ → Modifier → Call
  set_colour_256 : Plane → ℕ → Call
  set_colour_rgb : Plane → ℕ → Call

pub data State : Type 0 where
  idle esc bracket : State

-- The internal state; `param_buf` has 32 bytes.
pub record Terminal : Type 0 where
  pub state : State
  pub param_buf : ℕ → ℕ
  pub param_idx : ℕ

abbrev pub buf_size : ℕ
buf_size = 32

-- The calls that a handler makes, in order. `none` is a call through `NULL`, or a read outside
-- `param_buf` or a palette.
abbrev pub Calls : Type 0
Calls = Option (List Call)

abbrev pub quiet : Calls
quiet = some []

abbrev pub one : Call → Calls
one c = some (c ∷ [])

infixl 5 ◌>>=◌
abbrev pub ◌>>=◌ {ℓ κ} : {A : Type ℓ} {B : Type κ} → Option A → (A → Option B) → Option B
none >>= f = none
some a >>= f = f a

infixr 60 ◌⨾◌
abbrev pub ◌⨾◌ : Calls → Calls → Calls
none ⨾ n = none
some xs ⨾ none = none
some xs ⨾ some ys = some (xs ++ ys)
