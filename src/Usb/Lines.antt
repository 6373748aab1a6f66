-- ===== src/Usb/Lines.antt =====
-- The patterns of find_usb_devices.py, which read the lines of usb-devices, lsusb and udevadm.
use ftc_designosaurs.Base.{
  ℕ, zero, suc, ◌+◌, ◌-◌, Bool, ◌&&◌, Option, none, some, [], ◌∷◌, leb, ◌==◌, comparable_nat,
  if◌then◌else◌, String,
}
use Prim.Native.Nat.{◌*◌}
use ftc_designosaurs.Flags.Chars.{Text}
use ftc_designosaurs.Texts.{text}

-- What is left behind a part of the pattern.
unfoldable pub after : Text → Text → Option Text
after [] t = some t
after (c ∷ cs) [] = none
after (c ∷ cs) (d ∷ ds) = let rest = after cs ds in if c == d then rest else none

abbrev pub is_digit : ℕ → Bool
is_digit c = leb 48 c && leb c 57

-- \d{n}, read by int, and what is left
unfoldable pub digits : ℕ → ℕ → Text → Option (ℕ × Text)
digits zero n t = some (n, t)
digits (suc k) n [] = none
digits (suc k) n (c ∷ cs) =
    let rest = digits k (n * 10 + (c - 48)) cs in if is_digit c then rest else none

-- .{n}, and what is left
unfoldable pub chars : ℕ → Text → Option (Text × Text)
chars zero t = some ([], t)
chars (suc k) [] = none
chars (suc k) (c ∷ cs) = elim (chars k cs) [
  | none ↦ none
  | some (front, rest) ↦ some (c ∷ front, rest)
]

infixl 5 ◌>>=◌
abbrev ◌>>=◌ : {A B : Type 0} → Option A → (A → Option B) → Option B
none >>= f = none
some a >>= f = f a

abbrev literal : String → Text → Option Text
literal s t = after (text s) t

-- \d{2,3} before a blank
abbrev more_digits : ℕ × Text → Option (ℕ × Text)
more_digits (n, []) = some (n, [])
more_digits (n, c ∷ cs) = some (if is_digit c then (n * 10 + (c - 48), cs) else (n, c ∷ cs))

-- What is read of a T line; the device number is still a text.
pub record TLine : Type 0 where
  pub line_bus : ℕ
  pub line_parent : ℕ
  pub line_port : ℕ
  pub line_device : Text

-- _T_LINE_REGEX
unfoldable pub t_line : Text → Option TLine
t_line line = do
  t ← literal "T:  Bus=" line
  bus ← digits 2 0 t
  t ← literal " Lev=" bus.1
  lev ← digits 2 0 t
  t ← literal " Prnt=" lev.1
  two ← digits 2 0 t
  parent ← more_digits two
  t ← literal " Port=" parent.1
  port ← digits 2 0 t
  t ← literal " Cnt=" port.1
  cnt ← digits 2 0 t
  t ← literal " Dev#=" cnt.1
  dev ← chars 3 t
  rest ← literal " " dev.1
  some
      (record { line_bus = bus.0; line_parent = parent.0; line_port = port.0; line_device = dev.0 })

-- _S_LINE_REGEX
unfoldable pub s_line : Text → Option Text
s_line line = literal "S:  SerialNumber=" line

-- _LSUSB_BUS_DEVICE_RE
unfoldable pub lsusb_line : Text → Option (ℕ × ℕ × Text)
lsusb_line line = do
  t ← literal "Bus " line
  bus ← digits 3 0 t
  t ← literal " Device " bus.1
  device ← digits 3 0 t
  t ← literal ": " device.1
  some (bus.0, device.0, t)
