-- ===== src/Ps2/Keyboard.antt =====
-- src/ps2.c: the keyboard's scan codes. Characters are bytes; `none` is the -1 of a code that
-- gives no character.
use Prim.Native.Nat.{bit_and}
use argusos_uefi_v.Base.{
  ℕ, ◌+◌, ◌-◌, Bool, true, false, not, ◌||◌, Option, none, some, List, [], ◌∷◌, leb, ◌==◌,
  if◌then◌else◌, length, get_or,
}

-- The static variables that `decode_scan_code` keeps from byte to byte.
pub record Decoder : Type 0 where
  pub left_shift : Bool
  pub right_shift : Bool
  pub caps_lock : Bool
  pub extended_prefix : Bool

-- The keys of src/input_keys.h.
abbrev pub key_up : ℕ
key_up = 0x80

abbrev pub key_down : ℕ
key_down = 0x81

abbrev pub key_left : ℕ
key_left = 0x82

abbrev pub key_right : ℕ
key_right = 0x83

abbrev pub key_escape : ℕ
key_escape = 0x84

abbrev pub letters : List ℕ
letters =
    0 ∷ 0 ∷ 0 ∷ 0 ∷ 0 ∷ 0 ∷ 0 ∷ 0 ∷ 0 ∷ 0 ∷ 0 ∷ 0 ∷ 0 ∷ 0 ∷ 0 ∷ 0 ∷ 0x71 ∷ 0x77 ∷ 0x65 ∷ 0x72 ∷ 0x74
    ∷ 0x79 ∷ 0x75 ∷ 0x69 ∷ 0x6f ∷ 0x70 ∷ 0 ∷ 0 ∷ 0 ∷ 0 ∷ 0x61 ∷ 0x73 ∷ 0x64 ∷ 0x66 ∷ 0x67 ∷ 0x68
    ∷ 0x6a ∷ 0x6b ∷ 0x6c ∷ 0 ∷ 0 ∷ 0 ∷ 0 ∷ 0 ∷ 0x7a ∷ 0x78 ∷ 0x63 ∷ 0x76 ∷ 0x62 ∷ 0x6e ∷ 0x6d ∷ []

abbrev pub normal : List ℕ
normal =
    0 ∷ 0 ∷ 0x31 ∷ 0x32 ∷ 0x33 ∷ 0x34 ∷ 0x35 ∷ 0x36 ∷ 0x37 ∷ 0x38 ∷ 0x39 ∷ 0x30 ∷ 0x2d ∷ 0x3d ∷ 0
    ∷ 0 ∷ 0 ∷ []

abbrev pub upper : List ℕ
upper =
    0 ∷ 0 ∷ 0x21 ∷ 0x40 ∷ 0x23 ∷ 0x24 ∷ 0x25 ∷ 0x5e ∷ 0x26 ∷ 0x2a ∷ 0x28 ∷ 0x29 ∷ 0x5f ∷ 0x2b ∷ 0
    ∷ 0 ∷ 0 ∷ []

-- 0 where there is no letter.
unfoldable pub translate_letter : ℕ → Bool → ℕ
translate_letter scan_code shifted =
    let value = get_or letters scan_code 0 in
    if leb (length letters) scan_code || value == 0
    then 0
    else (if shifted then value - 0x61 + 0x41 else value)

abbrev pub shifted_of : ℕ → ℕ → Bool → ℕ
shifted_of a b shifted = if shifted then a else b

-- The `switch` on the keys beside the letters and digits.
unfoldable pub translate_punctuation : ℕ → Bool → ℕ
translate_punctuation scan_code shifted =
    if scan_code == 0x1a
    then shifted_of 0x7b 0x5b shifted
    else (if scan_code == 0x1b
        then shifted_of 0x7d 0x5d shifted
        else (if scan_code == 0x27
            then shifted_of 0x3a 0x3b shifted
            else (if scan_code == 0x28
                then shifted_of 0x22 0x27 shifted
                else (if scan_code == 0x29
                    then shifted_of 0x7e 0x60 shifted
                    else (if scan_code == 0x2b
                        then shifted_of 0x7c 0x5c shifted
                        else (if scan_code == 0x33
                            then shifted_of 0x3c 0x2c shifted
                            else (if scan_code == 0x34
                                then shifted_of 0x3e 0x2e shifted
                                else (if scan_code == 0x35
                                    then shifted_of 0x3f 0x2f shifted
                                    else (0)))))))))

unfoldable pub translate_symbol : ℕ → Bool → ℕ
translate_symbol scan_code shifted =
    let value = get_or (if shifted then upper else normal) scan_code 0 in
    if leb (length normal) scan_code
    then 0
    else (if value == 0 then translate_punctuation scan_code shifted else value)

-- The codes that follow the prefix 0xE0.
unfoldable pub decode_extended : ℕ → Option ℕ
decode_extended scan_code =
    let code = bit_and scan_code 0x7F in
    if not (bit_and scan_code 0x80 == 0)
    then none
    else (if code == 0x48
        then some key_up
        else (if code == 0x50
            then some key_down
            else (if code == 0x4B
                then some key_left
                else (if code == 0x4D then some key_right else none))))

abbrev pub or_none : ℕ → Option ℕ
or_none character = if character == 0 then none else some character

abbrev pub differs : Bool → Bool → Bool
differs true b = not b
differs false b = b

-- A key that is pressed and is not a shift key nor the caps lock.
unfoldable pub decode_pressed : Decoder → ℕ → Option ℕ
decode_pressed d code =
    let shifted = d.left_shift || d.right_shift in
    let letter = translate_letter code (differs shifted d.caps_lock) in
    if code == 0x01
    then some key_escape
    else (if code == 0x1C
        then some 0x0A
        else (if code == 0x0E
            then some 0x08
            else (if code == 0x0F
                then some 0x09
                else (if code == 0x39
                    then some 0x20
                    else (if letter == 0
                        then or_none (translate_symbol code shifted)
                        else some letter)))))

-- The codes without a prefix.
unfoldable pub decode_plain : Decoder → ℕ → Decoder × Option ℕ
decode_plain d scan_code =
    let released = not (bit_and scan_code 0x80 == 0) in
    let code = bit_and scan_code 0x7F in
    if code == 0x2A
    then (record d { left_shift = not released }, none)
    else (if code == 0x36
        then (record d { right_shift = not released }, none)
        else (if released
            then (d, none)
            else (if code == 0x3A
                then (record d { caps_lock = not d.caps_lock }, none)
                else (d, decode_pressed d code))))

unfoldable pub decode_scan_code : Decoder → ℕ → Decoder × Option ℕ
decode_scan_code d scan_code =
    if scan_code == 0xE0
    then (record d { extended_prefix = true }, none)
    else (if d.extended_prefix
        then (record d { extended_prefix = false }, decode_extended scan_code)
        else decode_plain d scan_code)
