-- ===== src/Ps2/Decode.antt =====
-- src/ps2.c: what the decoder of scan codes can answer.
use Prim.Native.Nat.{bit_and}
use argusos_uefi_v.Base.{
  ℕ, zero, suc, ◌+◌, ◌-◌, inl, inr, Bool-cases, leb, ◌≡◌, refl, Bool, true, false, not, ◌&&◌, ◌||◌,
  Option, none, some, List, [], ◌∷◌, ltb, ◌==◌, if◌then◌else◌, get_or, length, arith,
}
use argusos_uefi_v.Ps2.Keyboard.{
  Decoder, letters, normal, upper, translate_letter, translate_symbol, translate_punctuation,
  decode_extended, decode_pressed, decode_plain, decode_scan_code, or_none, differs,
}

-- Every entry passes the test.
abbrev passes : (ℕ → Bool) → List ℕ → Bool
passes test [] = true
passes test (x ∷ xs) = test x && passes test xs

get_or-passes :
    (test : ℕ → Bool) (xs : List ℕ) (i d : ℕ)
    → passes test xs ≡ true
    → test d ≡ true
    → test (get_or xs i d) ≡ true
get_or-passes test [] i d e z = z
get_or-passes test (x ∷ xs) zero d e z = ground arith
get_or-passes test (x ∷ xs) (suc i) d e z = get_or-passes test xs i d (ground arith) z

-- The characters that only `translate_punctuation` names.
abbrev pub punctuation : List ℕ
punctuation =
    0x5b ∷ 0x7b ∷ 0x5d ∷ 0x7d ∷ 0x3b ∷ 0x3a ∷ 0x27 ∷ 0x22 ∷ 0x60 ∷ 0x7e ∷ 0x5c ∷ 0x7c ∷ 0x2c ∷ 0x3c
    ∷ 0x2e ∷ 0x3e ∷ 0x2f ∷ 0x3f ∷ []

abbrev pub is_listed : List ℕ → ℕ → Bool
is_listed [] v = false
is_listed (x ∷ xs) v = v == x || is_listed xs v

-- A byte of the table for which no switch is needed.
abbrev is_plain : ℕ → Bool
is_plain v = ltb v 0x85 && not (is_listed punctuation v)

pick-is_plain :
    (v : ℕ) (shifted outside : Bool)
    → is_plain v ≡ true
    → (v == 0 || is_plain (v - 0x61 + 0x41)) ≡ true
    → is_plain (if outside || v == 0 then 0 else (if shifted then v - 0x61 + 0x41 else v)) ≡ true
pick-is_plain v shifted true plain capital = refl
pick-is_plain v shifted false plain capital = elim (Bool-cases (v == 0)) [
  | inl e ↦ rw e refl
  | inr e ↦ rw e (pick shifted (simp e at capital))
]
  where
    pick :
        (b : Bool)
        → is_plain (v - 0x61 + 0x41) ≡ true
        → is_plain (if b then v - 0x61 + 0x41 else v) ≡ true
    pick true capital = capital
    pick false capital = plain

letter-is_plain : (i : ℕ) (shifted : Bool) → is_plain (translate_letter i shifted) ≡ true
unfolding translate_letter
letter-is_plain i shifted =
    let plain = get_or-passes is_plain letters i 0 refl refl in
    let capital = get_or-passes (λ v. v == 0 || is_plain (v - 0x61 + 0x41)) letters i 0 refl refl in
    pick-is_plain (get_or letters i 0) shifted (leb (length letters) i) plain capital

-- The codes that `translate_punctuation` knows do not pass the test before it.
symbol-is_plain : (i : ℕ) (shifted : Bool) → is_plain (translate_symbol i shifted) ≡ true
unfolding translate_symbol translate_punctuation
symbol-is_plain i shifted =
    let a = get_or-passes is_plain normal i 0 refl refl in
    let b = get_or-passes is_plain upper i 0 refl refl in
    let size : length normal ≡ 17 = refl in ground arith

-- What a byte may answer: nothing, or a character above 0 and below 0x85 that is no punctuation.
abbrev pub is_answer : Option ℕ → Bool
is_answer none = true
is_answer (some c) = ltb 0 c && ltb c 0x85 && not (is_listed punctuation c)

or_none-is_answer : (c : ℕ) → is_plain c ≡ true → is_answer (or_none c) ≡ true
or_none-is_answer c plain = elim (Bool-cases (c == 0)) [
  | inl e ↦ rw e refl
  | inr e ↦ rw e (let positive : ltb 0 c ≡ true = ground arith in rw positive plain)
]

pressed-is_answer : (d : Decoder) (code : ℕ) → is_answer (decode_pressed d code) ≡ true
unfolding decode_pressed
pressed-is_answer d code =
    let shifted = d.left_shift || d.right_shift in
    let letter = translate_letter code (differs shifted d.caps_lock) in
    let l = letter-is_plain code (differs shifted d.caps_lock) in
    let s = or_none-is_answer (translate_symbol code shifted) (symbol-is_plain code shifted) in
    let keep = or_none-is_answer letter l in ground arith

extended-is_answer : (code : ℕ) → is_answer (decode_extended code) ≡ true
unfolding decode_extended
extended-is_answer code = ground arith

-- A scan code in any state of the decoder gives no character, or one that is not 0, is below 0x85
-- and is none of the 18 characters that the keys beside the letters and digits stand for.
pub decode_scan_code-is_answer :
    (d : Decoder) (scan_code : ℕ) → is_answer (decode_scan_code d scan_code).1 ≡ true
unfolding decode_scan_code decode_plain
decode_scan_code-is_answer d scan_code =
    let p = pressed-is_answer d (bit_and scan_code 0x7F) in
    let e = extended-is_answer scan_code in ground arith
