-- ===== src/Strings/Examples.antt =====
-- Runs on a memory with the texts "ab" at 100 and "abc" at 200.
use oslib.Prelude.{ℕ, ◌≡◌, inl, inr, refl, arith, true, some, List, [], ◌∷◌, ◌==◌, if◌then◌else◌}
use oslib.Strings.{Bytes, Flags, memcpy, strcpy, strcat, strcmp}
use oslib.Strings.Copy.{copied, memcpy_lem}
use oslib.Strings.Text.{IsText, strcpy-memcpy, strcat-IsText}
use oslib.Strings.Order.{dictionary, strcmp-dictionary}

abbrev bytes : Bytes
bytes a =
    if a == 100
    then b'a'
    else if a == 101
    then b'b'
    else if a == 200
    then b'a'
    else if a == 201
    then b'b'
    else if a == 202
    then b'c'
    else 0

abbrev ab : List ℕ
ab = b'a' ∷ b'b' ∷ []

abbrev abc : List ℕ
abc = b'a' ∷ b'b' ∷ b'c' ∷ []

ab-IsText : IsText bytes 100 ab
ab-IsText = (refl, omega arith, (refl, omega arith, refl))

abc-IsText : IsText bytes 200 abc
abc-IsText = (refl, omega arith, (refl, omega arith, (refl, omega arith, refl)))

abbrev flags : Flags
flags = record { equal = true; less = true }

memcpy_lem_example : memcpy 300 200 11 bytes 302 ≡ copied 300 200 11 bytes 302
memcpy_lem_example = memcpy_lem 300 200 bytes 11 302 (inr (omega arith))

strcpy-memcpy_example :
    (m : Bytes) × (strcpy 10 300 200 bytes ≡ some m) × ((a : ℕ) → m a ≡ memcpy 300 200 4 bytes a)
strcpy-memcpy_example =
    strcpy-memcpy 10 300 200 bytes abc abc-IsText (omega arith) (inr (omega arith))

strcat-IsText_example :
    (m : Bytes) × (strcat 10 100 200 bytes ≡ some m)
    × IsText m 100 (b'a' ∷ b'b' ∷ b'a' ∷ b'b' ∷ b'c' ∷ [])
strcat-IsText_example =
    strcat-IsText 10 100 200 bytes ab abc ab-IsText abc-IsText (omega arith) (omega arith)
      (inl (omega arith))

strcmp-dictionary_example : strcmp 10 100 200 bytes ≡ some (dictionary ab abc)
strcmp-dictionary_example =
    strcmp-dictionary 10 100 200 bytes ab abc ab-IsText abc-IsText (omega arith)
