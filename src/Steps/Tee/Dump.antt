-- ===== src/Steps/Tee/Dump.antt =====
-- `Tee::hexDump` of src/StepLibrary/Tee.cpp: the text that it writes to the stream, as the characters'
-- codes. The stream writes numbers in base 16 and fills them with zeros meanwhile.
use hsqueue.Base.{
  ℕ, zero, suc, ◌+◌, ◌/◌, ◌%◌, ◌-◌, ◌||◌, List, [], ◌∷◌, ◌++◌, ltb, leb, ◌==◌, if◌then◌else◌,
  length, replicate,
}

-- A digit in base 16, of a number below 16.
abbrev pub hex_digit : ℕ → ℕ
hex_digit d = if ltb d 10 then 48 + d else 87 + d

-- The digits of a number, before those of `after`; the rounds are the digits at most.
abbrev pub hex_digits : ℕ → ℕ → List ℕ → List ℕ
hex_digits zero n after = after
hex_digits (suc rounds) n after =
    let more = hex_digits rounds (n / 16) (hex_digit (n % 16) ∷ after) in
    if n / 16 == 0 then hex_digit (n % 16) ∷ after else more

-- `setw(width)` and `setfill('0')`, for a number of 64 bits.
abbrev pub hex_text : ℕ → ℕ → List ℕ
hex_text width n = let digits = hex_digits 16 n [] in replicate (width - length digits) 48 ++ digits

-- The two loops of a line that write bytes, and blanks behind the last; `left` is what is left of
-- the line.
abbrev pub hex_column : ℕ → (ℕ → ℕ) → ℕ → ℕ → List ℕ
hex_column zero bytes pos size = []
hex_column (suc left) bytes pos size =
    let byte = 32 ∷ hex_text 2 (bytes pos) in
    let blank = 32 ∷ 32 ∷ 32 ∷ [] in
    (if ltb pos size then byte else blank) ++ hex_column left bytes (pos + 1) size

-- A byte that is no graphic character is shown as a dot: as a `char` it is negative, or too large.
abbrev pub shown : ℕ → ℕ
shown b = if ltb b 32 || leb 127 b then 46 else b

-- The loop that writes the characters.
abbrev pub character_column : ℕ → (ℕ → ℕ) → ℕ → ℕ → List ℕ
character_column zero bytes pos size = []
character_column (suc left) bytes pos size =
    let rest = character_column left bytes (pos + 1) size in
    if ltb pos size then shown (bytes pos) ∷ rest else []

abbrev pub bytes_per_line : ℕ
bytes_per_line = 16

abbrev pub dump_line : (ℕ → ℕ) → ℕ → ℕ → List ℕ
dump_line bytes position size =
    hex_text 4 position
    ++ (58
        ∷ (hex_column bytes_per_line bytes position size
            ++ (32 ∷ (character_column bytes_per_line bytes position size ++ (10 ∷ [])))))

-- The loop over the lines.
abbrev pub dump_lines : ℕ → (ℕ → ℕ) → ℕ → ℕ → List ℕ
dump_lines zero bytes position size = []
dump_lines (suc rounds) bytes position size =
    let more = dump_lines rounds bytes (position + bytes_per_line) size in
    if ltb position size then dump_line bytes position size ++ more else []

-- One round for each byte is enough.
unfoldable pub hex_dump : (ℕ → ℕ) → ℕ → List ℕ
hex_dump bytes size = dump_lines size bytes 0 size
