-- ===== src/Steps/Tee/Readback.antt =====
-- A reader of what `Tee::hexDump` of src/StepLibrary/Tee.cpp writes, and its characters.
use hsqueue.Base.{
  ℕ, zero, suc, ◌+◌, ◌*◌, ◌/◌, ◌%◌, ◌-◌, ◌<◌, ◌≡◌, refl, sym, ap, ◌∙◌, Bool, true, false, List, [],
  ◌∷◌, ◌++◌, arith, ltb, ◌==◌, if◌then◌else◌, length, replicate, All, if_of_true, if_of_false,
}
use hsqueue.Steps.Tee.Dump.{hex_digit, hex_digits, hex_text, shown, bytes_per_line}

abbrev pub hex_value : ℕ → ℕ
hex_value c = if ltb c 58 then c - 48 else c - 87

-- The text behind the first `c`.
abbrev pub skip_past : ℕ → List ℕ → List ℕ
skip_past c [] = []
skip_past c (x ∷ xs) = let rest = skip_past c xs in if x == c then xs else rest

-- The bytes of a line, three characters each; a blank where there is none.
abbrev pub read_column : ℕ → List ℕ → List ℕ
read_column (suc left) (a ∷ b ∷ c ∷ text) =
    let rest = read_column left text in
    if b == 32 then rest else (hex_value b * 16 + hex_value c) ∷ rest
read_column left text = []

-- The bytes of the lines of a dump: what stands behind the colon of each.
abbrev pub read_lines : ℕ → List ℕ → List ℕ
read_lines zero text = []
read_lines (suc lines) [] = []
read_lines (suc lines) (c ∷ text) =
    read_column bytes_per_line (skip_past 58 (c ∷ text))
    ++ read_lines lines (skip_past 10 (c ∷ text))

unfoldable pub read_dump : List ℕ → List ℕ
read_dump text = read_lines (length text) text

abbrev pub Lacks : ℕ → List ℕ → Type 0
Lacks c text = All (λ x. (x == c) ≡ false) text

pub Lacks-append : (c : ℕ) (xs ys : List ℕ) → Lacks c xs → Lacks c ys → Lacks c (xs ++ ys)
Lacks-append c [] ys h g = g
Lacks-append c (x ∷ xs) ys h g = (h.0, Lacks-append c xs ys h.1 g)

pub skip_past-append : (c : ℕ) (xs ys : List ℕ) → Lacks c xs → skip_past c (xs ++ c ∷ ys) ≡ ys
skip_past-append c [] ys h = if_of_true {b = c == c} _ _ (ground arith)
skip_past-append c (x ∷ xs) ys h = if_of_false _ _ h.0 ∙ skip_past-append c xs ys h.1

-- The characters that end the parts of a line are no digits.
hex_digits-Lacks :
    (c rounds n : ℕ) (after : List ℕ)
    → ((d : ℕ) → d < 16 → (hex_digit d == c) ≡ false)
    → Lacks c after
    → Lacks c (hex_digits rounds n after)
hex_digits-Lacks c zero n after far h = h
hex_digits-Lacks c (suc rounds) n after far h =
    if-Lacks (n / 16 == 0) _ _ (far (n % 16) (omega arith), h)
      (hex_digits-Lacks c rounds (n / 16) (hex_digit (n % 16) ∷ after) far
        (far (n % 16) (omega arith), h))
  where
    if-Lacks :
        (b : Bool) (xs ys : List ℕ) → Lacks c xs → Lacks c ys → Lacks c (if b then xs else ys)
    if-Lacks true xs ys f g = f
    if-Lacks false xs ys f g = g

replicate-Lacks : (c n x : ℕ) → (x == c) ≡ false → Lacks c (replicate n x)
replicate-Lacks c zero x h = tt
replicate-Lacks c (suc n) x h = (h, replicate-Lacks c n x h)

pub hex_text-Lacks :
    (c width n : ℕ) → ((d : ℕ) → d < 16 → (hex_digit d == c) ≡ false) → Lacks c (hex_text width n)
hex_text-Lacks c width n far =
    Lacks-append c (replicate (width - length (hex_digits 16 n [])) 48) (hex_digits 16 n [])
      (replicate-Lacks c (width - length (hex_digits 16 n [])) 48 (far 0 (omega arith)))
      (hex_digits-Lacks c 16 n [] far tt)

pub far_colon : (d : ℕ) → d < 16 → (hex_digit d == 58) ≡ false
far_colon d h = ground arith

pub far_newline : (d : ℕ) → d < 16 → (hex_digit d == 10) ≡ false
far_newline d h = ground arith

byte_digits :
    (r b : ℕ)
    → b < 256
    → hex_digits (suc (suc r)) b [] ≡ (
        if b / 16 == 0
        then hex_digit (b % 16) ∷ []
        else hex_digit (b / 16) ∷ hex_digit (b % 16) ∷ [])
byte_digits r b h = ground arith

-- Where there is one digit, a zero is put before it.
padded :
    (one : Bool) (hi lo : ℕ)
    → (one ≡ true → hi ≡ 48)
    → (let digits = if one then lo ∷ [] else hi ∷ lo ∷ [] in
        replicate (2 - length digits) 48 ++ digits)
      ≡ hi ∷ lo ∷ []
padded true hi lo h = ap (λ x. x ∷ lo ∷ []) (sym (h refl))
padded false hi lo h = refl

pub byte_text : (b : ℕ) → b < 256 → hex_text 2 b ≡ hex_digit (b / 16) ∷ hex_digit (b % 16) ∷ []
byte_text b h =
    ap (λ l. replicate (2 - length l) 48 ++ l) (byte_digits 14 b h)
    ∙ padded (b / 16 == 0) (hex_digit (b / 16)) (hex_digit (b % 16)) (λ e. ground arith)

pub byte_value :
    (b : ℕ) → b < 256 → hex_value (hex_digit (b / 16)) * 16 + hex_value (hex_digit (b % 16)) ≡ b
byte_value b h = ground arith

pub not_blank : (d : ℕ) → d < 16 → (hex_digit d == 32) ≡ false
not_blank d h = ground arith

pub shown-Lacks : (b : ℕ) → (shown b == 10) ≡ false
shown-Lacks b = ground arith
