-- ===== src/Steps/Tee/RoundTrip.antt =====
-- What `Tee::hexDump` of src/StepLibrary/Tee.cpp writes can be read back.
use mathlib.Core.List.{append_assoc}
use hsqueue.Base.{
  ℕ, zero, suc, ◌+◌, ◌/◌, ◌-◌, ◌<◌, ◌≤◌, ◌≡◌, refl, sym, ap, ◌∙◌, subst, true, false, List, [], ◌∷◌,
  ◌++◌, arith, ltb, if◌then◌else◌, length, length-append, tabulate, Bool-cases, inl, inr,
  if_of_true, if_of_false,
}
use hsqueue.Steps.Tee.Dump.{
  hex_text, hex_column, character_column, dump_line, dump_lines, hex_dump, bytes_per_line,
}
use hsqueue.Steps.Tee.Readback.{
  skip_past, read_column, read_lines, read_dump, Lacks, Lacks-append, skip_past-append,
  hex_text-Lacks, far_colon, far_newline, byte_text, byte_value, not_blank, shown-Lacks,
}

module _ (bytes : ℕ → ℕ) (size : ℕ) (small : (i : ℕ) → bytes i < 256) where
  abbrev place : ℕ → List ℕ
  place pos = if ltb pos size then 32 ∷ hex_text 2 (bytes pos) else 32 ∷ 32 ∷ 32 ∷ []

  character_column-Lacks : (left pos : ℕ) → Lacks 10 (character_column left bytes pos size)
  character_column-Lacks zero pos = tt
  character_column-Lacks (suc left) pos = elim (Bool-cases (ltb pos size)) [
    | inl more ↦
        subst (Lacks 10) (sym (if_of_true _ _ more))
          (shown-Lacks (bytes pos), character_column-Lacks left (pos + 1))
    | inr done ↦ subst (Lacks 10) (sym (if_of_false _ _ done)) tt
  ]

  hex_column-Lacks : (left pos : ℕ) → Lacks 10 (hex_column left bytes pos size)
  hex_column-Lacks zero pos = tt
  hex_column-Lacks (suc left) pos =
      Lacks-append 10 (place pos) (hex_column left bytes (pos + 1) size)
        (elim (Bool-cases (ltb pos size)) [
          | inl more ↦
              subst (Lacks 10) (sym (if_of_true _ _ more))
                (refl, hex_text-Lacks 10 2 (bytes pos) far_newline)
          | inr done ↦ subst (Lacks 10) (sym (if_of_false _ _ done)) (refl, (refl, (refl, tt)))
        ])
        (hex_column-Lacks left (pos + 1))

  -- One place of the column is read.
  read_place_full :
      (left pos : ℕ) (rest : List ℕ)
      → ltb pos size ≡ true
      → read_column (suc left) (place pos ++ rest) ≡ bytes pos ∷ read_column left rest
  read_place_full left pos rest more =
      ap (λ l. read_column (suc left) (l ++ rest))
        (if_of_true _ _ more ∙ ap (λ l. 32 ∷ l) (byte_text (bytes pos) (small pos)))
      ∙ if_of_false _ _ (not_blank (bytes pos / 16) (omega (arith, small pos)))
      ∙ ap (λ b. b ∷ read_column left rest) (byte_value (bytes pos) (small pos))

  read_place_blank :
      (left pos : ℕ) (rest : List ℕ)
      → ltb pos size ≡ false
      → read_column (suc left) (place pos ++ rest) ≡ read_column left rest
  read_place_blank left pos rest done =
      ap (λ l. read_column (suc left) (l ++ rest)) (if_of_false _ _ done)

  tabulate_none : (i j n m : ℕ) → n ≡ 0 → m ≡ 0 → tabulate bytes i n ≡ tabulate bytes j m
  tabulate_none i j n m e f = ap (tabulate bytes i) e ∙ sym (ap (tabulate bytes j) f)

  -- What a line shows, and what is left after it.
  read_column-hex_column :
      (left pos : ℕ) (rest : List ℕ)
      → read_column left (hex_column left bytes pos size ++ rest)
          ++ tabulate bytes (pos + left) (size - (pos + left))
        ≡ tabulate bytes pos (size - pos)
  read_column-hex_column zero pos rest = ap (λ j. tabulate bytes j (size - j)) (omega arith)
  read_column-hex_column (suc left) pos rest =
      ap
        (λ l. read_column (suc left) l ++ tabulate bytes (pos + suc left) (size - (pos + suc left)))
        (append_assoc (place pos) (hex_column left bytes (pos + 1) size) rest)
      ∙ ap (λ j. read_column (suc left) (place pos ++ more) ++ tabulate bytes j (size - j))
          (omega arith)
      ∙ elim (Bool-cases (ltb pos size)) [
        | inl full ↦
            ap (λ l. l ++ tabulate bytes (pos + 1 + left) (size - (pos + 1 + left)))
              (read_place_full left pos more full)
            ∙ ap (λ l. bytes pos ∷ l) (read_column-hex_column left (pos + 1) rest)
            ∙ ap (tabulate bytes pos) {x = suc (size - (pos + 1))} (ground arith)
        | inr done ↦
            ap (λ l. l ++ tabulate bytes (pos + 1 + left) (size - (pos + 1 + left)))
              (read_place_blank left pos more done)
            ∙ read_column-hex_column left (pos + 1) rest
            ∙ tabulate_none (pos + 1) pos (size - (pos + 1)) (size - pos) (ground arith)
                (ground arith)
      ]
    where
      more : List ℕ
      more = hex_column left bytes (pos + 1) size ++ rest

  regrouped :
      (a b c rest : List ℕ) → a ++ 58 ∷ (b ++ (c ++ 10 ∷ rest)) ≡ (a ++ 58 ∷ (b ++ c)) ++ 10 ∷ rest
  regrouped a b c rest = simp append_assoc

  abbrev characters : ℕ → List ℕ
  characters pos = 32 ∷ character_column bytes_per_line bytes pos size

  dump_line-parts :
      (pos : ℕ) (rest : List ℕ)
      → dump_line bytes pos size ++ rest
        ≡ hex_text 4 pos
          ++ 58 ∷ (hex_column bytes_per_line bytes pos size ++ (characters pos ++ 10 ∷ rest))
  dump_line-parts pos rest = simp (append_assoc)

  -- Past the colon of a line stands its column, and past its end what follows it.
  skip_past_colon :
      (pos : ℕ) (rest : List ℕ)
      → skip_past 58 (dump_line bytes pos size ++ rest)
        ≡ hex_column bytes_per_line bytes pos size ++ (characters pos ++ 10 ∷ rest)
  skip_past_colon pos rest =
      ap (skip_past 58) (dump_line-parts pos rest)
      ∙ skip_past-append 58 (hex_text 4 pos) _ (hex_text-Lacks 58 4 pos far_colon)

  skip_past_end : (pos : ℕ) (rest : List ℕ) → skip_past 10 (dump_line bytes pos size ++ rest) ≡ rest
  skip_past_end pos rest =
      ap (skip_past 10)
        (dump_line-parts pos rest ∙ regrouped (hex_text 4 pos) column (characters pos) rest)
      ∙ skip_past-append 10 before rest (
          Lacks-append 10 (hex_text 4 pos) (58 ∷ (column ++ characters pos))
            (hex_text-Lacks 10 4 pos far_newline)
            (
              refl,
              Lacks-append 10 column (characters pos) (hex_column-Lacks bytes_per_line pos)
                  (refl, character_column-Lacks bytes_per_line pos),
            ))
    where
      column : List ℕ
      column = hex_column bytes_per_line bytes pos size

      before : List ℕ
      before = hex_text 4 pos ++ 58 ∷ (column ++ characters pos)

  read_lines-nil : (n : ℕ) → read_lines n [] ≡ []
  read_lines-nil zero = refl
  read_lines-nil (suc n) = refl

  -- A line is not empty, so it is read.
  read_lines_line :
      (n pos : ℕ) (rest : List ℕ)
      → read_lines (suc n) (dump_line bytes pos size ++ rest)
        ≡ read_column bytes_per_line (skip_past 58 (dump_line bytes pos size ++ rest))
          ++ read_lines n (skip_past 10 (dump_line bytes pos size ++ rest))
  read_lines_line n pos rest = started (hex_text 4 pos) _ rest
    where
      started :
          (xs ys zs : List ℕ)
          → let text = (xs ++ 58 ∷ ys) ++ zs in
            read_lines (suc n) text
            ≡ read_column bytes_per_line (skip_past 58 text) ++ read_lines n (skip_past 10 text)
      started [] ys zs = refl
      started (x ∷ xs) ys zs = refl

  dump_line-length :
      (pos : ℕ) (rest : List ℕ) → length rest < length (dump_line bytes pos size ++ rest)
  dump_line-length pos rest =
      omega (arith, length-append (dump_line bytes pos size) rest, length-append (hex_text 4 pos) _)

  read_first :
      (n pos : ℕ) (after : List ℕ)
      → length (dump_line bytes pos size ++ after) ≤ n
      → ((m : ℕ)
          → length after ≤ m
          → read_lines m after
            ≡ tabulate bytes (pos + bytes_per_line) (size - (pos + bytes_per_line)))
      → read_lines n (dump_line bytes pos size ++ after) ≡ tabulate bytes pos (size - pos)
  read_first zero pos after fits ih = absurd (omega (arith, dump_line-length pos after, fits))
  read_first (suc n) pos after fits ih =
      read_lines_line n pos after
      ∙ ap
          (λ l.
            read_column bytes_per_line l
            ++ read_lines n (skip_past 10 (dump_line bytes pos size ++ after)))
          (skip_past_colon pos after)
      ∙ ap
          (λ l.
            read_column bytes_per_line
              (hex_column bytes_per_line bytes pos size ++ (characters pos ++ 10 ∷ after))
            ++ l)
          (ap (read_lines n) (skip_past_end pos after)
            ∙ ih n (omega (arith, dump_line-length pos after, fits)))
      ∙ read_column-hex_column bytes_per_line pos (characters pos ++ 10 ∷ after)

  read_lines-dump_lines :
      (n rounds pos : ℕ)
      → length (dump_lines rounds bytes pos size) ≤ n
      → size ≤ pos + rounds
      → read_lines n (dump_lines rounds bytes pos size) ≡ tabulate bytes pos (size - pos)
  read_lines-dump_lines n zero pos fits enough =
      read_lines-nil n
      ∙ sym (ap (tabulate bytes pos) {x = size - pos} {y = 0} (omega (arith, enough)))
  read_lines-dump_lines n (suc rounds) pos fits enough = elim (Bool-cases (ltb pos size)) [
    | inr done ↦
        ap (read_lines n) (if_of_false _ _ done)
        ∙ read_lines-nil n
        ∙ sym (ap (tabulate bytes pos) {x = size - pos} {y = 0} (ground arith))
    | inl more ↦
        ap (read_lines n) (if_of_true _ _ more)
        ∙ read_first n pos (dump_lines rounds bytes (pos + bytes_per_line) size)
            (subst (λ l. length l ≤ n) (if_of_true _ _ more) fits)
            (λ m fits'.
              read_lines-dump_lines m rounds (pos + bytes_per_line) fits' (omega (arith, enough)))
  ]

  -- The bytes of a message can be read back from what `hexDump` writes of it: no byte is left out, and
  -- none is written twice or out of order, however many lines there are.
  pub read_dump-hex_dump : read_dump (hex_dump bytes size) ≡ tabulate bytes 0 size
  unfolding read_dump hex_dump
  read_dump-hex_dump =
      read_lines-dump_lines (length (hex_dump bytes size)) size 0 (omega arith) (omega arith)
      ∙ ap (tabulate bytes 0) {x = size - 0} (omega arith)
