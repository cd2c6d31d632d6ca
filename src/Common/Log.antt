-- ===== src/Common/Log.antt =====
-- src/Common/Log.cpp and Log.hpp: levels are sets of bits; what is written to the error stream is a
-- list of character codes. The names of the levels are as the source writes them.
use hsqueue.Base.{
  ℕ, zero, suc, ◌+◌, ◌-◌, ◌/◌, ◌%◌, Bool, false, ◌&&◌, ◌||◌, List, [], ◌∷◌, ◌++◌, ltb, ◌==◌,
  if◌then◌else◌, codes, ◌≡◌, refl,
}

abbrev force : ℕ
force = 1

abbrev fatal : ℕ
fatal = 2

abbrev error : ℕ
error = 4

abbrev warning : ℕ
warning = 8

abbrev info : ℕ
info = 16

abbrev statistics : ℕ
statistics = 32

abbrev trace : ℕ
trace = 64

abbrev debug : ℕ
debug = 128

abbrev verbose : ℕ
verbose = 256

-- `runtimeLevel` of a build without `_DEBUG`.
abbrev pub runtime_level : ℕ
runtime_level = force + fatal + error + warning + info + statistics

-- Whether a bit is set in both, of so many.
abbrev common_bit : ℕ → ℕ → ℕ → Bool
common_bit zero a b = false
common_bit (suc bits) a b =
    let more = common_bit bits (a / 2) (b / 2) in (a % 2 == 1 && b % 2 == 1) || more

-- A level has 16 bits.
unfoldable pub is_enabled : ℕ → ℕ → Bool
is_enabled runtime level = common_bit 16 level runtime

-- What a call adds to the error stream, where locations are not included.
unfoldable pub log : ℕ → ℕ → List ℕ → List ℕ
unfolding is_enabled
log runtime level message = if is_enabled runtime level then message ++ 10 ∷ [] else []

-- `LogTypedLimited`: `remaining` is the variable of the place; with what is left of it.
unfoldable pub log_limited : ℕ → ℕ → ℕ → List ℕ → ℕ × List ℕ
log_limited runtime level remaining message =
    let prefix = if remaining - 1 == 0 then codes "Last time: " else [] in
    if ltb 0 remaining
    then (remaining - 1, log runtime level (prefix ++ message))
    else (remaining, [])

abbrev when : ℕ → ℕ → List ℕ → List ℕ
when level bit text = if common_bit 16 level bit then text else []

unfoldable pub to_text : ℕ → List ℕ
to_text level =
    when level force (codes " FORCE")
    ++ when level fatal (codes " FATAL")
    ++ when level error (codes " ERROR")
    ++ when level warning (codes " WARNING")
    ++ when level info (codes " DEBUG")
    ++ when level statistics (codes " STATISTICS")
    ++ when level debug (codes " TRACE")
    ++ when level trace (codes " TRACE")
    ++ when level verbose (codes " VERBOSE")

-- Two levels have one name.
same_name : to_text debug ≡ to_text trace
unfolding to_text
same_name = refl

written : log_limited runtime_level error 1 (33 ∷ []) ≡ (0, codes "Last time: !" ++ 10 ∷ [])
unfolding log_limited log is_enabled
written = refl
