-- ===== src/Cminus/Tm/Line.antt =====
-- The line scanner of tm.c: nonBlank, getNum, getWord, skipCh and atEOL. A line is the list of the
-- characters from `inCol` to `lineLen`; `ch` is the first of them, or a space.
use c_s_e_hanyang.Base.{
  ℕ, zero, suc, ◌+◌, ◌-◌, ◌*◌, Bool, true, false, not, ◌&&◌, ◌||◌, List, [], ◌∷◌, length, leb, ◌==◌,
  if◌then◌else◌,
}
use c_s_e_hanyang.Base.Int.{ℤ, pos, ◌+ℤ◌, ◌-ℤ◌}
use c_s_e_hanyang.Cminus.Tm.{word_size}

-- isdigit and isalnum, on ASCII.
abbrev pub is_digit : ℕ → Bool
is_digit c = leb b'0' c && leb c b'9'

abbrev pub is_alnum : ℕ → Bool
is_alnum c = is_digit c || (leb b'A' c && leb c b'Z') || (leb b'a' c && leb c b'z')

abbrev pub is_sign : ℕ → Bool
is_sign c = (c == b'+') || (c == b'-')

unfoldable pub non_blank : List ℕ → List ℕ
non_blank [] = []
non_blank (c ∷ cs) = let rest = non_blank cs in if c == b' ' then rest else c ∷ cs

unfoldable pub at_eol : List ℕ → Bool
unfolding non_blank
at_eol cs = elim (non_blank cs) [ [] ↦ true | _ ↦ false ]

-- The first loop inside `getNum`: whether the sign is negative, and whether a sign was read.
unfoldable pub signs : Bool → Bool → List ℕ → Bool × Bool × List ℕ
signs neg seen [] = (neg, seen, [])
signs neg seen (c ∷ cs) =
    let blank = signs neg seen cs in
    let plus = signs neg true cs in
    let minus = signs (not neg) true cs in
    if c == b' '
    then blank
    else (if c == b'+' then plus else (if c == b'-' then minus else (neg, seen, c ∷ cs)))

-- The second: the term, and whether a digit was read.
unfoldable pub digits : ℕ → Bool → List ℕ → ℕ × Bool × List ℕ
digits term seen [] = (term, seen, [])
digits term seen (c ∷ cs) =
    let more = digits (term * 10 + (c - b'0')) true cs in
    if is_digit c then more else (term, seen, c ∷ cs)

abbrev pub next_is_sign : List ℕ → Bool
next_is_sign [] = false
next_is_sign (c ∷ cs) = is_sign c

-- The outer loop of `getNum`, on fuel: each turn but the first reads a sign. The parts are the
-- result, `num`, and the rest of the line.
unfoldable pub sum_terms : ℕ → ℤ → Bool → List ℕ → Bool × ℤ × List ℕ
unfolding non_blank signs digits
sum_terms zero num ok cs = (ok, num, cs)
sum_terms (suc fuel) num ok cs =
    let (neg, signed, cs₁) = signs false false cs in
    let (term, seen, cs₂) = digits 0 false cs₁ in
    let num' = if neg then num -ℤ pos term else num +ℤ pos term in
    let ok' = seen || (ok && not signed) in
    let cs₃ = non_blank cs₂ in
    let more = sum_terms fuel num' ok' cs₃ in if next_is_sign cs₃ then more else (ok', num', cs₃)

unfoldable pub get_num : List ℕ → Bool × ℤ × List ℕ
unfolding sum_terms
get_num cs = sum_terms (suc (length cs)) (pos 0) false cs

-- `word` holds `WORDSIZE - 1` characters; those behind are read and dropped.
unfoldable pub word_loop : ℕ → List ℕ → List ℕ × List ℕ
word_loop room [] = ([], [])
word_loop room (c ∷ cs) =
    let rest = word_loop (room - 1) cs in
    if is_alnum c then ((if room == 0 then rest.0 else c ∷ rest.0), rest.1) else ([], c ∷ cs)

-- The empty word is the result `FALSE`.
unfoldable pub get_word : List ℕ → List ℕ × List ℕ
unfolding non_blank word_loop
get_word cs = word_loop (word_size - 1) (non_blank cs)

unfoldable pub skip_ch : ℕ → List ℕ → Bool × List ℕ
unfolding non_blank
skip_ch c cs = elim (non_blank cs) [
  | [] ↦ (false, [])
  | d ∷ ds ↦ if d == c then (true, ds) else (false, d ∷ ds)
]
