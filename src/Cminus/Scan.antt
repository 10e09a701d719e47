-- ===== src/Cminus/Scan.antt =====
-- 2018_ELE4029_2013012041/project/scan.c: the scanner of the C-Minus compiler. The source is the list
-- of the characters that are left, none of them NUL; the end of the file is `none`. The line buffer
-- and `lineno` are not modelled.
pub mod Progress
pub mod Text
mod Tests
use c_s_e_hanyang.Base.{
  ℕ, zero, suc, ◌+◌, ◌*◌, Bool, true, false, not, ◌&&◌, ◌||◌, List, [], ◌∷◌, ◌++◌, length, leb,
  ◌==◌, if◌then◌else◌, Option, none, some,
}

-- TokenType of globals.h
pub data TokenType : Type 0 where
  endfile error : TokenType
  if_token else_token while_token return_token int_token void_token : TokenType
  id num : TokenType
  assign eq ne lt le gt ge plus minus times over : TokenType
  lparen rparen lbrace rbrace lcurly rcurly semi comma : TokenType

-- StateType; `DONE` is a `Next`.
pub data StateType : Type 0 where
  start ineq incomment innum inid inlt ingt inne inover incomment_ : StateType

-- Where a turn of the loop leads: to a state, or to `DONE` with `currentToken`.
pub data Next : Type 0 where
  go : StateType → Next
  done : TokenType → Next

-- What a turn of the loop does: `save` and `unget` as in the source, and `back` for
-- `tokenStringIndex--`.
pub record Turn : Type 0 where
  pub next : Next
  pub save : Bool
  pub unget : Bool
  pub back : Bool

abbrev pub max_token_len : ℕ
max_token_len = 40

abbrev pub is_digit : ℕ → Bool
is_digit c = leb b'0' c && leb c b'9'

abbrev pub is_alpha : ℕ → Bool
is_alpha c = (leb b'A' c && leb c b'Z') || (leb b'a' c && leb c b'z')

-- A turn that saves the character, one that drops it, and one that puts it back.
abbrev pub keep : Next → Turn
keep n = record { next = n; save = true; unget = false; back = false }

abbrev pub skip : Next → Turn
skip n = record { next = n; save = false; unget = false; back = false }

abbrev pub put_back : Next → Turn
put_back n = record { next = n; save = false; unget = true; back = false }

-- The inner `switch` of `START`.
unfoldable pub single : ℕ → TokenType
single c =
    if c == b'+'
    then plus
    else (if c == b'-'
        then minus
        else (if c == b'*'
            then times
            else (if c == b'('
                then lparen
                else (if c == b')'
                    then rparen
                    else (if c == b'{'
                        then lcurly
                        else (if c == b'}'
                            then rcurly
                            else (if c == b'['
                                then lbrace
                                else (if c == b']'
                                    then rbrace
                                    else (if c == b';'
                                        then semi
                                        else (if c == b',' then comma else error))))))))))

abbrev pub is_blank : ℕ → Bool
is_blank c = (c == b' ') || (c == 9) || (c == 10)

unfoldable pub start_turn : ℕ → Turn
unfolding single
start_turn c =
    if is_digit c
    then keep (go innum)
    else (if is_alpha c
        then keep (go inid)
        else (if c == b'='
            then keep (go ineq)
            else (if is_blank c
                then skip (go start)
                else (if c == b'/'
                    then keep (go inover)
                    else (if c == b'<'
                        then keep (go inlt)
                        else (if c == b'>'
                            then keep (go ingt)
                            else (if c == b'!'
                                then keep (go inne)
                                else keep (done (single c)))))))))

-- The states `INEQ`, `INLT`, `INGT` and `INNE`.
abbrev pub with_equals : TokenType → TokenType → ℕ → Turn
with_equals long short c = if c == b'=' then keep (done long) else put_back (done short)

-- The `switch` on the state, on a character.
unfoldable pub turn : StateType → ℕ → Turn
unfolding start_turn
turn start c = start_turn c
turn inover c =
    if c == b'*'
    then record { next = go incomment; save = false; unget = false; back = true }
    else put_back (done over)
turn incomment c = if c == b'*' then skip (go incomment_) else skip (go incomment)
turn incomment_ c = if c == b'/' then skip (go start) else put_back (go incomment)
turn ineq c = with_equals eq assign c
turn inlt c = with_equals le lt c
turn ingt c = with_equals ge gt c
turn inne c = with_equals ne error c
turn innum c = if is_digit c then keep (go innum) else put_back (done num)
turn inid c = if is_alpha c then keep (go inid) else put_back (done id)

-- And at the end of the file, where `ungetNextChar` does nothing.
unfoldable pub turn_eof : StateType → Next
turn_eof start = done endfile
turn_eof inover = done over
turn_eof incomment = done endfile
turn_eof incomment_ = go incomment
turn_eof ineq = done assign
turn_eof inlt = done lt
turn_eof ingt = done gt
turn_eof inne = done error
turn_eof innum = done num
turn_eof inid = done id

-- `strcmp(s, word) == 0`
unfoldable pub same : List ℕ → List ℕ → Bool
same [] [] = true
same [] (b ∷ bs) = false
same (a ∷ as') [] = false
same (a ∷ as') (b ∷ bs) = (a == b) && same as' bs

abbrev pub reserved_words : List (List ℕ × TokenType)
reserved_words =
    (b'i' ∷ b'f' ∷ [], if_token)
    ∷ (b'e' ∷ b'l' ∷ b's' ∷ b'e' ∷ [], else_token)
    ∷ (b'w' ∷ b'h' ∷ b'i' ∷ b'l' ∷ b'e' ∷ [], while_token)
    ∷ (b'r' ∷ b'e' ∷ b't' ∷ b'u' ∷ b'r' ∷ b'n' ∷ [], return_token)
    ∷ (b'i' ∷ b'n' ∷ b't' ∷ [], int_token)
    ∷ (b'v' ∷ b'o' ∷ b'i' ∷ b'd' ∷ [], void_token)
    ∷ []

unfoldable pub lookup_in : List (List ℕ × TokenType) → List ℕ → TokenType
unfolding same
lookup_in [] s = id
lookup_in ((word, tok) ∷ words) s =
    let later = lookup_in words s in if same s word then tok else later

unfoldable pub reserved_lookup : List ℕ → TokenType
unfolding lookup_in
reserved_lookup s = lookup_in reserved_words s

abbrev pub classify : TokenType → List ℕ → TokenType
unfolding reserved_lookup
classify id s = reserved_lookup s
classify t s = t

-- `tokenString[tokenStringIndex++] = c`, where the index allows it.
abbrev pub save_char : Bool → List ℕ → ℕ → List ℕ
save_char saves text c = if saves && leb (length text) max_token_len then text ++ c ∷ [] else text

unfoldable pub drop_last : List ℕ → List ℕ
drop_last [] = []
drop_last (c ∷ cs) = let rest = drop_last cs in elim cs [ [] ↦ [] | d ∷ ds ↦ c ∷ rest ]

abbrev pub shorten : Bool → List ℕ → List ℕ
unfolding drop_last
shorten back text = if back then drop_last text else text

-- A token, `tokenString`, and the source behind it.
pub record Token : Type 0 where
  pub token : TokenType
  pub text : List ℕ
  pub rest : List ℕ

abbrev pub finish : TokenType → List ℕ → List ℕ → Token
finish t text rest = record { token = classify t text; text = text; rest = rest }

-- The loop of `getToken`, on fuel; `none` is a loop that has run out of it.
unfoldable pub token_loop : ℕ → StateType → List ℕ → List ℕ → Option Token
unfolding turn turn_eof reserved_lookup drop_last
token_loop zero state text cs = none
token_loop (suc fuel) state text [] = elim (turn_eof state) [
  | go s ↦ token_loop fuel s text []
  | done t ↦ some (finish t text [])
]
token_loop (suc fuel) state text (c ∷ cs) =
    let t = turn state c in
    let text' = save_char t.save (shorten t.back text) c in
    let cs' = if t.unget then c ∷ cs else cs in
    elim t.next [ go s ↦ token_loop fuel s text' cs' | done k ↦ some (finish k text' cs') ]

unfoldable pub get_token : List ℕ → Option Token
unfolding token_loop
get_token cs = token_loop (2 * length cs + 2) start [] cs
