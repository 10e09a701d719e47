-- ===== src/Cminus/Scan/Text.antt =====
-- How long `tokenString` of scan.c grows.
use c_s_e_hanyang.Base.{
  ℕ, zero, suc, ◌+◌, ◌*◌, ◌≤◌, ◌≡◌, Bool, true, false, List, [], ◌∷◌, length, length-append, Option,
  none, some, arith, if◌then◌else◌,
}
use mathlib.Core.Path.{subst}
use c_s_e_hanyang.Cminus.Scan.{
  StateType, start, Next, go, done, turn, turn_eof, Token, token_loop, get_token, finish, save_char,
  shorten, drop_last, max_token_len,
}

length-drop_last : (cs : List ℕ) → length (drop_last cs) ≤ length cs
unfolding drop_last
length-drop_last [] = omega arith
length-drop_last (c ∷ []) = omega arith
length-drop_last (c ∷ d ∷ ds) = omega (arith, length-drop_last (d ∷ ds))

length-shorten : (back : Bool) (text : List ℕ) → length (shorten back text) ≤ length text
unfolding shorten
length-shorten true text = length-drop_last text
length-shorten false text = omega arith

length-save_char :
    (saves : Bool) (text : List ℕ) (c : ℕ)
    → length text ≤ max_token_len + 1
    → length (save_char saves text c) ≤ max_token_len + 1
length-save_char saves text c h = ground (arith, length-append text (c ∷ []))

Short : Option Token → Type 0
Short none = 0 ≤ 0
Short (some tok) = length tok.text ≤ max_token_len + 1

after_lem :
    (n : Next) (fuel : ℕ) (text cs : List ℕ)
    → length text ≤ max_token_len + 1
    → ((s : StateType) → Short (token_loop fuel s text cs))
    → Short (elim n [ go s ↦ token_loop fuel s text cs | done k ↦ some (finish k text cs) ])
unfolding Short
after_lem (go s) fuel text cs h ih = ih s
after_lem (done k) fuel text cs h ih = h

loop_lem :
    (fuel : ℕ) (s : StateType) (text cs : List ℕ)
    → length text ≤ max_token_len + 1
    → Short (token_loop fuel s text cs)
unfolding token_loop Short
loop_lem zero s text cs h = omega arith
loop_lem (suc fuel) s text [] h =
    after_lem (turn_eof s) fuel text [] h (λ s'. loop_lem fuel s' text [] h)
loop_lem (suc fuel) s text (c ∷ cs) h =
    let t = turn s c in
    let text' = save_char t.save (shorten t.back text) c in
    let h' =
      length-save_char t.save (shorten t.back text) c (omega (arith, length-shorten t.back text)) in
    after_lem t.next fuel text' (if t.unget then c ∷ cs else cs) h'
      (λ s'. loop_lem fuel s' text' (if t.unget then c ∷ cs else cs) h')

-- `tokenString` never holds more than `MAXTOKENLEN + 1` characters. That is one more than the array
-- has room for beside the terminator.
pub get_token-text :
    (cs : List ℕ) (tok : Token) → get_token cs ≡ some tok → length tok.text ≤ max_token_len + 1
unfolding get_token Short
get_token-text cs tok h = subst Short h (loop_lem (2 * length cs + 2) start [] cs (omega arith))
