-- ===== src/Cminus/Scan/Progress.antt =====
-- getToken of scan.c ends, and each token but the last uses up characters of the source.
use c_s_e_hanyang.Base.{
  ℕ, zero, suc, ◌+◌, ◌*◌, ◌≤◌, ◌<◌, ◌≡◌, refl, Bool, true, false, List, [], ◌∷◌, length, some,
  arith, ◌⊎◌, inl, inr, if◌then◌else◌, ◌==◌,
}
use c_s_e_hanyang.Cminus.Scan.{
  TokenType, endfile, over, assign, eq, le, lt, ge, gt, ne, error, num, id, StateType, start, ineq,
  incomment, innum, inid, inlt, ingt, inne, inover, incomment_, Next, go, done, Turn, keep, skip,
  put_back, turn, turn_eof, start_turn, single, with_equals, Token, token_loop, get_token, finish,
  save_char, shorten, is_digit, is_alpha, is_blank,
}

weight : StateType → ℕ
weight incomment_ = 1
weight _ = 0

-- Whether a token that ends here may have used nothing more.
slack : StateType → ℕ
slack start = 0
slack incomment = 0
slack incomment_ = 0
slack _ = 1

cost : Bool → ℕ
cost true = 1
cost false = 0

NextOk : StateType → Bool → Next → Type 0
NextOk s unget (go s') =
    (weight s' + 2 * cost unget ≤ weight s + 1) × (slack s' + cost unget ≤ slack s + 1)
NextOk s unget (done k) = cost unget ≤ slack s

if_all : {A : Type 0} (P : A → Type 0) (b : Bool) (x y : A) → P x → P y → P (if b then x else y)
if_all P true x y hx hy = hx
if_all P false x y hx hy = hy

TurnOk : StateType → Turn → Type 0
unfolding NextOk
TurnOk s t = NextOk s t.unget t.next

small : (s : StateType) → (weight s ≤ 1) × (slack s ≤ 1)
unfolding weight slack
small start = (omega arith, omega arith)
small ineq = (omega arith, omega arith)
small incomment = (omega arith, omega arith)
small innum = (omega arith, omega arith)
small inid = (omega arith, omega arith)
small inlt = (omega arith, omega arith)
small ingt = (omega arith, omega arith)
small inne = (omega arith, omega arith)
small inover = (omega arith, omega arith)
small incomment_ = (omega arith, omega arith)

-- A turn that uses its character.
used_lem : (s : StateType) (n : Next) → NextOk s false n
unfolding NextOk cost
used_lem s (go s') = (omega (arith, (small s').0), omega (arith, (small s').1))
used_lem s (done k) = omega arith

start_turn_lem : (c : ℕ) → TurnOk start (start_turn c)
unfolding start_turn TurnOk
start_turn_lem c =
    if_all (TurnOk start) (is_digit c) (keep (go innum)) _ (used_lem start (go innum)) (
      if_all (TurnOk start) (is_alpha c) (keep (go inid)) _ (used_lem start (go inid)) (
        if_all (TurnOk start) (c == b'=') (keep (go ineq)) _ (used_lem start (go ineq)) (
          if_all (TurnOk start) (is_blank c) (skip (go start)) _ (used_lem start (go start)) (
            if_all (TurnOk start) (c == b'/') (keep (go inover)) _ (used_lem start (go inover)) (
              if_all (TurnOk start) (c == b'<') (keep (go inlt)) _ (used_lem start (go inlt)) (
                if_all (TurnOk start) (c == b'>') (keep (go ingt)) _ (used_lem start (go ingt)) (
                  if_all (TurnOk start) (c == b'!') (keep (go inne)) _ (used_lem start (go inne))
                    (used_lem start (done (single c))))))))))

equals_lem :
    (s : StateType) (long short : TokenType) (c : ℕ)
    → slack s ≡ 1
    → TurnOk s (with_equals long short c)
unfolding TurnOk NextOk cost
equals_lem s long short c h =
    if_all (TurnOk s) (c == b'=') (keep (done long)) (put_back (done short))
      (used_lem s (done long)) (omega arith)

turn_lem : (s : StateType) (c : ℕ) → TurnOk s (turn s c)
unfolding turn TurnOk NextOk weight slack cost
turn_lem start c = start_turn_lem c
turn_lem inover c =
    if_all (TurnOk inover) (c == b'*')
      (record { next = go incomment; save = false; unget = false; back = true })
      (put_back (done over)) (used_lem inover (go incomment)) (omega arith)
turn_lem incomment c =
    if_all (TurnOk incomment) (c == b'*') (skip (go incomment_)) (skip (go incomment))
      (used_lem incomment (go incomment_)) (used_lem incomment (go incomment))
turn_lem incomment_ c =
    if_all (TurnOk incomment_) (c == b'/') (skip (go start)) (put_back (go incomment))
      (used_lem incomment_ (go start)) (omega arith, omega arith)
turn_lem ineq c = equals_lem ineq eq assign c refl
turn_lem inlt c = equals_lem inlt le lt c refl
turn_lem ingt c = equals_lem ingt ge gt c refl
turn_lem inne c = equals_lem inne ne error c refl
turn_lem innum c =
    if_all (TurnOk innum) (is_digit c) (keep (go innum)) (put_back (done num))
      (used_lem innum (go innum)) (omega arith)
turn_lem inid c =
    if_all (TurnOk inid) (is_alpha c) (keep (go inid)) (put_back (done id))
      (used_lem inid (go inid)) (omega arith)

Reaches : StateType → List ℕ → Token → Type 0
Reaches s cs tok =
    ((tok.token ≡ endfile) × (tok.rest ≡ [])) ⊎ (length tok.rest < length cs + slack s)

Ends : ℕ → StateType → List ℕ → List ℕ → Type 0
Ends fuel s text cs = (tok : Token) × ((token_loop fuel s text cs ≡ some tok) × Reaches s cs tok)

turn_length :
    (u : Bool) (c : ℕ) (cs : List ℕ) → length (if u then c ∷ cs else cs) ≡ length cs + cost u
unfolding cost
turn_length true c cs = omega arith
turn_length false c cs = omega arith

carried :
    (s s' : StateType) (c : ℕ) (cs : List ℕ) (u : Bool) (tok : Token)
    → slack s' + cost u ≤ slack s + 1
    → Reaches s' (if u then c ∷ cs else cs) tok
    → Reaches s (c ∷ cs) tok
unfolding Reaches
carried s s' c cs u tok h (inl e) = inl e
carried s s' c cs u tok h (inr l) = inr (omega (arith, turn_length u c cs))

after_lem :
    (fuel : ℕ) (s : StateType) (text' : List ℕ) (c : ℕ) (cs : List ℕ) (u : Bool) (n : Next)
    → NextOk s u n
    → 2 * length (c ∷ cs) + weight s < suc fuel
    → ((s' : StateType) (cs' : List ℕ) → 2 * length cs' + weight s' < fuel → Ends fuel s' text' cs')
    → (tok : Token) × (((elim n [
      | go s' ↦ token_loop fuel s' text' (if u then c ∷ cs else cs)
      | done k ↦ some (finish k text' (if u then c ∷ cs else cs))
    ])
          ≡ some tok)
        × Reaches s (c ∷ cs) tok)
unfolding NextOk Ends Reaches
after_lem fuel s text' c cs u (go s') ok h ih =
    let (tok, (e, r)) =
      ih s' (if u then c ∷ cs else cs) (omega (arith, turn_length u c cs, ok.0)) in
    (tok, (e, carried s s' c cs u tok (ok.1) r))
after_lem fuel s text' c cs u (done k) ok h ih =
    (finish k text' (if u then c ∷ cs else cs), (refl, inr (omega (arith, turn_length u c cs))))

loop_lem :
    (fuel : ℕ) (s : StateType) (text cs : List ℕ)
    → 2 * length cs + weight s < fuel
    → Ends fuel s text cs
unfolding token_loop turn_eof Ends Reaches weight slack NextOk TurnOk
loop_lem zero s text cs h = absurd (omega arith)
loop_lem (suc fuel) start text [] h = (finish endfile text [], (refl, inl (refl, refl)))
loop_lem (suc fuel) incomment text [] h = (finish endfile text [], (refl, inl (refl, refl)))
loop_lem (suc fuel) incomment_ text [] h = loop_lem fuel incomment text [] (omega arith)
loop_lem (suc fuel) inover text [] h = (finish over text [], (refl, inr (omega arith)))
loop_lem (suc fuel) ineq text [] h = (finish assign text [], (refl, inr (omega arith)))
loop_lem (suc fuel) inlt text [] h = (finish lt text [], (refl, inr (omega arith)))
loop_lem (suc fuel) ingt text [] h = (finish gt text [], (refl, inr (omega arith)))
loop_lem (suc fuel) inne text [] h = (finish error text [], (refl, inr (omega arith)))
loop_lem (suc fuel) innum text [] h = (finish num text [], (refl, inr (omega arith)))
loop_lem (suc fuel) inid text [] h = (finish id text [], (refl, inr (omega arith)))
loop_lem (suc fuel) s text (c ∷ cs) h =
    let t = turn s c in
    after_lem fuel s (save_char t.save (shorten t.back text) c) c cs t.unget t.next (turn_lem s c) h
      (λ s' cs'. loop_lem fuel s' (save_char t.save (shorten t.back text) c) cs')

from_start :
    (cs : List ℕ) (tok : Token)
    → Reaches start cs tok
    → ((tok.token ≡ endfile) × (tok.rest ≡ [])) ⊎ (length tok.rest < length cs)
unfolding Reaches slack
from_start cs tok (inl e) = inl e
from_start cs tok (inr l) = inr (omega arith)

-- `getToken` returns: with `ENDFILE` and the whole source read, or with a token that has used at
-- least one character.
pub get_token-progress :
    (cs : List ℕ)
    → (tok : Token) × ((get_token cs ≡ some tok)
        × (((tok.token ≡ endfile) × (tok.rest ≡ [])) ⊎ (length tok.rest < length cs)))
unfolding get_token Ends weight
get_token-progress cs =
    let (tok, (e, r)) = loop_lem (2 * length cs + 2) start [] cs (omega arith) in
    (tok, (e, from_start cs tok r))
