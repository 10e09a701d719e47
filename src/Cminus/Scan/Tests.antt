-- ===== src/Cminus/Scan/Tests.antt =====
-- Runs of the scanner and the instances of its theorems.
use c_s_e_hanyang.Base.{ℕ, ◌+◌, ◌<◌, ◌⊎◌, ◌≤◌, List, [], ◌∷◌, ◌≡◌, refl, some, length, replicate}
use c_s_e_hanyang.Cminus.Scan.{Token, if_token, le, num, endfile, get_token, max_token_len}
use c_s_e_hanyang.Cminus.Scan.Progress.{get_token-progress}
use c_s_e_hanyang.Cminus.Scan.Text.{get_token-text}

-- "/* * */ if(" and "<=1"
abbrev if_source : List ℕ
if_source = b'/' ∷ b'*' ∷ b' ' ∷ b'*' ∷ b' ' ∷ b'*' ∷ b'/' ∷ b' ' ∷ b'i' ∷ b'f' ∷ b'(' ∷ []

abbrev if_result : Token
if_result = record { token = if_token; text = b'i' ∷ b'f' ∷ []; rest = b'(' ∷ [] }

scan_if : get_token if_source ≡ some if_result
unfolding get_token
scan_if = refl

scan_le :
    get_token (b'<' ∷ b'=' ∷ b'1' ∷ [])
    ≡ some (record { token = le; text = b'<' ∷ b'=' ∷ []; rest = b'1' ∷ [] })
unfolding get_token
scan_le = refl

-- Of 45 digits 41 are kept, and the terminator is written behind them.
scan_long :
    get_token (replicate {A = ℕ} 45 b'7')
    ≡ some (record { token = num; text = replicate 41 b'7'; rest = [] })
unfolding get_token
scan_long = refl

get_token-text_example : length if_result.text ≤ max_token_len + 1
get_token-text_example = get_token-text if_source if_result scan_if

get_token-progress_example :
    (tok : Token) × ((get_token if_source ≡ some tok)
      × (((tok.token ≡ endfile) × (tok.rest ≡ [])) ⊎ (length tok.rest < length if_source)))
get_token-progress_example = get_token-progress if_source
