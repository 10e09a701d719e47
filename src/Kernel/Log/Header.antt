-- ===== src/Kernel/Log/Header.antt =====
-- The header block of the log of xv6-public/log.c: what write_head stores, read_head finds.
use c_s_e_hanyang.Base.{
  ℕ, zero, suc, ◌+◌, ◌≤◌, ◌<◌, ◌≡◌, refl, ◌∙◌, List, [], ◌∷◌, length, get_or, set, take, drop,
  length-set, get_or-set_self, get_or-set_ne, arith,
}
use c_s_e_hanyang.Kernel.Log.{Block, put_words, put_head, read_head}

length-put_words : (i : ℕ) (ws : List ℕ) (blk : Block) → length (put_words i ws blk) ≡ length blk
unfolding put_words
length-put_words i [] blk = refl
length-put_words i (w ∷ ws) blk = length-put_words (suc i) ws (set blk i w) ∙ length-set blk i w

get_or-put_words_lt :
    (i j : ℕ) (ws : List ℕ) (blk : Block) → j < i → get_or (put_words i ws blk) j 0 ≡ get_or blk j 0
unfolding put_words
get_or-put_words_lt i j [] blk h = refl
get_or-put_words_lt i j (w ∷ ws) blk h =
    get_or-put_words_lt (suc i) j ws (set blk i w) (omega arith)
    ∙ get_or-set_ne blk i j w 0 (omega arith)

drop-step : (i : ℕ) (blk : Block) → i < length blk → drop i blk ≡ get_or blk i 0 ∷ drop (suc i) blk
drop-step i [] h = elim h [ ]
drop-step zero (x ∷ xs) h = refl
drop-step (suc i) (x ∷ xs) h = drop-step i xs (omega arith)

take-put_words :
    (i : ℕ) (ws : List ℕ) (blk : Block)
    → i + length ws ≤ length blk
    → take (length ws) (drop i (put_words i ws blk)) ≡ ws
unfolding put_words
take-put_words i [] blk h = refl
take-put_words i (w ∷ ws) blk h =
    let after : Block = put_words (suc i) ws (set blk i w) in
    let first : get_or after i 0 ≡ w =
      get_or-put_words_lt (suc i) i ws (set blk i w) (omega arith)
      ∙ get_or-set_self blk i w 0 (omega arith) in
    rw (
      drop-step i after
          (omega (arith, length-put_words (suc i) ws (set blk i w), length-set blk i w)),
      first,
      take-put_words (suc i) ws (set blk i w) (omega (arith, length-set blk i w)),
    )

pub length-put_head : (lh : List ℕ) (blk : Block) → length (put_head lh blk) ≡ length blk
unfolding put_head
length-put_head lh blk =
    length-put_words 1 lh (set blk 0 (length lh)) ∙ length-set blk 0 (length lh)

-- The header that is read is the header that was written, if it fits in the block.
pub read_head-put_head :
    (lh : List ℕ) (blk : Block) → length lh < length blk → read_head (put_head lh blk) ≡ lh
unfolding read_head put_head
read_head-put_head lh blk h =
    let count : get_or (put_words 1 lh (set blk 0 (length lh))) 0 0 ≡ length lh =
      get_or-put_words_lt 1 0 lh (set blk 0 (length lh)) (omega arith)
      ∙ get_or-set_self blk 0 (length lh) 0 (omega arith) in
    rw count
      (take-put_words 1 lh (set blk 0 (length lh)) (omega (arith, length-set blk 0 (length lh))))
