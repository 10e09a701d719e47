-- ===== src/Kernel/Strings.antt =====
-- 2017_ELE3021/xv6-public/string.c: the kernel's library of memory and strings. The memory is a function
-- from addresses to bytes; a range does not wrap around the end of the address space.
pub mod Move
pub mod Fill
mod Tests
use Prim.Native.Nat.{bit_or}
use c_s_e_hanyang.Base.{
  ℕ, zero, suc, ◌+◌, ◌-◌, ◌%◌, ◌*◌, ◌/◌, Bool, true, false, not, ◌&&◌, ◌||◌, if◌then◌else◌, ltb,
  leb, ◌==◌, ◌^◌, u32_mod,
}
use c_s_e_hanyang.Base.Int.{ℤ, pos, sub_ℕ}

abbrev pub Memory : Type 0
Memory = ℕ → ℕ

-- `*a = v`
abbrev pub write : ℕ → ℕ → Memory → Memory
write a v mem = λ x. if x == a then v else mem x

-- `stosb`: `n` bytes.
unfoldable pub fill_bytes : ℕ → ℕ → ℕ → Memory → Memory
fill_bytes dst c zero mem = mem
fill_bytes dst c (suc n) mem = fill_bytes (suc dst) c n (write dst c mem)

-- A word of four bytes at `a`, the lowest first.
unfoldable pub write_word : ℕ → ℕ → Memory → Memory
write_word a w mem =
    write (a + 3) (w / 2 ^ 24 % 256)
      (write (a + 2) (w / 2 ^ 16 % 256) (write (a + 1) (w / 2 ^ 8 % 256) (write a (w % 256) mem)))

-- `stosl`: `n` words.
unfoldable pub fill_words : ℕ → ℕ → ℕ → Memory → Memory
unfolding write_word
fill_words dst w zero mem = mem
fill_words dst w (suc n) mem = fill_words (dst + 4) w n (write_word dst w mem)

-- `(c<<24)|(c<<16)|(c<<8)|c`, of 32 bits
unfoldable pub repeated : ℕ → ℕ
repeated c =
    bit_or (bit_or (bit_or (c * 2 ^ 24 % u32_mod) (c * 2 ^ 16 % u32_mod)) (c * 2 ^ 8 % u32_mod)) c

unfoldable pub memset : ℕ → ℕ → ℕ → Memory → Memory
unfolding fill_bytes fill_words repeated
memset dst c n mem =
    if (dst % 4 == 0) && (n % 4 == 0)
    then fill_words dst (repeated (c % 256)) (n / 4) mem
    else fill_bytes dst (c % 256) n mem

unfoldable pub memcmp : ℕ → ℕ → ℕ → Memory → ℤ
memcmp s1 s2 zero mem = pos 0
memcmp s1 s2 (suc n) mem =
    let later = memcmp (suc s1) (suc s2) n mem in
    if mem s1 == mem s2 then later else sub_ℕ (mem s1) (mem s2)

-- The two loops of `memmove`: the first goes down from the ends.
unfoldable pub copy_down : ℕ → ℕ → ℕ → Memory → Memory
copy_down d s zero mem = mem
copy_down d s (suc n) mem = copy_down d s n (write (d + n) (mem (s + n)) mem)

unfoldable pub copy_up : ℕ → ℕ → ℕ → Memory → Memory
copy_up d s zero mem = mem
copy_up d s (suc n) mem = copy_up (suc d) (suc s) n (write d (mem s) mem)

unfoldable pub memmove : ℕ → ℕ → ℕ → Memory → Memory
unfolding copy_down copy_up
memmove dst src n mem =
    if ltb src dst && ltb dst (src + n) then copy_down dst src n mem else copy_up dst src n mem

abbrev pub memcpy : ℕ → ℕ → ℕ → Memory → Memory
unfolding memmove
memcpy dst src n mem = memmove dst src n mem

unfoldable pub strncmp : ℕ → ℕ → ℕ → Memory → ℤ
strncmp p q zero mem = pos 0
strncmp p q (suc n) mem =
    let later = strncmp (suc p) (suc q) n mem in
    if not (mem p == 0) && (mem p == mem q) then later else sub_ℕ (mem p) (mem q)

-- The second loop of `strncpy`.
unfoldable pub pad : ℕ → ℕ → Memory → Memory
pad s zero mem = mem
pad s (suc n) mem = pad (suc s) n (write s 0 mem)

unfoldable pub strncpy : ℕ → ℕ → ℕ → Memory → Memory
unfolding pad
strncpy s t zero mem = mem
strncpy s t (suc n) mem =
    let mem' : Memory = write s (mem t) mem in
    let more = strncpy (suc s) (suc t) n mem' in if mem t == 0 then pad (suc s) n mem' else more

-- `safestrcpy` with `n` more bytes to go, one of them for the terminator.
unfoldable pub safestrcpy_loop : ℕ → ℕ → ℕ → Memory → Memory
safestrcpy_loop s t zero mem = write s 0 mem
safestrcpy_loop s t (suc n) mem =
    let mem' : Memory = write s (mem t) mem in
    let more = safestrcpy_loop (suc s) (suc t) n mem' in
    if mem t == 0 then write (suc s) 0 mem' else more

unfoldable pub safestrcpy : ℕ → ℕ → ℕ → Memory → Memory
unfolding safestrcpy_loop
safestrcpy s t zero mem = mem
safestrcpy s t (suc n) mem = safestrcpy_loop s t n mem
