-- ===== src/Kernel/Fs/Bits.antt =====
-- The bits of a byte: what setting and clearing one leaves of each.
use Prim.Native.Nat.{bit_and, bit_or}
use c_s_e_hanyang.Base.{
  table, table_entry, ℕ, ◌-◌, ◌%◌, ◌^◌, ◌<◌, ◌≡◌, refl, Bool, true, false, not, ◌&&◌, ◌||◌, ◌==◌,
  arith,
}

abbrev pub bit : ℕ → ℕ → Bool
bit byte k = not (bit_and byte (2 ^ k) == 0)

same : Bool → Bool → Bool
same true b = b
same false b = not b

same_eq : (a b : Bool) → same a b ≡ true → a ≡ b
unfolding same
same_eq true b h = ground arith
same_eq false b h = ground arith

set_law : ℕ → ℕ → ℕ → Bool
set_law k j x = same (bit (bit_or x (2 ^ k) % 256) j) ((j == k) || bit x j)

clear_law : ℕ → ℕ → ℕ → Bool
clear_law k j x = same (bit (bit_and x (255 - 2 ^ k) % 256) j) (not (j == k) && bit x j)

-- For bits `k` and `j`, both laws of each byte.
byte_laws : ℕ → ℕ → Bool
byte_laws k j = table (λ x. set_law k j x && clear_law k j x) 256

bits_table : table (λ k. table (byte_laws k) 8) 8 ≡ true
unfolding byte_laws set_law clear_law same
bits_table = refl

laws : (k j x : ℕ) → k < 8 → j < 8 → x < 256 → (set_law k j x && clear_law k j x) ≡ true
unfolding byte_laws
laws k j x hk hj hx =
    table_entry (λ x'. set_law k j x' && clear_law k j x') 256 x hx
      (table_entry (byte_laws k) 8 j hj
        (table_entry (λ k'. table (byte_laws k') 8) 8 k hk bits_table))

pub bit-or :
    (k j x : ℕ) → k < 8 → j < 8 → x < 256 → bit (bit_or x (2 ^ k) % 256) j ≡ ((j == k) || bit x j)
bit-or k j x hk hj hx = same_eq _ _ (unfold set_law in ground (arith, laws k j x hk hj hx))

pub bit-and :
    (k j x : ℕ)
    → k < 8
    → j < 8
    → x < 256
    → bit (bit_and x (255 - 2 ^ k) % 256) j ≡ (not (j == k) && bit x j)
bit-and k j x hk hj hx = same_eq _ _ (unfold clear_law in ground (arith, laws k j x hk hj hx))
