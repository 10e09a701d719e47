-- ===== src/Kernel/Strings/Tests.antt =====
-- Runs of the string library and the instances of its theorems.
use c_s_e_hanyang.Base.{ℕ, ◌≤◌, ◌+◌, ◌≡◌, refl, suc, leb, ◌-◌, ◌&&◌, if◌then◌else◌, ltb}
use c_s_e_hanyang.Kernel.Strings.{Memory, memmove, memset, safestrcpy, strncpy}
use c_s_e_hanyang.Kernel.Strings.Move.{memmove_lem}
use c_s_e_hanyang.Kernel.Strings.Fill.{memset-filled, safestrcpy-terminated, filled}

-- The byte at an address below 250 is the address plus 1.
abbrev ramp : Memory
ramp = λ x. if ltb x 250 then suc x else 0

-- The ranges overlap: four bytes from 1 to 3.
move_overlap : memmove 3 1 4 ramp 6 ≡ 5
unfolding memmove
move_overlap = refl

copy_name : safestrcpy 20 248 4 ramp 22 ≡ 0
unfolding safestrcpy
copy_name = refl

pad_name : strncpy 20 249 4 ramp 23 ≡ 0
unfolding strncpy
pad_name = refl

memmove_lem_example :
    memmove 3 1 4 ramp 6 ≡ (if leb 3 6 && ltb 6 (3 + 4) then ramp (1 + (6 - 3)) else ramp 6)
memmove_lem_example = memmove_lem 3 1 4 ramp 6

memset-filled_example : memset 8 257 4 ramp 11 ≡ filled 8 1 4 ramp 11
memset-filled_example = memset-filled 8 257 4 ramp 11

safestrcpy-terminated_example : (j : ℕ) × ((j ≤ 3) × (safestrcpy 20 5 4 ramp (20 + j) ≡ 0))
safestrcpy-terminated_example = safestrcpy-terminated 20 5 3 ramp
