-- ===== src/Kernel/Fs/Names/Tests.antt =====
-- The examples in the comment of skipelem.
use c_s_e_hanyang.Base.{ℕ, ◌≡◌, refl, List, [], ◌∷◌, ◌⊎◌, replicate, none, some}
use c_s_e_hanyang.Kernel.Fs.Names.{skip_slashes, element, after, copy_name, named, skipelem}
use c_s_e_hanyang.Kernel.Fs.Names.Elements.{elements, Skipped, skipelem-Skipped}

-- "///a//bb"
abbrev slashes_a_bb : List ℕ
slashes_a_bb = 47 ∷ 47 ∷ 47 ∷ 97 ∷ 47 ∷ 47 ∷ 98 ∷ 98 ∷ []

abbrev buffer : List ℕ
buffer = replicate 14 1

skipelem_a_bb : skipelem slashes_a_bb buffer ≡ some (98 ∷ 98 ∷ [], 97 ∷ 0 ∷ replicate 12 1)
unfolding skipelem named skip_slashes element after copy_name
skipelem_a_bb = refl

skipelem_slashes : skipelem (47 ∷ 47 ∷ []) buffer ≡ none
unfolding skipelem named skip_slashes
skipelem_slashes = refl

skipelem-Skipped_example :
    ((skipelem slashes_a_bb buffer ≡ none) × (elements slashes_a_bb ≡ []))
    ⊎ ((e : List ℕ) × (rest : List ℕ) × Skipped slashes_a_bb buffer e rest)
skipelem-Skipped_example = skipelem-Skipped slashes_a_bb buffer refl
