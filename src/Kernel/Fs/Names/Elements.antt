-- ===== src/Kernel/Fs/Names/Elements.antt =====
-- skipelem of xv6-public/fs.c against the list of a path's elements.
use mathlib.Core.Path.{subst}
use c_s_e_hanyang.Base.{
  ℕ, ◌≤◌, ◌<◌, ◌≡◌, ◌≢◌, refl, ap, sym, ◌∙◌, true, false, List, [], ◌∷◌, ◌++◌, append_assoc,
  append-nil, ◌==◌, if◌then◌else◌, length, arith, Bool-cases, none, some, ◌⊎◌, inl, inr,
}
use c_s_e_hanyang.Kernel.Fs.Names.Buffer.{Copied, copy_name-Copied}
use c_s_e_hanyang.Kernel.Fs.Names.{
  dirsiz, slash, skip_slashes, element, after, copy_name, named, skipelem,
}

-- The parts of a path between slashes that are not empty. `part` is what has been read of one.
add_part : List ℕ → List (List ℕ) → List (List ℕ)
add_part [] parts = parts
add_part (c ∷ cs) parts = (c ∷ cs) ∷ parts

split : List ℕ → List ℕ → List (List ℕ)
unfolding add_part
split part [] = add_part part []
split part (c ∷ cs) =
    let here = split [] cs in
    let longer = split (part ++ c ∷ []) cs in if c == slash then add_part part here else longer

pub elements : List ℕ → List (List ℕ)
elements path = split [] path

module _ (c : ℕ) (cs : List ℕ) where
  module _ (e : (c == slash) ≡ true) where
    split-slash : (part : List ℕ) → split part (c ∷ cs) ≡ add_part part (split [] cs)
    unfolding split
    split-slash part = rw e refl

    skip-slash : skip_slashes (c ∷ cs) ≡ skip_slashes cs
    unfolding skip_slashes
    skip-slash = rw e refl

    element-slash : element (c ∷ cs) ≡ []
    unfolding element
    element-slash = rw e refl

    after-slash : after (c ∷ cs) ≡ c ∷ cs
    unfolding after
    after-slash = rw e refl

  module _ (e : (c == slash) ≡ false) where
    split-other : (part : List ℕ) → split part (c ∷ cs) ≡ split (part ++ c ∷ []) cs
    unfolding split
    split-other part = rw e refl

    skip-other : skip_slashes (c ∷ cs) ≡ c ∷ cs
    unfolding skip_slashes
    skip-other = rw e refl

    element-other : element (c ∷ cs) ≡ c ∷ element cs
    unfolding element
    element-other = rw e refl

    after-other : after (c ∷ cs) ≡ after cs
    unfolding after
    after-other = rw e refl

split-skip_slashes : (path : List ℕ) → split [] (skip_slashes path) ≡ split [] path
unfolding skip_slashes add_part
split-skip_slashes [] = refl
split-skip_slashes (c ∷ cs) = elim (Bool-cases (c == slash)) [
  | inl e ↦ ap (split []) (skip-slash c cs e) ∙ split-skip_slashes cs ∙ sym (split-slash c cs e [])
  | inr e ↦ ap (split []) (skip-other c cs e)
]

split_started :
    (p : ℕ) (part path : List ℕ)
    → split (p ∷ part) path ≡ ((p ∷ part) ++ element path) ∷ split [] (after path)
unfolding add_part
split_started p part [] =
    unfold split element after in ap (λ x. (p ∷ x) ∷ []) (sym (append-nil part))
split_started p part (c ∷ cs) = elim (Bool-cases (c == slash)) [
  | inl e ↦
      split-slash c cs e (p ∷ part)
      ∙ ap (λ x. (p ∷ x) ∷ split [] cs) (sym (append-nil part))
      ∙ ap (λ x. ((p ∷ part) ++ x) ∷ split [] cs) (sym (element-slash c cs e))
      ∙ ap (λ x. ((p ∷ part) ++ element (c ∷ cs)) ∷ x)
          (sym (ap (split []) (after-slash c cs e) ∙ split-slash c cs e []))
  | inr e ↦
      split-other c cs e (p ∷ part)
      ∙ split_started p (part ++ c ∷ []) cs
      ∙ ap (λ x. (p ∷ x) ∷ split [] (after cs)) (append_assoc part (c ∷ []) (element cs))
      ∙ ap (λ x. ((p ∷ part) ++ x) ∷ split [] (after cs)) (sym (element-other c cs e))
      ∙ ap (λ x. ((p ∷ part) ++ element (c ∷ cs)) ∷ split [] x) (sym (after-other c cs e))
]

-- A path that begins with a byte of a name.
split_first :
    (c : ℕ) (cs : List ℕ)
    → (c == slash) ≡ false
    → split [] (c ∷ cs) ≡ element (c ∷ cs) ∷ split [] (after (c ∷ cs))
split_first c cs e =
    split-other c cs e []
    ∙ split_started c [] cs
    ∙ ap (λ x. x ∷ split [] (after cs)) (sym (element-other c cs e))
    ∙ ap (λ x. element (c ∷ cs) ∷ split [] x) (sym (after-other c cs e))

-- No slash in front.
abbrev pub StartsClean : List ℕ → Type 0
StartsClean [] = 0 ≤ 0
StartsClean (c ∷ cs) = c ≢ slash

skip_slashes-StartsClean : (path : List ℕ) → StartsClean (skip_slashes path)
unfolding skip_slashes
skip_slashes-StartsClean [] = omega arith
skip_slashes-StartsClean (c ∷ cs) = elim (Bool-cases (c == slash)) [
  | inl e ↦ rw e (skip_slashes-StartsClean cs)
  | inr e ↦ rw e (λ z. ground arith)
]

first_clean :
    (path : List ℕ) (c : ℕ) (cs : List ℕ) → skip_slashes path ≡ c ∷ cs → (c == slash) ≡ false
first_clean path c cs h =
    let ne : c ≢ slash = subst StartsClean h (skip_slashes-StartsClean path) in ground arith

length-skip_slashes : (path : List ℕ) → length (skip_slashes path) ≤ length path
unfolding skip_slashes
length-skip_slashes [] = omega arith
length-skip_slashes (c ∷ cs) = let r = length-skip_slashes cs in ground arith

length-after : (path : List ℕ) → length (after path) ≤ length path
unfolding after
length-after [] = omega arith
length-after (c ∷ cs) = let r = length-after cs in ground arith

-- What skipelem gives.
pub record Skipped (path name e rest : List ℕ) : Type 0 where
  pub is_next : elements path ≡ e ∷ elements rest
  pub clean : StartsClean rest
  pub shorter : length rest < length path
  pub result : (buffer : List ℕ) × (skipelem path name ≡ some (rest, buffer)) × Copied e name buffer

abbrev Outcome : List ℕ → List ℕ → Type 0
Outcome path name =
    ((skipelem path name ≡ none) × (elements path ≡ []))
    ⊎ ((e : List ℕ) × (rest : List ℕ) × Skipped path name e rest)

skipped :
    (path name trimmed : List ℕ)
    → length name ≡ dirsiz
    → skip_slashes path ≡ trimmed
    → Outcome path name
unfolding elements skipelem named split add_part
skipped path name [] sized h =
    inl (ap (λ p. named p name) h, sym (split-skip_slashes path) ∙ ap (split []) h)
skipped path name (c ∷ cs) sized h =
    let clean : (c == slash) ≡ false = first_clean path c cs h in
    let rest = skip_slashes (after (c ∷ cs)) in
    let shorter : length (after (c ∷ cs)) < length (c ∷ cs) =
      omega (arith, ap length (after-other c cs clean), length-after cs) in
    inr (
      element (c ∷ cs),
      rest,
      record {
        is_next =
            sym (split-skip_slashes path)
            ∙ ap (split []) h
            ∙ split_first c cs clean
            ∙ ap (λ x. element (c ∷ cs) ∷ x) (sym (split-skip_slashes (after (c ∷ cs))));
        clean = skip_slashes-StartsClean (after (c ∷ cs));
        shorter = omega (
          arith,
          shorter,
          length-skip_slashes (after (c ∷ cs)),
          length-skip_slashes path,
          ap length h,
        );
        result = (
          copy_name (element (c ∷ cs)) name,
          ap (λ p. named p name) h,
          copy_name-Copied (element (c ∷ cs)) name sized,
        );
      },
    )

-- skipelem, with a buffer of DIRSIZ bytes, returns the null pointer exactly if the path has no element
-- left. Else the buffer gets the first DIRSIZ bytes of the first element, with a terminator and its old
-- bytes behind that if the element is shorter; and the path that is returned has the elements behind
-- it, begins with no slash, and is shorter.
pub skipelem-Skipped :
    (path name : List ℕ)
    → length name ≡ dirsiz
    → ((skipelem path name ≡ none) × (elements path ≡ []))
      ⊎ ((e : List ℕ) × (rest : List ℕ) × Skipped path name e rest)
skipelem-Skipped path name sized = skipped path name (skip_slashes path) sized refl
