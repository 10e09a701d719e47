-- ===== src/Kernel/Fs/Inodes/Disk.antt =====
-- iupdate and ilock of xv6-public/fs.c: what is written of an inode is read again.
use c_s_e_hanyang.Base.{
  ℕ, zero, suc, ◌+◌, ◌-◌, ◌*◌, ◌/◌, ◌%◌, ◌≤◌, ◌<◌, ◌≡◌, ◌≢◌, refl, ap, ◌∙◌, true, false, ◌&&◌, List,
  [], ◌∷◌, ◌==◌, if◌then◌else◌, get_or, length, u32_mod, arith, Bool-cases, none, some, inl, inr,
}
use c_s_e_hanyang.Kernel.Fs.{Fs, byte_at, inode_block}
use c_s_e_hanyang.Kernel.Fs.Bmap.{Inode, word, byte_of, ndirect}
use c_s_e_hanyang.Kernel.Fs.Bmap.Words.{digits_lem}
use c_s_e_hanyang.Kernel.Fs.Inodes.{dinode_word, iupdate, words, read_inode, typed, ilock}

-- The fields fit their C types.
pub record IsInode (ip : Inode) : Type 0 where
  pub type_fits : ip.type < 65536
  pub major_fits : ip.major < 65536
  pub minor_fits : ip.minor < 65536
  pub nlink_fits : ip.nlink < 65536
  pub size_fits : ip.size < u32_mod
  pub tops : length ip.addrs ≡ ndirect + 2
  pub addrs_fit : (k : ℕ) → get_or ip.addrs k 0 < u32_mod

dinode_word-fits : (ip : Inode) (w : ℕ) → IsInode ip → dinode_word ip w < u32_mod
unfolding dinode_word
dinode_word-fits ip w f =
    ground (
      arith,
      f.type_fits,
      f.major_fits,
      f.minor_fits,
      f.nlink_fits,
      f.size_fits,
      f.addrs_fit (w - 3),
    )

iupdate-byte :
    (ip : Inode) (s : Fs) (c r w k x : ℕ)
    → k < 4
    → w < 16
    → x ≡ 4 * (16 * r + w) + k
    → byte_at (iupdate ip s) c x ≡ (
        if (c == inode_block s ip.inum) && (r == ip.inum % 8)
        then byte_of (dinode_word ip w) k
        else byte_at s c x)
unfolding iupdate
iupdate-byte ip s c r w k x hk hw e =
    let q : x / 64 ≡ r = omega arith in
    let v : x % 64 / 4 ≡ w = omega arith in
    let u : x % 4 ≡ k = omega arith in rw (q, v, u) (ground arith)

iupdate-word :
    (ip : Inode) (s : Fs) (c r w : ℕ)
    → IsInode ip
    → w < 16
    → word (iupdate ip s) c (16 * r + w) ≡ (
        if (c == inode_block s ip.inum) && (r == ip.inum % 8)
        then dinode_word ip w
        else word s c (16 * r + w))
unfolding word
iupdate-word ip s c r w f hw =
    rw
      (
        iupdate-byte ip s c r w 0 (4 * (16 * r + w)) (omega arith) hw (omega arith),
        iupdate-byte ip s c r w 1 (4 * (16 * r + w) + 1) (omega arith) hw refl,
        iupdate-byte ip s c r w 2 (4 * (16 * r + w) + 2) (omega arith) hw refl,
        iupdate-byte ip s c r w 3 (4 * (16 * r + w) + 3) (omega arith) hw refl,
      )
      (elim (Bool-cases ((c == inode_block s ip.inum) && (r == ip.inum % 8))) [
        | inl e ↦ rw e (digits_lem (dinode_word ip w) (dinode_word-fits ip w f))
        | inr e ↦ rw e refl
      ])

words-eq :
    (s : Fs) (b i n : ℕ) (xs : List ℕ)
    → length xs ≡ n
    → ((k j : ℕ) → k < n → j ≡ i + k → word s b j ≡ get_or xs k 0)
    → words s b i n ≡ xs
unfolding words
words-eq s b i zero [] e h = refl
words-eq s b i zero (x ∷ xs) e h = absurd (omega arith)
words-eq s b i (suc n) [] e h = absurd (omega arith)
words-eq s b i (suc n) (x ∷ xs) e h =
    let first : word s b i ≡ x = h 0 i (omega arith) (omega arith) in
    rw
      (
        first,
        words-eq s b (suc i) n xs (omega arith)
            (λ k j lt q. h (suc k) j (omega arith) (omega arith)),
      )
      refl

words-ext :
    (s t : Fs) (b i n : ℕ)
    → ((j : ℕ) → i ≤ j → j < i + n → word s b j ≡ word t b j)
    → words s b i n ≡ words t b i n
unfolding words
words-ext s t b i zero h = refl
words-ext s t b i (suc n) h =
    let first : word s b i ≡ word t b i = h i (omega arith) (omega arith) in
    rw (first, words-ext s t b (suc i) n (λ j le lt. h j (omega arith) (omega arith))) refl

-- `jp` with the fields that are on the disk from `ip`.
unfoldable pub with_fields : Inode → Inode → Inode
with_fields ip jp = record jp {
  valid = true;
  type = ip.type;
  major = ip.major;
  minor = ip.minor;
  nlink = ip.nlink;
  size = ip.size;
  addrs = ip.addrs;
}

module _ (ip jp : Inode) (s : Fs) (f : IsInode ip) where
  abbrev b : ℕ
  b = inode_block s jp.inum

  abbrev at : ℕ
  at = 16 * (jp.inum % 8)

  same-word :
      jp.inum ≡ ip.inum
      → (w j : ℕ) → w < 16
      → j ≡ at + w
      → word (iupdate ip s) b j ≡ dinode_word ip w
  same-word e w j lt q =
      ap (word (iupdate ip s) b) q ∙ iupdate-word ip s b (jp.inum % 8) w f lt ∙ ground arith

  other-word :
      jp.inum ≢ ip.inum → (w j : ℕ) → w < 16 → j ≡ at + w → word (iupdate ip s) b j ≡ word s b j
  other-word ne w j lt q =
      ap (word (iupdate ip s) b) q ∙ iupdate-word ip s b (jp.inum % 8) w f lt ∙ ground arith

  same-addrs : jp.inum ≡ ip.inum → words (iupdate ip s) b (at + 3) 13 ≡ ip.addrs
  unfolding dinode_word
  same-addrs e =
      words-eq (iupdate ip s) b (at + 3) 13 ip.addrs f.tops
        (λ k j lt q. same-word e (3 + k) j (omega arith) (omega arith) ∙ ground arith)

  other-addrs : jp.inum ≢ ip.inum → words (iupdate ip s) b (at + 3) 13 ≡ words s b (at + 3) 13
  other-addrs ne =
      words-ext (iupdate ip s) s b (at + 3) 13
        (λ j le lt. other-word ne (j - at) j (omega arith) (omega arith))

  same_block : inode_block (iupdate ip s) jp.inum ≡ b
  unfolding iupdate
  same_block = refl

  read-same : jp.inum ≡ ip.inum → read_inode jp (iupdate ip s) ≡ with_fields ip jp
  unfolding read_inode dinode_word with_fields
  read-same e =
      let w0 : word (iupdate ip s) b at ≡ dinode_word ip 0 =
        same-word e 0 at (omega arith) (omega arith) in
      let t : word (iupdate ip s) b at % 65536 ≡ ip.type =
        ground (arith, f.type_fits, f.major_fits) in
      let u : word (iupdate ip s) b at / 65536 ≡ ip.major =
        ground (arith, f.type_fits, f.major_fits) in
      let w1 = same-word e 1 (at + 1) (omega arith) refl in
      let v : word (iupdate ip s) b (at + 1) % 65536 ≡ ip.minor =
        ground (arith, f.minor_fits, f.nlink_fits) in
      let n : word (iupdate ip s) b (at + 1) / 65536 ≡ ip.nlink =
        ground (arith, f.minor_fits, f.nlink_fits) in
      let z : word (iupdate ip s) b (at + 2) ≡ ip.size =
        same-word e 2 (at + 2) (omega arith) refl in
      rw (same_block, t, u, v, n, z, same-addrs e) refl

  read-other : jp.inum ≢ ip.inum → read_inode jp (iupdate ip s) ≡ read_inode jp s
  unfolding read_inode
  read-other ne =
      let w0 : word (iupdate ip s) b at ≡ word s b at =
        other-word ne 0 at (omega arith) (omega arith) in
      rw
        (
          same_block,
          w0,
          other-word ne 1 (at + 1) (omega arith) refl,
          other-word ne 2 (at + 2) (omega arith) refl,
          other-addrs ne,
        )
        refl

-- After an inode has been written, a lock of an entry for the same inode that has not been read yet
-- gets all the fields written; it panics exactly if the type is 0, which marks a free inode. A lock of
-- any other entry does what it did before.
pub ilock-iupdate :
    (ip jp : Inode) (s : Fs)
    → IsInode ip
    → 0 < jp.ref
    → jp.valid ≡ false
    → ilock jp (iupdate ip s) ≡ (
        if jp.inum == ip.inum
        then (if ip.type == 0 then none else some (with_fields ip jp))
        else ilock jp s)
unfolding ilock
ilock-iupdate ip jp s f r v = elim (Bool-cases (jp.inum == ip.inum)) [
  | inl e ↦
      let x = read-same ip jp s f (ground arith) in
      rw (e, v, x) (unfold typed with_fields in ground arith)
  | inr e ↦ rw e (
      ap (λ i. if jp.ref == 0 then none else (if jp.valid then some jp else typed i))
        (read-other ip jp s f (ground arith)))
]
