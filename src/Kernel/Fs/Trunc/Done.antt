-- ===== src/Kernel/Fs/Trunc/Done.antt =====
-- itrunc of xv6-public/fs.c as a whole.
use c_s_e_hanyang.Base.{
  ℕ, ◌+◌, ◌/◌, ◌<◌, ◌≡◌, ◌≢◌, refl, ap, sym, ◌∙◌, true, false, not, arith, some, ◌>>=◌,
}
use c_s_e_hanyang.Kernel.Fs.{Fs, bitmap_block, inode_block, is_clear}
use c_s_e_hanyang.Kernel.Fs.Blocks.{used}
use c_s_e_hanyang.Kernel.Fs.Bmap.{Inode, ndirect, nindirect}
use c_s_e_hanyang.Kernel.Fs.Bmap.Places.{
  Place, top, slot, table, cell, IsPlace, same_place, addr, through, IsMapped, strip,
}
use c_s_e_hanyang.Kernel.Fs.Inodes.{iupdate}
use c_s_e_hanyang.Kernel.Fs.Content.Size.{HasInode, sized, addr-sized}
use c_s_e_hanyang.Kernel.Fs.Trunc.{free_direct, free_indirect, free_double, finish, itrunc}
use c_s_e_hanyang.Kernel.Fs.Trunc.Freeing.{Freeing, Freeing-start, Freeing-ext}
use c_s_e_hanyang.Kernel.Fs.Trunc.Loops.{stage, Cleared, free_direct-Freeing}
use c_s_e_hanyang.Kernel.Fs.Trunc.Parts.{indirect-Freeing, double-Freeing}

-- What itrunc leaves.
pub record Truncated (ip : Inode) (s : Fs) (ip' : Inode) (s' : Fs) : Type 0 where
  pub no_size : ip'.size ≡ 0
  pub empty : (q : Place) → IsPlace q → addr ip' s' q ≡ 0
  pub freed :
      (q : Place)
      → IsPlace q
      → same_place q (top (ndirect + 1)) ≡ false
      → addr ip s q ≢ 0
      → used s' (addr ip s q) ≡ false
  pub leaked : addr ip s (top (ndirect + 1)) ≢ 0 → used s' (addr ip s (top (ndirect + 1))) ≡ true
  pub others :
      (c : ℕ)
      → c < s.sb.size
      → ((p : Place) → IsPlace p → addr ip s p ≢ 0 → addr ip s p ≢ c)
      → used s' c ≡ used s c
  pub same_ip : strip (sized 0 ip') ≡ strip (sized 0 ip)
  pub same_sb : s'.sb ≡ s.sb

stage_none : (q : Place) → false ≡ stage 0 0 0 0 q
stage_none (top k) = ground arith
stage_none (slot k) = ground arith
stage_none (table k) = ground arith
stage_none (cell k l) = ground arith

addr_zero :
    (ip ip' : Inode) (t : Fs)
    → Cleared ip (ndirect + 2) ip'
    → (q : Place) → IsPlace q
    → addr ip' t q ≡ 0
unfolding addr through
addr_zero ip ip' t c (top k) i = c.gone k i
addr_zero ip ip' t c (slot k) i = ap (λ a. through t a k) (c.gone ndirect (omega arith))
addr_zero ip ip' t c (table k) i = ap (λ a. through t a k) (c.gone (ndirect + 1) (omega arith))
addr_zero ip ip' t c (cell k l) i =
    ap (λ a. through t (through t a k) l) (c.gone (ndirect + 1) (omega arith))

last_stage :
    (q : Place)
    → IsPlace q
    → same_place q (top (ndirect + 1)) ≡ false
    → stage (ndirect + 1) nindirect nindirect 0 q ≡ true
last_stage (top k) i ne = ground arith
last_stage (slot k) i ne = ground arith
last_stage (table k) i ne = ground arith
last_stage (cell k l) i ne = let lt = i.0 in ground arith

-- iupdate changes no bit of the free map.
iupdate-used :
    (jp : Inode) (t : Fs) (c : ℕ)
    → inode_block t jp.inum ≢ bitmap_block t c
    → used (iupdate jp t) c ≡ used t c
unfolding used is_clear iupdate
iupdate-used jp t c ne = ground arith

module _ (ip : Inode) (s : Fs) (m : IsMapped ip s) (d : HasInode ip s) (ip' : Inode) (t : Fs)
    (c : Cleared ip (ndirect + 2) ip')
    (f : Freeing ip s (stage (ndirect + 1) nindirect nindirect 0) t) where
  abbrev jp : Inode
  jp = sized 0 ip'

  used-end : (b : ℕ) → b < s.sb.size → used (iupdate jp t) b ≡ used t b
  used-end b lt =
      let n : ip'.inum ≡ ip.inum = ap (λ i. i.inum) c.same_ip in
      let e : inode_block t ip'.inum ≡ inode_block s ip.inum =
        ap (λ b. ip'.inum / 8 + b.inodestart) f.same_sb ∙ ap (λ i. i / 8 + s.sb.inodestart) n in
      let g : bitmap_block t b ≡ bitmap_block s b = ap (λ x. b / 4096 + x.bmapstart) f.same_sb in
      iupdate-used jp t b (λ z. d.no_map b lt (sym e ∙ z ∙ g))

  end : Truncated ip s jp (iupdate jp t)
  unfolding iupdate
  end = record {
    no_size = refl;
    empty = λ q i. addr-sized 0 ip' (iupdate jp t) q ∙ addr_zero ip ip' (iupdate jp t) c q i;
    freed = λ q i ne h.
        used-end (addr ip s q) ((m.owned q i h).inside) ∙ f.live q i h ∙ ap not (last_stage q i ne);
    leaked = λ h.
        used-end (addr ip s (top (ndirect + 1)))
          ((m.owned (top (ndirect + 1)) (omega arith) h).inside)
        ∙ f.live (top (ndirect + 1)) (omega arith) h;
    others = λ b lt h. used-end b lt ∙ f.others b h;
    same_ip = ap (sized 0) c.same_ip;
    same_sb = f.same_sb;
  }

itrunc_step :
    (ip : Inode) (s : Fs) (ip₁ : Inode) (s₁ : Fs) (ip₂ : Inode) (s₂ : Fs) (ip₃ : Inode) (s₃ : Fs)
    → free_direct ndirect 0 ip s ≡ some (ip₁, s₁)
    → free_indirect ip₁ s₁ ≡ some (ip₂, s₂)
    → free_double ip₂ s₂ ≡ some (ip₃, s₃)
    → itrunc ip s ≡ some (sized 0 ip₃, iupdate (sized 0 ip₃) s₃)
unfolding itrunc finish
itrunc_step ip s ip₁ s₁ ip₂ s₂ ip₃ s₃ a b c =
    ap
      (λ o. o >>= λ r.
        free_indirect (r.0) (r.1) >>= λ r. free_double (r.0) (r.1) >>= λ r. some (finish r))
      a
    ∙ ap (λ o. o >>= λ r. free_double (r.0) (r.1) >>= λ r. some (finish r)) b
    ∙ ap (λ o. o >>= λ r. some (finish r)) c

-- itrunc of an inode whose blocks are its own returns: it never frees a block twice. The size is then
-- 0 and no block number is left; every block of the inode is free, but the doubly indirect block, if
-- there was one, is still in use, though nothing refers to it. No other block's bit changes.
pub itrunc-Truncated :
    (ip : Inode) (s : Fs)
    → IsMapped ip s
    → HasInode ip s
    → (ip' : Inode) × (s' : Fs) × (itrunc ip s ≡ some (ip', s')) × Truncated ip s ip' s'
itrunc-Truncated ip s m d =
    let start : Cleared ip 0 ip = record {
      gone = λ j lt. absurd (omega arith);
      rest = λ j le. refl;
      tops = m.tops;
      same_ip = refl;
    } in
    let f =
      Freeing-ext ip s m (λ p. false) (stage 0 0 0 0) s (Freeing-start ip s m)
        (λ q i ne. stage_none q) in
    let (ip₁, s₁, a, c₁, f₁) = free_direct-Freeing ip s m ndirect 0 ip s (omega arith) start f in
    let (ip₂, s₂, b, c₂, f₂) = indirect-Freeing ip s m ip₁ s₁ c₁ f₁ in
    let (ip₃, s₃, e, c₃, f₃) = double-Freeing ip s m ip₂ s₂ c₂ f₂ in
    (
      sized 0 ip₃,
      iupdate (sized 0 ip₃) s₃,
      itrunc_step ip s ip₁ s₁ ip₂ s₂ ip₃ s₃ a b e,
      end ip s m d ip₃ s₃ c₃ f₃,
    )
