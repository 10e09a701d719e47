-- ===== src/Kernel/Fs/Content/Size.antt =====
-- The end of writei of xv6-public/fs.c, where the size grows and the inode goes to the disk; and writei
-- as a whole.
use mathlib.Core.Path.{subst}
use c_s_e_hanyang.Base.{
  ℕ, ◌+◌, ◌-◌, ◌*◌, ◌/◌, ◌%◌, ◌≤◌, ◌<◌, ◌≡◌, ◌≢◌, refl, ap, sym, ◌∙◌, true, false, ◌&&◌, ◌||◌, ltb,
  leb, ◌==◌, if◌then◌else◌, u32_mod, arith, Bool-cases, Option-cases, some_inj, inl, inr, Option,
  some,
}
use c_s_e_hanyang.Base.Int.{ℤ, pos}
use c_s_e_hanyang.Kernel.Fs.{Fs, byte_at, block_size, inode_block, bitmap_block}
use c_s_e_hanyang.Kernel.Fs.Bmap.{Inode}
use c_s_e_hanyang.Kernel.Fs.Bmap.Places.{
  Place, top, slot, table, cell, IsPlace, addr, place, strip, Owned, IsMapped, parent,
}
use c_s_e_hanyang.Kernel.Fs.Bmap.Inner.{IsPlace-parent}
use c_s_e_hanyang.Kernel.Fs.Inodes.{iupdate}
use c_s_e_hanyang.Kernel.Fs.Content.{maxfile, t_dev, write_loop, writei, grow, WriteDevice}
use c_s_e_hanyang.Kernel.Fs.Content.View.{content, place-IsData, IsData-IsPlace}
use c_s_e_hanyang.Kernel.Fs.Content.Elsewhere.{Apart, Apart-addr, Apart-IsMapped}
use c_s_e_hanyang.Kernel.Fs.Content.Turn.{Written}
use c_s_e_hanyang.Kernel.Fs.Content.Write.{write_loop-Wrote}

-- The inode is one of the disk's, and its block is not of the free map.
pub record HasInode (ip : Inode) (s : Fs) : Type 0 where
  pub number : ip.inum < s.sb.ninodes
  pub no_map : (c : ℕ) → c < s.sb.size → inode_block s ip.inum ≢ bitmap_block s c

-- The size of the inode does not matter to its blocks.
abbrev pub sized : ℕ → Inode → Inode
sized n ip = record ip { size = n }

pub addr-sized : (n : ℕ) (ip : Inode) (s : Fs) (q : Place) → addr (sized n ip) s q ≡ addr ip s q
unfolding addr
addr-sized n ip s (top k) = refl
addr-sized n ip s (slot k) = refl
addr-sized n ip s (table k) = refl
addr-sized n ip s (cell k l) = refl

sized-IsMapped : (n : ℕ) (ip : Inode) (s : Fs) → IsMapped ip s → IsMapped (sized n ip) s
sized-IsMapped n ip s m = record {
  bitmap = m.bitmap;
  inodes = m.inodes;
  bound = m.bound;
  positive = m.positive;
  boot = m.boot;
  tops = m.tops;
  owned = λ p i ne.
      let e = addr-sized n ip s p in subst (Owned s) (sym e) (m.owned p i (λ z. ne (e ∙ z)));
  injective = λ p q i j ne h.
      let e = addr-sized n ip s p in
      m.injective p q i j (λ z. ne (e ∙ z)) (sym e ∙ h ∙ addr-sized n ip s q);
}

module _ (jp ip : Inode) (s : Fs) (m : IsMapped ip s) (d : HasInode ip s)
    (same : jp.inum ≡ ip.inum) where
  update-Apart : Apart ip s (inode_block s jp.inum)
  update-Apart = record {
    no_map = λ c lt. rw same (d.no_map c lt);
    no_table = λ q i h ne.
        rw same ((m.owned (parent q) (IsPlace-parent q i) ne).no_inode ip.inum d.number);
  }

  update-away : (c j : ℕ) → c ≢ inode_block s jp.inum → (iupdate jp s).block c j ≡ s.block c j
  unfolding iupdate
  update-away c j ne = ground arith

  update-sb : (iupdate jp s).sb ≡ s.sb
  unfolding iupdate
  update-sb = refl

  pub update-addr : (q : Place) → IsPlace q → addr ip (iupdate jp s) q ≡ addr ip s q
  update-addr q i = Apart-addr ip s (iupdate jp s) _ m update-Apart update-sb update-away q i

  pub update-IsMapped : IsMapped ip (iupdate jp s)
  update-IsMapped = Apart-IsMapped ip s (iupdate jp s) _ m update-Apart update-sb update-away

  pub update-content :
      (k : ℕ) → k < maxfile * block_size → content ip (iupdate jp s) k ≡ content ip s k
  unfolding content
  update-content k lt =
      let p = place (k / block_size) in
      let i = IsData-IsPlace p (place-IsData (k / block_size) (omega arith)) in
      elim (Bool-cases (addr ip s p == 0)) [
        | inl e ↦ rw (update-addr p i, e) refl
        | inr e ↦
            let off = (m.owned p i (λ z. ground arith)).no_inode ip.inum d.number in
            let old = update-away (addr ip s p) (k % block_size) (λ z. off (rw same at z)) in
            rw (update-addr p i) (ap (λ b. if addr ip s p == 0 then 0 else b % 256) old)
      ]

pub HasInode-same :
    (ip ip' : Inode) (s s' : Fs)
    → ip'.inum ≡ ip.inum
    → s'.sb ≡ s.sb
    → HasInode ip s
    → HasInode ip' s'
HasInode-same ip ip' s s' e b d =
    let n : s'.sb.ninodes ≡ s.sb.ninodes = ap (λ b. b.ninodes) b in
    let z : s'.sb.size ≡ s.sb.size = ap (λ b. b.size) b in
    let i : inode_block s' ip'.inum ≡ inode_block s ip.inum =
      ap (λ b. ip'.inum / 8 + b.inodestart) b ∙ ap (λ i. i / 8 + s.sb.inodestart) e in
    record {
      number = omega (arith, d.number, n, e);
      no_map = λ c lt x.
          let m : bitmap_block s' c ≡ bitmap_block s c = ap (λ b. c / 4096 + b.bmapstart) b in
          d.no_map c (omega arith) (sym i ∙ x ∙ m);
    }

-- What writei leaves.
pub record Updated (ip : Inode) (s : Fs) (off n : ℕ) (src : ℕ → ℕ) (ip' : Inode) (s' : Fs)
    : Type 0 where
  pub mapped : IsMapped ip' s'
  pub bytes :
      (k : ℕ)
      → k < maxfile * block_size
      → content ip' s' k
        ≡ (if leb off k && ltb k (off + n) then src (k - off) % 256 else content ip s k)
  pub there : (k : ℕ) → off ≤ k → k < off + n → addr ip' s' (place (k / block_size)) ≢ 0
  pub new_size : ip'.size ≡ (if ltb ip.size (off + n) then off + n else ip.size)
  pub same_ip : strip (sized 0 ip') ≡ strip (sized 0 ip)
  pub same_sb : s'.sb ≡ s.sb

module _ (ip : Inode) (s : Fs) (off n : ℕ) (src : ℕ → ℕ) (d : HasInode ip s) (le : off ≤ ip.size)
    (ip' : Inode) (s' : Fs) (w : Written ip s off n src ip' s') where
  size_eq : ip'.size ≡ ip.size
  size_eq = ap (λ i. i.size) w.same_ip

  unsized : strip (sized 0 ip') ≡ strip (sized 0 ip)
  unsized = ap (sized 0) w.same_ip

  kept-Updated : ltb 0 n && ltb ip'.size (off + n) ≡ false → Updated ip s off n src ip' s'
  kept-Updated e = record {
    mapped = w.mapped;
    bytes = w.bytes;
    there = w.there;
    new_size = ground (arith, size_eq);
    same_ip = unsized;
    same_sb = w.same_sb;
  }

  abbrev grown : Inode
  grown = sized (off + n) ip'

  own : HasInode ip' s'
  own = HasInode-same ip ip' s s' (ap (λ i. i.inum) w.same_ip) w.same_sb d

  sized-content : (m : ℕ) (i : Inode) (t : Fs) (k : ℕ) → content (sized m i) t k ≡ content i t k
  unfolding content
  sized-content m i t k =
      ap (λ b. if b == 0 then 0 else byte_at t b (k % block_size))
        (addr-sized m i t (place (k / block_size)))

  grown-Updated :
      ltb 0 n && ltb ip'.size (off + n) ≡ true
      → off + n ≤ maxfile * block_size
      → Updated ip s off n src grown (iupdate grown s')
  grown-Updated e fits = record {
    mapped = sized-IsMapped (off + n) ip' _ (update-IsMapped grown ip' s' w.mapped own refl);
    bytes = λ k lt.
        sized-content (off + n) ip' (iupdate grown s') k
        ∙ update-content grown ip' s' w.mapped own refl k lt
        ∙ w.bytes k lt;
    there = λ k le lt z.
        let i =
          IsData-IsPlace (place (k / block_size)) (place-IsData (k / block_size) (omega arith)) in
        w.there k le lt (
          sym (update-addr grown ip' s' w.mapped own refl (place (k / block_size)) i)
          ∙ sym (addr-sized (off + n) ip' (iupdate grown s') (place (k / block_size)))
          ∙ z);
    new_size = ground (arith, size_eq);
    same_ip = unsized;
    same_sb = update-sb grown ip' s' w.mapped own refl ∙ w.same_sb;
  }

  grow-Updated :
      (g : Inode × Fs)
      → off + n ≤ maxfile * block_size
      → grow n (off + n) ip' s' ≡ g
      → Updated ip s off n src (g.0) (g.1)
  unfolding grow
  grow-Updated g fits h = elim (Bool-cases (ltb 0 n && ltb ip'.size (off + n))) [
    | inl e ↦ subst (λ g. Updated ip s off n src (g.0) (g.1)) (rw e at h) (grown-Updated e fits)
    | inr e ↦ subst (λ g. Updated ip s off n src (g.0) (g.1)) (rw e at h) (kept-Updated e)
  ]

module _ (devsw : ℕ → Option WriteDevice) (ip : Inode) (src : ℕ → ℕ) (off n : ℕ) (s : Fs)
    (r : ℤ × Inode × Fs) where
  writei-loop :
      ip.type ≢ t_dev
      → off ≤ ip.size
      → off + n ≤ maxfile * block_size
      → writei devsw ip src off n s ≡ some r
      → (w : ℕ × Inode × Fs) × (write_loop n ip src off n s ≡ some w)
        × ((pos n, (grow n (w.0) (w.1) (w.2)).0, (grow n (w.0) (w.1) (w.2)).1) ≡ r)
  unfolding writei
  writei-loop nd le fits h =
      let t0 : (ip.type == t_dev) ≡ false = ground arith in
      let wrap : (off + n) % u32_mod ≡ off + n = omega arith in
      let t1 : (ltb ip.size off || ltb (off + n) off) ≡ false = ground arith in
      let t2 : ltb (maxfile * block_size) (off + n) ≡ false = ground arith in
      let g = rw (t0, wrap, t1, t2) at h in
      elim (Option-cases (write_loop n ip src off n s)) [
        | inl o ↦ absurd (ground arith)
        | inr (w, o) ↦ (w, o, some_inj (rw o at g))
      ]

-- writei within the largest file, from an offset that is not past the end, on an inode whose blocks are
-- its own: if it returns, the result is `n`, the bytes of the file at `off` are those given, and every
-- other byte is as it was. The size is then at least `off + n`. The blocks are the inode's own still,
-- and those written are there.
pub writei-Updated :
    (devsw : ℕ → Option WriteDevice) (ip : Inode) (src : ℕ → ℕ) (off n : ℕ) (s : Fs)
    (r : ℤ × Inode × Fs)
    → IsMapped ip s
    → HasInode ip s
    → ip.type ≢ t_dev
    → off ≤ ip.size
    → off + n ≤ maxfile * block_size
    → writei devsw ip src off n s ≡ some r
    → (r.0 ≡ pos n) × Updated ip s off n src (r.1) (r.2)
writei-Updated devsw ip src off n s r m d nd le fits h =
    let (w, o, e) = writei-loop devsw ip src off n s r nd le fits h in
    let (z, wr) = write_loop-Wrote n ip src off n s w m fits o in
    let g =
      grow-Updated ip s off n src d le (w.1) (w.2) wr (r.1, r.2) fits
        (ap (λ x. grow n x (w.1) (w.2)) (sym z) ∙ ap (λ x. (x.1, x.2)) e) in
    (sym (ap (λ x. x.0) e), g)
