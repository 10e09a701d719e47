-- ===== src/Kernel/Proc/Grow.antt =====
-- growproc of xv6-public/proc.c: whose size it changes.
use c_s_e_hanyang.Base.{
  ℕ, zero, suc, ◌≡◌, ◌<◌, ◌≢◌, refl, ◌&&◌, not, List, [], ◌∷◌, map, some, ◌==◌, if◌then◌else◌,
  length, arith, inl, inr, Bool-cases, ==_refl,
}
use c_s_e_hanyang.Kernel.Proc.{Proc, Kernel, is_child}
use c_s_e_hanyang.Kernel.Proc.Table.{slot, modify, resize, growproc}
use c_s_e_hanyang.Kernel.Proc.Pids.{at}
use c_s_e_hanyang.Kernel.Proc.Family.{at-modify_ne}
use c_s_e_hanyang.Kernel.Proc.Calls.{at-modify_self, length-modify}

map-at : (f : Proc → Proc) (ps : List Proc) (i : ℕ) → i < length ps → at (map f ps) i ≡ f (at ps i)
map-at f [] i h = elim h [ ]
map-at f (p ∷ ps) zero h = refl
map-at f (p ∷ ps) (suc i) h = map-at f ps i (omega arith)

-- When the caller's memory has changed size, growproc gives the new size to the caller, to every
-- thread, and to every process that is not the caller's child; only child processes keep theirs.
pub growproc-sz :
    (me sz : ℕ) (k : Kernel) (i : ℕ)
    → i < length k.procs
    → me < length k.procs
    → 0 < sz
    → (slot (growproc me (some sz) k).1 i).sz ≡ (
        if is_child me (slot k i) && not (slot k i).is_thread && not (i == me)
        then (slot k i).sz
        else sz)
unfolding growproc resize
growproc-sz me zero k i inside caller pos = absurd (omega arith)
growproc-sz me (suc sz) k i inside caller pos =
    let f : Proc → Proc = λ p. record p { sz = suc sz } in
    let g =
      map-at (resize me (suc sz)) (modify k.procs me f) i
        (omega (arith, length-modify f k.procs me)) in
    elim (Bool-cases (i == me)) [
      | inl e ↦
          let same : i ≡ me = ground arith in
          let h = at-modify_self f k.procs me caller in rw (g, same, h, ==_refl me) (ground arith)
      | inr e ↦
          let apart : me ≢ i = ground arith in
          rw (g, at-modify_ne f k.procs me i apart, e) (ground arith)
    ]
