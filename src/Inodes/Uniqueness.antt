-- ===== src/Inodes/Uniqueness.antt =====
-- What the code does to the table never makes an inode stand in it twice (fs/inode.c).
use linux_0_11_comments.Inodes.Format.{
  inode_block, get_disk_inode, write_inode, bread_inode, release_inode, read_inode,
}
use linux_0_11_comments.Inodes.Unique.{
  bind-Keeping, same-IsUnique, KeepsUnique, FirstIsUnique, option-Ensures, Ensures-any,
  elim-Ensures, Ensures-bind, Ensures, IsUnique,
}
use linux_0_11_comments.Inodes.{
  nr_super, get_super, wait_on_inode, search_supers, wait_on_super, lock_inode, node, Fs,
}
use linux_0_11_comments.Cache.{bread, brelse, Io}
use linux_0_11_comments.Common.{
  ltb, ◌==◌, if-cases, ℤ, Run, ◌>>=◌, ℕ, zero, suc, ◌+◌, refl, ◌||◌, not, Option, none, some,
}

module _ (io : Io) (away : Fs → Fs) (now : ℤ)
    (others : (f : Fs) → IsUnique f → IsUnique (away f)) where
  pub wait_on_inode-Keeping : (fuel i : ℕ) → KeepsUnique (wait_on_inode away fuel i)
  unfolding wait_on_inode
  wait_on_inode-Keeping zero i f h = tt
  wait_on_inode-Keeping (suc fuel) i f h =
      elim-Ensures IsUnique ((f.inode_table i).i_lock) _ _
        (λ e. wait_on_inode-Keeping fuel i (away f) (others f h)) (λ e. h)

  lock_inode-Keeping : (fuel i : ℕ) → KeepsUnique (lock_inode away fuel i)
  unfolding lock_inode
  lock_inode-Keeping fuel i f h =
      bind-Keeping (wait_on_inode away fuel i f) _ (wait_on_inode-Keeping fuel i f h)
        (λ v k. same-IsUnique i _ v k refl refl)

  wait_on_super-Keeping : (fuel s : ℕ) → KeepsUnique (wait_on_super away fuel s)
  unfolding wait_on_super
  wait_on_super-Keeping zero s f h = tt
  wait_on_super-Keeping (suc fuel) s f h =
      elim-Ensures IsUnique ((f.super_block s).s_lock) _ _
        (λ e. wait_on_super-Keeping fuel s (away f) (others f h)) (λ e. h)

  search_supers-Keeping :
      (fuel dev s : ℕ) (f : Fs)
      → IsUnique f
      → Ensures FirstIsUnique (search_supers away fuel dev s f)
  unfolding search_supers
  search_supers-Keeping zero dev s f h = tt
  search_supers-Keeping (suc fuel) dev s f h =
      elim-Ensures FirstIsUnique (ltb s nr_super) _ _
        (λ e.
          elim-Ensures FirstIsUnique ((f.super_block s).s_dev == dev) _ _
            (λ e.
              Ensures-bind IsUnique FirstIsUnique (wait_on_super away (suc fuel) s f) _
                (wait_on_super-Keeping (suc fuel) s f h)
                (λ v k.
                  elim-Ensures FirstIsUnique ((v.super_block s).s_dev == dev) _ _ (λ e. k)
                    (λ e. search_supers-Keeping fuel dev 0 v k)))
            (λ e. search_supers-Keeping fuel dev (s + 1) f h))
        (λ e. h)

  pub get_super-Keeping :
      (fuel dev : ℕ) (f : Fs) → IsUnique f → Ensures FirstIsUnique (get_super away fuel dev f)
  unfolding get_super
  get_super-Keeping fuel dev f h =
      if-cases (Ensures FirstIsUnique) (dev == 0) _ _ (λ e. h)
        (λ e. search_supers-Keeping fuel dev 0 f h)

  pub bread_inode-Keeping :
      (fuel i : ℕ) (s : Option ℕ) (f : Fs)
      → IsUnique f
      → Ensures FirstIsUnique (bread_inode io away fuel i s f)
  bread_inode-Keeping fuel i none f h = tt
  bread_inode-Keeping fuel i (some s) f h =
      Ensures-any FirstIsUnique
        (bread io fuel (node i f).i_dev (inode_block (f.super_block s) (node i f)) f.cache) _
        (λ r. option-Ensures FirstIsUnique r.1 _ _ tt (λ b. h))

  release_inode-Keeping : (fuel i b : ℕ) → KeepsUnique (release_inode io away fuel i b)
  release_inode-Keeping fuel i b f h =
      Ensures-any IsUnique (brelse io fuel b f.cache) _ (λ c. same-IsUnique i _ f h refl refl)

  -- The inode's super block is looked for and its block is read.
  located-Keeping :
      (fuel i : ℕ) (k : Fs × ℕ → Run Fs) (f : Fs)
      → IsUnique f
      → ((r : Fs × ℕ) → IsUnique r.0 → Ensures IsUnique (k r))
      → Ensures IsUnique
          (get_super away fuel (node i f).i_dev f >>= λ r. bread_inode io away fuel i r.1 r.0 >>= k)
  located-Keeping fuel i k f h next =
      Ensures-bind FirstIsUnique IsUnique (get_super away fuel (node i f).i_dev f) _
        (get_super-Keeping fuel (node i f).i_dev f h)
        (λ r h.
          Ensures-bind FirstIsUnique IsUnique (bread_inode io away fuel i r.1 r.0) k
            (bread_inode-Keeping fuel i r.1 r.0 h) next)

  pub read_inode-Keeping : (fuel i : ℕ) → KeepsUnique (read_inode io away fuel i)
  unfolding read_inode get_disk_inode
  read_inode-Keeping fuel i f h =
      bind-Keeping (lock_inode away fuel i f) _ (lock_inode-Keeping fuel i f h) (λ f h.
        located-Keeping fuel i _ f h
          (λ r h. release_inode-Keeping fuel i r.1 _ (same-IsUnique i _ r.0 h refl refl)))

  pub write_inode-Keeping : (fuel i : ℕ) → KeepsUnique (write_inode io away fuel i)
  unfolding write_inode
  write_inode-Keeping fuel i f h =
      bind-Keeping (lock_inode away fuel i f) _ (lock_inode-Keeping fuel i f h) (λ f h.
        if-cases (Ensures IsUnique) (not (node i f).i_dirt || (node i f).i_dev == 0) _ _
          (λ e. same-IsUnique i _ f h refl refl)
          (λ e.
            located-Keeping fuel i _ f h
              (λ r h. release_inode-Keeping fuel i r.1 _ (same-IsUnique i _ r.0 h refl refl))))
