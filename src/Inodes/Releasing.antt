-- ===== src/Inodes/Releasing.antt =====
-- iput, and what it calls, never makes an inode stand twice in the table (fs/inode.c).
use linux_0_11_comments.Inodes.Format.{write_inode}
use linux_0_11_comments.Bmap.{truncate}
use linux_0_11_comments.Memory.{free_page}
use linux_0_11_comments.Inodes.{nr_inode, wait_on_inode, get_super, count_down, node, Fs}
use linux_0_11_comments.Inodes.Unique.{
  bind-Keeping, same-IsUnique, FirstIsUnique, KeepsUnique, set_slot-IsUnique, elim-Ensures,
  Ensures-bind, Ensures-any, option-Ensures, IsUnique, Ensures,
}
use linux_0_11_comments.Bitmap.{no_inode, SuperBlock, Inode, free_inode}
use linux_0_11_comments.Cache.{write_dirty, Cache, Io}
use linux_0_11_comments.Inodes.Uniqueness.{
  write_inode-Keeping, wait_on_inode-Keeping, get_super-Keeping,
}
use linux_0_11_comments.Inodes.Table.{
  is_block, sync_inodes, maps_of, delete_inode, on_cache, freed, sync_from, put_last, sync_device,
  put_pipe, iput,
}
use linux_0_11_comments.Common.{
  ltb, ◌==◌, if◌then◌else◌, if-cases, ℤ, Run, ◌>>=◌, ok, ℕ, zero, suc, ◌+◌, ◌/◌, ◌≡◌, refl, sym,
  subst, inl, ◌&&◌, ◌||◌, not, Option, none, some,
}

put_pipe-Keeping : (i : ℕ) → KeepsUnique (put_pipe i)
unfolding put_pipe
put_pipe-Keeping i f h =
    let down = same-IsUnique i _ f h refl refl in
    if-cases (Ensures IsUnique) (not ((node i (count_down i f)).i_count == 0)) _ _ (λ e. down)
      (λ e.
        Ensures-any IsUnique (free_page (node i (count_down i f)).i_size f.memory) _
          (λ m. same-IsUnique i _ (count_down i f) down refl refl))

-- free_inode leaves nothing at the place of the inode.
free_inode-cleared :
    (sb : Option SuperBlock) (n : Inode) (c : Cache)
    → Ensures (λ r. r.1 ≡ some no_inode) (free_inode sb (some n) c)
unfolding free_inode
free_inode-cleared sb n c =
    let P : Cache × Option Inode → Type 0 = λ r. r.1 ≡ some no_inode in
    if-cases (Ensures P) (n.i_dev == 0) _ _ (λ e. refl)
      (λ e.
        if-cases (Ensures P) (ltb 1 n.i_count || not (n.i_nlinks == 0)) _ _ (λ e. tt)
          (λ e. option-Ensures P sb _ _ tt (λ sb.
            if-cases (Ensures P) (ltb n.i_num 1 || ltb sb.s_ninodes n.i_num) _ _ (λ e. tt)
              (λ e. option-Ensures P (sb.s_imap (n.i_num / 8192)) _ _ tt (λ b. refl)))))

freed-IsUnique :
    (i : ℕ) (n : Option Inode) (f : Fs) → n ≡ some no_inode → IsUnique f → IsUnique (freed i n f)
freed-IsUnique i n f e h =
    subst (λ n. IsUnique (freed i n f)) (sym e) (set_slot-IsUnique i _ f h (inl refl))

module _ (io : Io) (away : Fs → Fs) (now : ℤ)
    (others : (f : Fs) → IsUnique f → IsUnique (away f)) where
  sync_from-Keeping : (fuel n i : ℕ) → KeepsUnique (sync_from io away now fuel n i)
  unfolding sync_from
  sync_from-Keeping fuel zero i f h = h
  sync_from-Keeping fuel (suc n) i f h =
      bind-Keeping (wait_on_inode away fuel i f) _
        (wait_on_inode-Keeping io away now others fuel i f h)
        (λ f h.
          bind-Keeping
            (if (node i f).i_dirt && not ((f.inode_table i).i_pipe)
              then write_inode io away fuel i f
              else ok f)
            _
            (if-cases (Ensures IsUnique) ((node i f).i_dirt && not ((f.inode_table i).i_pipe)) _ _
              (λ e. write_inode-Keeping io away now others fuel i f h) (λ e. h))
            (sync_from-Keeping fuel n (i + 1)))

  on_cache-Keeping : (g : Cache → Run Cache) → KeepsUnique (on_cache g)
  on_cache-Keeping g f h = Ensures-any IsUnique (g f.cache) _ (λ c. h)

  sync_device-Keeping : (fuel dev : ℕ) → KeepsUnique (sync_device io away now fuel dev)
  unfolding sync_device
  sync_device-Keeping fuel dev f h =
      let write : Cache → Run Cache = λ c. write_dirty io fuel (λ d. d == dev) c.nr_buffers 0 c in
      bind-Keeping (on_cache write f) _ (on_cache-Keeping write f h) (λ f h.
        bind-Keeping (sync_inodes io away now fuel f) _ (sync_from-Keeping fuel nr_inode 0 f h)
          (on_cache-Keeping write))

  delete_inode-Keeping : (fuel i : ℕ) → KeepsUnique (delete_inode io away now fuel i)
  unfolding delete_inode
  delete_inode-Keeping fuel i f h =
      Ensures-bind FirstIsUnique IsUnique (get_super away fuel (node i f).i_dev f) _
        (get_super-Keeping io away now others fuel (node i f).i_dev f h)
        (λ r h.
          Ensures-any IsUnique
            (truncate io (maps_of r.1 r.0) now fuel
              (record { inode = node i r.0; cache = r.0.cache }))
            _
            (λ d.
              Ensures-bind (λ r. r.1 ≡ some no_inode) IsUnique
                (free_inode (maps_of r.1 r.0) (some d.inode) d.cache) _
                (free_inode-cleared (maps_of r.1 r.0) d.inode d.cache)
                (λ n e. freed-IsUnique i n.1 _ e h)))

  put_last-Keeping : (fuel i : ℕ) → KeepsUnique (put_last io away now fuel i)
  unfolding put_last
  put_last-Keeping zero i f h = tt
  put_last-Keeping (suc fuel) i f h =
      elim-Ensures IsUnique (ltb 1 (node i f).i_count) _ _ (λ e. same-IsUnique i _ f h refl refl)
        (λ e.
          elim-Ensures IsUnique ((node i f).i_nlinks == 0) _ _
            (λ e. delete_inode-Keeping (suc fuel) i f h)
            (λ e.
              elim-Ensures IsUnique ((node i f).i_dirt) _ _
                (λ e.
                  bind-Keeping (write_inode io away (suc fuel) i f) _
                    (write_inode-Keeping io away now others (suc fuel) i f h)
                    (λ f h.
                      bind-Keeping (wait_on_inode away (suc fuel) i f) _
                        (wait_on_inode-Keeping io away now others (suc fuel) i f h)
                        (put_last-Keeping fuel i)))
                (λ e. same-IsUnique i _ f h refl refl)))

  pub iput-Keeping : (fuel : ℕ) (i : Option ℕ) → KeepsUnique (iput io away now fuel i)
  unfolding iput
  iput-Keeping fuel none f h = h
  iput-Keeping fuel (some i) f h =
      bind-Keeping (wait_on_inode away fuel i f) _
        (wait_on_inode-Keeping io away now others fuel i f h)
        (λ f h.
          if-cases (Ensures IsUnique) ((node i f).i_count == 0) _ _ (λ e. tt)
            (λ e.
              if-cases (Ensures IsUnique) ((f.inode_table i).i_pipe) _ _
                (λ e. put_pipe-Keeping i f h)
                (λ e.
                  if-cases (Ensures IsUnique) ((node i f).i_dev == 0) _ _
                    (λ e. same-IsUnique i _ f h refl refl)
                    (λ e.
                      bind-Keeping
                        (if is_block (node i f).i_mode
                          then (sync_device io away now fuel ((node i f).i_zone 0) f >>= λ f.
                              wait_on_inode away fuel i f)
                          else ok f)
                        _
                        (if-cases (Ensures IsUnique) (is_block (node i f).i_mode) _ _
                          (λ e.
                            bind-Keeping (sync_device io away now fuel ((node i f).i_zone 0) f) _
                              (sync_device-Keeping fuel ((node i f).i_zone 0) f h)
                              (wait_on_inode-Keeping io away now others fuel i))
                          (λ e. h))
                        (put_last-Keeping fuel i)))))
