-- ===== src/Inodes/Getting.antt =====
-- iget never makes an inode stand twice in the table (fs/inode.c).
use linux_0_11_comments.Inodes.Uniqueness.{
  read_inode-Keeping, write_inode-Keeping, wait_on_inode-Keeping,
}
use linux_0_11_comments.Inodes.Format.{read_inode, write_inode}
use linux_0_11_comments.Inodes.Get.{
  find_mounted, find_empty, get_empty_inode, search_inodes, is_inode, iget, clean_inode,
}
use linux_0_11_comments.Inodes.Releasing.{iput-Keeping}
use linux_0_11_comments.Inodes.Unique.{
  same-IsUnique, set_slot-IsUnique, option-Ensures, bind-Keeping, KeepsUnique, elim-Ensures,
  Ensures-bind, FirstIsUnique, Ensures, IsUnique, UniqueTable,
}
use linux_0_11_comments.Inodes.{count_up, nr_super, wait_on_inode, node, set_node, nr_inode, Fs}
use linux_0_11_comments.Cache.{Io}
use linux_0_11_comments.Inodes.Table.{iput}
use linux_0_11_comments.Common.{
  ltb, ◌==◌, Bool-cases, if-cases, ℤ, ◌>>=◌, ok, ℕ, zero, suc, ◌+◌, ◌<◌, ◌≡◌, refl, subst, inl, inr,
  false, none, some, arith,
}

-- The loop of iget saw none of the inode before place `i`.
abbrev pub NoneBefore : ℕ → ℕ → ℕ → Fs → Type 0
NoneBefore dev nr i f = (j : ℕ) → j < i → is_inode dev nr j f ≡ false

pub NoneBefore-step :
    (dev nr i : ℕ) (f : Fs)
    → NoneBefore dev nr i f
    → is_inode dev nr i f ≡ false
    → NoneBefore dev nr (i + 1) f
NoneBefore-step dev nr i f h e j lt = elim (Bool-cases (i == j)) [
  | inl same ↦
      let at : i ≡ j = ground (arith, same) in subst (λ j. is_inode dev nr j f ≡ false) at e
  | inr other ↦ h j (ground (arith, lt, other))
]

-- An inode that stands nowhere in the table gets a place.
fill-IsUnique :
    (dev nr empty : ℕ) (f : Fs)
    → NoneBefore dev nr nr_inode f
    → IsUnique f
    → IsUnique (set_node empty (record (node empty f) { i_dev = dev; i_num = nr }) f)
unfolding UniqueTable
fill-IsUnique dev nr empty f none_there h a b la lb =
    let old = h a b la lb in
    let away_a = none_there a la in
    let away_b = none_there b lb in ground (arith, old, away_a, away_b)

module _ (io : Io) (away : Fs → Fs) (now : ℤ)
    (others : (f : Fs) → IsUnique f → IsUnique (away f)) where
  clean_inode-Keeping : (fuel i : ℕ) → KeepsUnique (clean_inode io away now fuel i)
  unfolding clean_inode
  clean_inode-Keeping zero i f h = tt
  clean_inode-Keeping (suc fuel) i f h =
      elim-Ensures IsUnique ((node i f).i_dirt) _ _
        (λ e.
          bind-Keeping (write_inode io away (suc fuel) i f) _
            (write_inode-Keeping io away now others (suc fuel) i f h)
            (λ f h.
              bind-Keeping (wait_on_inode away (suc fuel) i f) _
                (wait_on_inode-Keeping io away now others (suc fuel) i f h)
                (clean_inode-Keeping fuel i)))
        (λ e. h)

  get_empty_inode-Keeping :
      (fuel : ℕ) (f : Fs) → IsUnique f → Ensures FirstIsUnique (get_empty_inode io away now fuel f)
  unfolding get_empty_inode
  get_empty_inode-Keeping zero f h = tt
  get_empty_inode-Keeping (suc fuel) f h =
      let (last, found) = find_empty f.inode_table nr_inode f.last_inode none in
      option-Ensures FirstIsUnique found _ _ tt (λ i.
        Ensures-bind IsUnique FirstIsUnique
          (wait_on_inode away (suc fuel) i (record f { last_inode = last })) _
          (wait_on_inode-Keeping io away now others (suc fuel) i _ h)
          (λ f h.
            Ensures-bind IsUnique FirstIsUnique (clean_inode io away now (suc fuel) i f) _
              (clean_inode-Keeping (suc fuel) i f h)
              (λ f h.
                elim-Ensures FirstIsUnique ((node i f).i_count == 0) _ _
                  (λ e. set_slot-IsUnique i _ f h (inl refl))
                  (λ e. get_empty_inode-Keeping fuel f h))))

  release-Keeping :
      (fuel i j : ℕ) (f : Fs)
      → IsUnique f
      → Ensures FirstIsUnique (iput io away now fuel (some i) f >>= λ f. ok (f, j))
  release-Keeping fuel i j f h =
      Ensures-bind IsUnique FirstIsUnique (iput io away now fuel (some i) f) _
        (iput-Keeping io away now others fuel (some i) f h) (λ f h. h)

  search_inodes-Keeping :
      (fuel dev nr empty i : ℕ) (f : Fs)
      → IsUnique f
      → NoneBefore dev nr i f
      → Ensures FirstIsUnique (search_inodes io away now fuel dev nr empty i f)
  unfolding search_inodes
  search_inodes-Keeping zero dev nr empty i f h before = tt
  search_inodes-Keeping (suc fuel) dev nr empty i f h before =
      let start : (v : Fs) (d n : ℕ)
          → IsUnique v
          → Ensures FirstIsUnique (search_inodes io away now fuel d n empty 0 v) =
        λ v d n k.
          search_inodes-Keeping fuel d n empty 0 v k (λ j lt. absurd (omega (arith, lt))) in
      elim-Ensures FirstIsUnique (ltb i nr_inode) _ _
        (λ inside.
          elim-Ensures FirstIsUnique (is_inode dev nr i f) _ _
            (λ e.
              Ensures-bind IsUnique FirstIsUnique (wait_on_inode away (suc fuel) i f) _
                (wait_on_inode-Keeping io away now others (suc fuel) i f h)
                (λ f h.
                  elim-Ensures FirstIsUnique (is_inode dev nr i f) _ _
                    (λ e.
                      let up = same-IsUnique i _ f h refl refl in
                      elim-Ensures FirstIsUnique ((f.inode_table i).i_mount) _ _
                        (λ e.
                          option-Ensures FirstIsUnique (find_mounted f.super_block i nr_super 0) _ _
                            (release-Keeping (suc fuel) empty i (count_up i f) up)
                            (λ s.
                              Ensures-bind IsUnique FirstIsUnique
                                (iput io away now (suc fuel) (some i) (count_up i f)) _
                                (iput-Keeping io away now others (suc fuel) (some i) (count_up i f)
                                  up)
                                (λ f h. start f _ _ h)))
                        (λ e. release-Keeping (suc fuel) empty i (count_up i f) up))
                    (λ e. start f dev nr h)))
            (λ e.
              search_inodes-Keeping fuel dev nr empty (i + 1) f h
                (NoneBefore-step dev nr i f before e)))
        (λ outside.
          Ensures-bind IsUnique FirstIsUnique
            (read_inode io away (suc fuel) empty
              (set_node empty (record (node empty f) { i_dev = dev; i_num = nr }) f))
            _
            (read_inode-Keeping io away now others (suc fuel) empty _
              (fill-IsUnique dev nr empty f (λ j lt. before j (ground (arith, outside, lt))) h))
            (λ f h. h))

  -- In a table where no inode of a device stands twice, and stays so whatever other tasks do meanwhile,
  -- iget, if it returns, leaves a table where none does: it finds the inode if it is there, also after
  -- waits and across mount points, before it reads the inode to an empty place.
  pub iget-IsUnique :
      (fuel dev nr : ℕ) (f : Fs)
      → IsUnique f
      → Ensures FirstIsUnique (iget io away now fuel dev nr f)
  unfolding iget
  iget-IsUnique fuel dev nr f h =
      if-cases (Ensures FirstIsUnique) (dev == 0) _ _ (λ e. tt)
        (λ e.
          Ensures-bind FirstIsUnique FirstIsUnique (get_empty_inode io away now fuel f) _
            (get_empty_inode-Keeping fuel f h)
            (λ r h.
              search_inodes-Keeping fuel dev nr r.1 0 r.0 h (λ j lt. absurd (omega (arith, lt)))))
