-- ===== src/Directory/Holes.antt =====
-- empty_dir on a directory with a block that is not there (fs/namei.c).
use linux_0_11_comments.Directory.Search.{given_back, release-held, IsHeld}
use linux_0_11_comments.Inodes.Table.{on_cache}
use linux_0_11_comments.Directory.Entries.{map_entry, check_entries, release_buffer}
use linux_0_11_comments.Bmap.{make_zone, map_block}
use linux_0_11_comments.Inodes.{set_node, node, Fs}
use linux_0_11_comments.Cache.{head, wait_on_buffer, brelse, Io}
use linux_0_11_comments.Common.{
  ltb, leb, Bool-cases, ℤ, ltb_ℤ, pos, ◌>>=◌, free_free_buffer, ok, panic, ℕ, suc, ◌+◌, ◌*◌, ◌/◌,
  ◌<◌, ◌≡◌, refl, ap, inl, inr, true, false, ◌||◌, none, some, arith,
}

module _ (io : Io) (away : Fs → Fs) (now : ℤ) where
  -- bmap finds that a direct block is not there.
  map_entry-hole :
      (fuel dir i : ℕ) (f : Fs)
      → i / 64 < 7
      → (node dir f).i_zone (i / 64) ≡ 0
      → map_entry io away now fuel false none dir i f ≡ ok (set_node dir (node dir f) f, 0)
  unfolding map_block make_zone
  map_entry-hole fuel dir i f direct hole =
      let small : (ltb_ℤ (pos (i / 64)) (pos 0) || leb (7 + 512 + 512 * 512) (i / 64)) ≡ false =
        ground (arith, direct) in
      let first : ltb (i / 64) 7 ≡ true = ground (arith, direct) in
      rw (small, map_entry, map_block, ◌>>=◌)
        (rw first (ap (λ z. ok (set_node dir (node dir f) f, z)) hole))

  released_again :
      (fuel b : ℕ) (f : Fs)
      → (head b f.cache).b_lock ≡ false
      → f.cache.b_count b ≡ 0
      → release_buffer io away now (suc fuel) (some b) f ≡ panic free_free_buffer
  unfolding brelse wait_on_buffer
  released_again fuel b f unlocked none_left =
      rw (unlocked, on_cache, brelse, wait_on_buffer, ◌>>=◌) (rw none_left refl)

  -- When the block of entry `i` is not there, empty_dir gives the buffer of the block before, of which it
  -- is the only user, back twice, which stops the kernel.
  pub check_entries-hole :
      (fuel dir len n i b : ℕ) (f : Fs)
      → i < len
      → i / 64 < 7
      → (node dir f).i_zone (i / 64) ≡ 0
      → (head b f.cache).b_lock ≡ false
      → f.cache.b_count b ≡ 1
      → check_entries io away now (suc fuel) dir len (suc (suc n)) i b 1024 f
        ≡ panic free_free_buffer
  unfolding check_entries
  check_entries-hole fuel dir len n i b f more direct hole unlocked one =
      let inside : ltb i len ≡ true = ground (arith, more) in
      let v : Fs = given_back b f in
      let w : Fs = set_node dir (node dir v) v in
      let held : IsHeld b f = record { unlocked = unlocked; counted = omega (arith, one) } in
      let none_left : w.cache.b_count b ≡ 0 = ground (arith, one) in
      let again = released_again fuel b w unlocked none_left in
      rw (inside, check_entries)
        (rw (release-held io away now fuel b f held, ◌>>=◌)
          (rw (map_entry-hole (suc fuel) dir i v direct hole, ◌>>=◌)
            (elim (Bool-cases (ltb (i + 64) len)) [
              | inl e ↦ rw (e, check_entries) (rw (again, ◌>>=◌) refl)
              | inr e ↦ rw (e, check_entries) (rw (again, ◌>>=◌) refl)
            ])))
