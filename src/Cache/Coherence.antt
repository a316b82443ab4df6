-- ===== src/Cache/Coherence.antt =====
-- A block is in at most one buffer of the cache (fs/buffer.c).
use linux_0_11_comments.Common.{
  mem, ltb, ◌==◌, if◌then◌else◌, ==_iff, ==_self, ℕ, ◌<◌, ◌≡◌, refl, ◌≢◌, true, ◌&&◌, ◌||◌, not,
  none, ◌∷◌, arith,
}
use linux_0_11_comments.Cache.{
  find_buffer, erase, head, hashfn, key, insert_into_queues, take_over, remove_from_queues, Io,
  Cache,
}
use linux_0_11_comments.Cache.Queues.{find_buffer-none, mem-erase, mem-append, IsCoherent}

module _ (io : Io) (b dev block : ℕ) (c : Cache) where
  abbrev pub after : Cache
  after = take_over io b dev block c

  dev_after : (x : ℕ) → (head x after).b_dev ≡ (if b == x then dev else (head x c).b_dev)
  unfolding remove_from_queues insert_into_queues
  dev_after x = ground arith

  block_after :
      (x : ℕ) → (head x after).b_blocknr ≡ (if b == x then block else (head x c).b_blocknr)
  unfolding remove_from_queues insert_into_queues
  block_after x = ground arith

  free_after :
      (x : ℕ)
      → b < c.nr_buffers
      → mem x c.free ≡ ltb x c.nr_buffers
      → mem x after.free ≡ ltb x c.nr_buffers
  unfolding remove_from_queues insert_into_queues
  free_after x lt h = rw (mem-append, mem-erase) (ground (arith, h))

  hash_after :
      (h : ℕ)
      → dev ≢ 0
      → after.hash h ≡ (
          if hashfn dev block == h
          then b ∷ (if key b c == h then erase b (c.hash h) else c.hash h)
          else if key b c == h
          then erase b (c.hash h)
          else c.hash h)
  unfolding remove_from_queues insert_into_queues
  hash_after h ne = ground (arith, ==_self b)

  mem_after :
      (h x : ℕ)
      → dev ≢ 0
      → (mem x (c.hash h) ≡ true → x ≡ b → key b c ≡ h)
      → mem x (after.hash h)
        ≡ ((hashfn dev block == h && x == b) || (mem x (c.hash h) && not (x == b)))
  unfolding mem
  mem_after h x ne only =
      rw (hash_after h ne) (ground (arith, ==_iff x b, mem-erase x b (c.hash h), only))

  nr_after : after.nr_buffers ≡ c.nr_buffers
  unfolding remove_from_queues insert_into_queues
  nr_after = refl

  -- The key of a buffer afterwards.
  same_key : (x : ℕ) → key x after ≡ (if b == x then hashfn dev block else key x c)
  same_key x = rw (dev_after, block_after) (ground arith)

  pub take_over-IsCoherent :
      IsCoherent c → b < c.nr_buffers → dev ≢ 0 → find_buffer dev block c ≡ none → IsCoherent after
  take_over-IsCoherent co lt ne gone =
      let member : (h x : ℕ)
          → mem x (after.hash h)
            ≡ ((hashfn dev block == h && x == b) || (mem x (c.hash h) && not (x == b))) =
        λ h x. mem_after h x ne (λ m e. (co.hashed h b (rw e at m)).1) in
      record {
        hashed = λ h x m.
            let m' : ((hashfn dev block == h && x == b) || (mem x (c.hash h) && not (x == b)))
                ≡ true =
              rw member at m in
            (
              rw dev_after (ground (arith, m', ne, co.hashed h x)),
              rw same_key (ground (arith, m', co.hashed h x)),
              rw nr_after (ground (arith, m', lt, co.hashed h x)),
            );
        present = λ x xl there.
            let xl' : x < c.nr_buffers = rw nr_after at xl in
            rw member (rw same_key (ground (arith, rw dev_after at there, co.present x xl')));
        unique = λ x y xl yl there d n.
            let xl' : x < c.nr_buffers = rw nr_after at xl in
            let yl' : y < c.nr_buffers = rw nr_after at yl in
            ground (
              arith,
              rw dev_after at there,
              rw (dev_after x, dev_after y) at d,
              rw (block_after x, block_after y) at n,
              co.unique x y xl' yl',
              find_buffer-none dev block c co ne gone x xl',
              find_buffer-none dev block c co ne gone y yl',
            );
        listed = λ x. rw nr_after (free_after x lt (co.listed x));
      }
