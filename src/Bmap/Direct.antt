-- ===== src/Bmap/Direct.antt =====
-- The zones of the first seven blocks of a file (fs/inode.c).
use linux_0_11_comments.Bitmap.{new_block, SuperBlock}
use linux_0_11_comments.Bmap.{create_block, make_zone, bmap, map_block, Disk}
use linux_0_11_comments.Cache.{Io, Cache}
use linux_0_11_comments.Common.{
  ltb, leb, ◌==◌, update, ==_self, ℤ, pos, ◌>>=◌, ok, ℕ, ◌+◌, ◌*◌, ◌%◌, ◌<◌, ◌≡◌, refl, ap, ◌∙◌,
  ◌≢◌, Bool, true, false, ◌&&◌, Option, arith,
}

abbrev pair : Disk → ℕ → Disk × ℕ
pair d n = (d, n)

-- The disk after zone number `n` of the inode was made.
abbrev with_zone : ℤ → ℕ → ℕ → Cache → Disk → Disk
with_zone now n z c d = record {
  inode = record (d.inode) { i_zone = update d.inode.i_zone n z; i_ctime = now; i_dirt = true };
  cache = c;
}

module _ (io : Io) (sb : Option SuperBlock) (now : ℤ) (fuel : ℕ) where
  make_zone-kept :
      (n : ℕ) (create : Bool) (d : Disk)
      → d.inode.i_zone n ≢ 0
      → make_zone io sb now fuel create n d ≡ ok d
  unfolding make_zone
  make_zone-kept n create d e =
      let there : (d.inode.i_zone n == 0) ≡ false = ground (arith, e) in
      let skip : (create && d.inode.i_zone n == 0) ≡ false = ground (arith, there) in
      rw (skip, make_zone) refl

  make_zone-new :
      (n z : ℕ) (c : Cache) (d : Disk)
      → d.inode.i_zone n ≡ 0
      → new_block io fuel sb d.inode.i_dev d.cache ≡ ok (c, z)
      → 0 < z
      → z < 65536
      → make_zone io sb now fuel true n d ≡ ok (with_zone now n z c d)
  unfolding make_zone
  make_zone-new n z c d e new pos_z small =
      let gone : (d.inode.i_zone n == 0) ≡ true = ground (arith, e) in
      let same : z % 65536 ≡ z = omega arith in
      let made : (z == 0) ≡ false = ground arith in
      rw (gone, make_zone) (rw (new, ◌>>=◌) (rw same (rw made refl)))

  map_block-direct :
      (n : ℕ) (create : Bool) (d v : Disk)
      → n < 7
      → make_zone io sb now fuel create n d ≡ ok v
      → map_block io sb now fuel (pos n) create d ≡ ok (v, v.inode.i_zone n)
  unfolding map_block
  map_block-direct n create d v lt e =
      let direct : ltb n 7 ≡ true = ground arith in
      let fits : leb (7 + 512 + 512 * 512) n ≡ false = ground arith in
      let natural : ltb (n + 0) 0 ≡ false = ground arith in
      rw (natural, fits, direct, map_block) (rw (e, ◌>>=◌) refl)

  -- A block below 7 that has no zone: when new_block gives one, create_block returns it, and bmap and
  -- create_block return it from then on, whatever happens to the cache, without a further change.
  pub bmap-create_block :
      (n z : ℕ) (c : Cache) (d : Disk)
      → n < 7
      → d.inode.i_zone n ≡ 0
      → new_block io fuel sb d.inode.i_dev d.cache ≡ ok (c, z)
      → 0 < z
      → z < 65536
      → (v : Disk) × (create_block io sb now fuel (pos n) d ≡ ok (v, z))
        × ((later : Cache)
            → (bmap io sb now fuel (pos n) (record v { cache = later })
                ≡ ok (record v { cache = later }, z))
              × (create_block io sb now fuel (pos n) (record v { cache = later })
                  ≡ ok (record v { cache = later }, z)))
  unfolding bmap create_block
  bmap-create_block n z c d lt e new pos_z small =
      let v : Disk = with_zone now n z c d in
      let at : v.inode.i_zone n ≡ z = rw (==_self n) refl in
      let there : v.inode.i_zone n ≢ 0 = λ gone. omega (arith, at, gone) in
      let value : (w : Disk) (n' : ℕ) → n' ≡ z → ok (pair w n') ≡ ok (pair w z) =
        λ w n' h. ap (λ x. ok (pair w x)) h in
      (
        v,
        map_block-direct n true d v lt (make_zone-new n z c d e new pos_z small) ∙ value v _ at,
        λ later.
            let w : Disk = record v { cache = later } in
            (
              map_block-direct n false w w lt (make_zone-kept n false w there) ∙ value w _ at,
              map_block-direct n true w w lt (make_zone-kept n true w there) ∙ value w _ at,
            ),
      )
