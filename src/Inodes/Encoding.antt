-- ===== src/Inodes/Encoding.antt =====
-- An inode that write_inode puts into its block is the one that read_inode gets (fs/inode.c).
use linux_0_11_comments.Bitmap.{Inode}
use linux_0_11_comments.Inodes.Format.{
  unsigned_long, get_disk_inode, long_at, half_at, put_disk_inode, inode_byte, byte_of,
}
use linux_0_11_comments.Common.{
  ltb, leb, if◌then◌else◌, Bool-cases, pos, ℕ, ◌+◌, ◌-◌, ◌*◌, ◌/◌, ◌%◌, ◌^◌, ◌<◌, ◌≡◌, refl, sym,
  ap, ◌∙◌, fun_ext, ◌≢◌, inl, inr, true, ◌&&◌, arith,
}

-- The fields fit in those of a struct d_inode, which has 9 zones.
pub record IsStorable (inode : Inode) : Type 0 where
  pub mode : inode.i_mode < 65536
  pub uid : inode.i_uid < 65536
  pub size : inode.i_size < 2 ^ 32
  pub mtime : (t : ℕ) × (t < 2 ^ 32) × (inode.i_mtime ≡ pos t)
  pub gid : inode.i_gid < 256
  pub nlinks : inode.i_nlinks < 256
  pub zones : (n : ℕ) → inode.i_zone n < 65536

put_disk_inode-byte :
    (k b a : ℕ) (inode : Inode) (block : ℕ → ℕ)
    → a ≡ 32 * k + b
    → b < 32
    → put_disk_inode k inode block a ≡ inode_byte inode b
unfolding put_disk_inode
put_disk_inode-byte k b a inode block e small =
    let inside : (leb (32 * k) a && ltb a (32 * k + 32)) ≡ true = ground (arith, e, small) in
    rw inside (ap (inode_byte inode) (omega (arith, e)))

half_at-byte_of :
    (a w : ℕ) (block : ℕ → ℕ)
    → w < 65536
    → block a ≡ byte_of w 0
    → block (a + 1) ≡ byte_of w 1
    → half_at a block ≡ w
half_at-byte_of a w block small low high = omega (arith, small, low, high)

long_at-byte_of :
    (a w : ℕ) (block : ℕ → ℕ)
    → w < 2 ^ 32
    → block a ≡ byte_of w 0
    → block (a + 1) ≡ byte_of w 1
    → block (a + 2) ≡ byte_of w 2
    → block (a + 2 + 1) ≡ byte_of w 3
    → long_at a block ≡ w
long_at-byte_of a w block small b0 b1 b2 b3 = omega (arith, small, b0, b1, b2, b3)

inode_byte-zone :
    (inode : Inode) (n p b : ℕ)
    → n < 9
    → p < 2
    → b ≡ 14 + 2 * n + p
    → inode_byte inode b ≡ byte_of (inode.i_zone n) p
unfolding inode_byte
inode_byte-zone inode n p b small two e =
    let index : (b - 14) / 2 ≡ n = omega (arith, e) in
    let parity : b % 2 ≡ p = omega (arith, e, two) in rw (index, parity) (ground (arith, e))

half_at-put_disk_inode :
    (k b a w : ℕ) (inode : Inode) (block : ℕ → ℕ)
    → a ≡ 32 * k + b
    → b + 1 < 32
    → w < 65536
    → inode_byte inode b ≡ byte_of w 0
    → inode_byte inode (b + 1) ≡ byte_of w 1
    → half_at a (put_disk_inode k inode block) ≡ w
half_at-put_disk_inode k b a w inode block e le small low high =
    half_at-byte_of a w (put_disk_inode k inode block) small
      (put_disk_inode-byte k b a inode block e (omega (arith, le)) ∙ low)
      (put_disk_inode-byte k (b + 1) (a + 1) inode block (omega (arith, e)) le ∙ high)

long_at-put_disk_inode :
    (k b w : ℕ) (inode : Inode) (block : ℕ → ℕ)
    → b + 3 < 32
    → w < 2 ^ 32
    → inode_byte inode b ≡ byte_of w 0
    → inode_byte inode (b + 1) ≡ byte_of w 1
    → inode_byte inode (b + 2) ≡ byte_of w 2
    → inode_byte inode (b + 3) ≡ byte_of w 3
    → long_at (32 * k + b) (put_disk_inode k inode block) ≡ w
long_at-put_disk_inode k b w inode block le small b0 b1 b2 b3 =
    let bytes = put_disk_inode k inode block in
    long_at-byte_of (32 * k + b) w bytes small
      (put_disk_inode-byte k b _ inode block refl (omega (arith, le)) ∙ b0)
      (put_disk_inode-byte k (b + 1) _ inode block (omega arith) (omega (arith, le)) ∙ b1)
      (put_disk_inode-byte k (b + 2) _ inode block (omega arith) (omega (arith, le)) ∙ b2)
      (put_disk_inode-byte k (b + 3) _ inode block (omega arith) le ∙ b3)

-- Another entry of the block keeps its bytes.
put_disk_inode-other :
    (j k b a : ℕ) (inode : Inode) (block : ℕ → ℕ)
    → j ≢ k
    → a ≡ 32 * j + b
    → b < 32
    → put_disk_inode k inode block a ≡ block a
unfolding put_disk_inode
put_disk_inode-other j k b a inode block other e small = ground (arith, other, e, small)

half_at-other :
    (j k b a : ℕ) (inode : Inode) (block : ℕ → ℕ)
    → j ≢ k
    → a ≡ 32 * j + b
    → b + 1 < 32
    → half_at a (put_disk_inode k inode block) ≡ half_at a block
half_at-other j k b a inode block other e small =
    let low = put_disk_inode-other j k b a inode block other e (omega (arith, small)) in
    let high =
      put_disk_inode-other j k (b + 1) (a + 1) inode block other (omega (arith, e)) small in
    omega (arith, low, high)

get_disk_inode-other :
    (j k : ℕ) (inode other : Inode) (block : ℕ → ℕ)
    → j ≢ k
    → get_disk_inode j (put_disk_inode k inode block) other ≡ get_disk_inode j block other
unfolding get_disk_inode
get_disk_inode-other j k inode other block away =
    let bytes : ℕ → ℕ = put_disk_inode k inode block in
    let half : (b a : ℕ) → a ≡ 32 * j + b → b + 1 < 32 → half_at a bytes ≡ half_at a block =
      λ b a. half_at-other j k b a inode block away in
    let zone : (n : ℕ)
        → (if ltb n 9 then half_at (32 * j + 14 + 2 * n) bytes else other.i_zone n)
          ≡ (if ltb n 9 then half_at (32 * j + 14 + 2 * n) block else other.i_zone n) =
      λ n. elim (Bool-cases (ltb n 9)) [
        | inl e ↦ rw e (half (14 + 2 * n) _ (omega arith) (ground (arith, e)))
        | inr e ↦ rw e refl
      ] in
    rw
      (
        half 0 (32 * j) (omega arith) (omega arith),
        half 2 (32 * j + 2) refl (omega arith),
        half 4 (32 * j + 4) refl (omega arith),
        half 6 (32 * j + 4 + 2) (omega arith) (omega arith),
        half 8 (32 * j + 8) refl (omega arith),
        half 10 (32 * j + 8 + 2) (omega arith) (omega arith),
        put_disk_inode-other j k 12 (32 * j + 12) inode block away refl (omega arith),
        put_disk_inode-other j k 13 (32 * j + 13) inode block away refl (omega arith),
        fun_ext zone,
      )
      refl

-- The inode `base` with the fields that a struct d_inode has taken from `inode`
abbrev pub stored : Inode → Inode → Inode
stored inode base = record base {
  i_mode = inode.i_mode;
  i_uid = inode.i_uid;
  i_size = inode.i_size;
  i_mtime = inode.i_mtime;
  i_gid = inode.i_gid;
  i_nlinks = inode.i_nlinks;
  i_zone = λ n. if ltb n 9 then inode.i_zone n else base.i_zone n;
}

-- When an inode whose fields fit in those of the disk is put into an entry of a block, and that entry
-- is got into any inode `base`, then `base` has the mode, the owner, the size, the time, the group, the
-- number of links and the 9 zones of the inode that was put, and its own other fields. The entry of
-- every other inode of the block is what it was.
pub get_disk_inode-put_disk_inode :
    (k : ℕ) (inode base : Inode) (block : ℕ → ℕ)
    → IsStorable inode
    → (get_disk_inode k (put_disk_inode k inode block) base ≡ stored inode base)
      × ((j : ℕ) (other : Inode)
          → j ≢ k
          → get_disk_inode j (put_disk_inode k inode block) other ≡ get_disk_inode j block other)
unfolding get_disk_inode inode_byte
get_disk_inode-put_disk_inode k inode base block h =
    let (t, in_time, at) = h.mtime in
    let time : unsigned_long inode.i_mtime ≡ t = rw at (omega (arith, in_time)) in
    let bytes : ℕ → ℕ = put_disk_inode k inode block in
    let mode : half_at (32 * k) bytes ≡ inode.i_mode =
      half_at-put_disk_inode k 0 (32 * k) inode.i_mode inode block (omega arith) (omega arith)
        h.mode refl refl in
    let uid : half_at (32 * k + 2) bytes ≡ inode.i_uid =
      half_at-put_disk_inode k 2 (32 * k + 2) inode.i_uid inode block refl (omega arith) h.uid refl
        refl in
    let size : long_at (32 * k + 4) bytes ≡ inode.i_size =
      long_at-put_disk_inode k 4 inode.i_size inode block (omega arith) h.size refl refl refl
        refl in
    let mtime : pos (long_at (32 * k + 8) bytes) ≡ inode.i_mtime =
      ap pos (
        long_at-put_disk_inode k 8 (unsigned_long inode.i_mtime) inode block (omega arith)
          (rw time in_time) refl refl refl refl
        ∙ time)
      ∙ sym at in
    let gid : bytes (32 * k + 12) ≡ inode.i_gid =
      put_disk_inode-byte k 12 (32 * k + 12) inode block refl (omega arith)
      ∙ omega (arith, h.gid) in
    let nlinks : bytes (32 * k + 13) ≡ inode.i_nlinks =
      put_disk_inode-byte k 13 (32 * k + 13) inode block refl (omega arith)
      ∙ omega (arith, h.nlinks) in
    let zone : (n : ℕ)
        → (if ltb n 9 then half_at (32 * k + 14 + 2 * n) bytes else base.i_zone n)
          ≡ (if ltb n 9 then inode.i_zone n else base.i_zone n) =
      λ n. elim (Bool-cases (ltb n 9)) [
        | inl e ↦
            let small : n < 9 = ground (arith, e) in
            rw e (
              half_at-put_disk_inode k (14 + 2 * n) (32 * k + 14 + 2 * n) (inode.i_zone n) inode
                block (omega arith) (omega (arith, small)) (h.zones n)
                (inode_byte-zone inode n 0 (14 + 2 * n) small (omega arith) (omega arith))
                (inode_byte-zone inode n 1 (14 + 2 * n + 1) small (omega arith) (omega arith)))
        | inr e ↦ rw e refl
      ] in
    (
      rw (mode, uid, size, mtime, gid, nlinks, fun_ext zone) refl,
      λ j other away. get_disk_inode-other j k inode other block away,
    )
