-- ===== src/Inodes/Shared.antt =====
-- iget for an inode that is in memory (fs/inode.c).
use linux_0_11_comments.Inodes.Getting.{NoneBefore}
use linux_0_11_comments.Inodes.Empty.{
  get_empty_inode-taken, IsFree, taken, iput-empty, wait_on_inode-unlocked, new_slot,
}
use linux_0_11_comments.Inodes.Get.{iget, search_inodes, is_inode}
use linux_0_11_comments.Inodes.{MemInode, empty_slot, node, count_up, count_down, nr_inode, Fs}
use linux_0_11_comments.Cache.{Io}
use linux_0_11_comments.Inodes.Table.{iput}
use linux_0_11_comments.Common.{
  ltb, ◌==◌, update, ==_self, if-cases, elim-cases, ℤ, ◌>>=◌, ok, ℕ, zero, suc, ◌+◌, ◌%◌, ◌<◌, ◌≡◌,
  refl, sym, ap, ◌∙◌, subst, ◌≢◌, true, false, ◌&&◌, some, arith,
}

-- The inode stands at place `i`, the first one that it has, and can be used at once.
pub record IsThere (dev nr i : ℕ) (f : Fs) : Type 0 where
  pub inside : i < nr_inode
  pub at : is_inode dev nr i f ≡ true
  pub before : NoneBefore dev nr i f
  pub unlocked : (f.inode_table i).i_lock ≡ false
  pub plain : (f.inode_table i).i_mount ≡ false

-- One more user of the inode at place `i`; place `e`, another one that was free, is not used, and
-- the others are as before.
pub record IsShared (i e : ℕ) (f v : Fs) : Type 0 where
  pub apart : i ≢ e
  pub in_table : e < nr_inode
  pub free : IsFree (f.inode_table e)
  pub counted : v.inode_table i ≡ record (f.inode_table i) {
    inode = record (node i f) { i_count = ((node i f).i_count + 1) % 65536 };
  }
  pub emptied : v.inode_table e ≡ empty_slot
  pub others : (j : ℕ) → j ≢ i → j ≢ e → v.inode_table j ≡ f.inode_table j
  pub same_cache : v.cache ≡ f.cache

-- Another number of users at a place
abbrev counting : (ℕ → ℕ) → MemInode → MemInode
counting change s = record s { inode = record (s.inode) { i_count = change s.inode.i_count } }

update_same : (table : ℕ → MemInode) (i : ℕ) (s : MemInode) → update table i s i ≡ s
update_same table i s = rw (==_self i) refl

update_other :
    (table : ℕ → MemInode) (i j : ℕ) (s : MemInode) → j ≢ i → update table i s j ≡ table j
update_other table i j s other =
    if-cases (λ s. s ≡ table j) (i == j) _ _ (λ e. absurd (other (ground (arith, e)))) (λ e. refl)

module _ (io : Io) (away : Fs → Fs) (now : ℤ) where
  iput-new_slot :
      (fuel e i : ℕ) (f : Fs)
      → f.inode_table e ≡ new_slot
      → i ≢ e
      → iput io away now (suc fuel) (some e) (count_up i f) ≡ ok (count_down e (count_up i f))
  iput-new_slot fuel e i f new other =
      let slot : (count_up i f).inode_table e ≡ new_slot =
        if-cases (λ s. s ≡ new_slot) (i == e) _ _ (λ e. absurd (ground (arith, e, other)))
          (λ e. new) in
      iput-empty io away now fuel e (count_up i f) (ap (λ s. s.i_lock) slot)
        (ap (λ s. s.inode.i_count == 0) slot) (ap (λ s. s.i_pipe) slot)
        (ap (λ s. s.inode.i_dev == 0) slot)

  search_inodes-found :
      (d fuel dev nr e s i : ℕ) (f : Fs)
      → d < fuel
      → i ≡ s + d
      → IsThere dev nr i f
      → f.inode_table e ≡ new_slot
      → i ≢ e
      → search_inodes io away now fuel dev nr e s f ≡ ok (count_down e (count_up i f), i)
  unfolding search_inodes
  search_inodes-found d zero dev nr e s i f lt sum h new other = absurd (omega (arith, lt))
  search_inodes-found zero (suc fuel) dev nr e s i f lt sum h new other =
      let same : i ≡ s = omega (arith, sum) in
      subst
        (λ s.
          search_inodes io away now (suc fuel) dev nr e s f ≡ ok (count_down e (count_up i f), i))
        same
        (let inside : ltb i nr_inode ≡ true = ground (arith, h.inside) in
          rw (inside, search_inodes)
            (rw (h.at) (
              rw (wait_on_inode-unlocked io away now fuel i f h.unlocked, ◌>>=◌)
                (rw (h.at) (
                  elim-cases (λ r. r ≡ ok (count_down e (count_up i f), i))
                    ((f.inode_table i).i_mount) _ _ (λ m. absurd (ground (arith, m, h.plain)))
                    (λ m. rw (iput-new_slot fuel e i f new other, ◌>>=◌) refl))))))
  search_inodes-found (suc d) (suc fuel) dev nr e s i f lt sum h new other =
      let inside : ltb s nr_inode ≡ true = ground (arith, h.inside, sum) in
      rw (inside, search_inodes)
        (rw (h.before s (omega (arith, sum))) (
          search_inodes-found d fuel dev nr e (s + 1) i f (omega (arith, lt)) (omega (arith, sum)) h
            new other))

  -- The empty inode stands at another place.
  taken-IsThere :
      (dev nr i e : ℕ) (f : Fs)
      → dev ≢ 0
      → i ≢ e
      → IsThere dev nr i f
      → IsThere dev nr i (taken e f)
  taken-IsThere dev nr i e f device other h =
      let apart : (e == i) ≡ false = ground (arith, other) in
      record {
        inside = h.inside;
        at =
            if-cases (λ (s : MemInode). (s.inode.i_dev == dev && s.inode.i_num == nr) ≡ true)
              (e == i) _ _ (λ c. absurd (ground (arith, c, apart))) (λ c. h.at);
        before = λ j lt.
            if-cases (λ (s : MemInode). (s.inode.i_dev == dev && s.inode.i_num == nr) ≡ false)
              (e == j) _ _ (λ c. ground (arith, device)) (λ c. h.before j lt);
        unlocked =
            if-cases (λ (s : MemInode). s.i_lock ≡ false) (e == i) _ _ (λ c. refl)
              (λ c. h.unlocked);
        plain =
            if-cases (λ (s : MemInode). s.i_mount ≡ false) (e == i) _ _ (λ c. refl) (λ c. h.plain);
      }

  counted_IsShared :
      (i e : ℕ) (f : Fs)
      → i ≢ e
      → e < nr_inode
      → IsFree (f.inode_table e)
      → IsShared i e f (count_down e (count_up i (taken e f)))
  counted_IsShared i e f other inside unused =
      let first : ℕ → MemInode = (taken e f).inode_table in
      let second : ℕ → MemInode = (count_up i (taken e f)).inode_table in
      record {
        apart = other;
        in_table = inside;
        free = unused;
        counted =
            update_other second e i _ other
            ∙ update_same first i _
            ∙ ap (counting (λ n. (n + 1) % 65536)) (update_other f.inode_table e i new_slot other);
        emptied =
            update_same second e _
            ∙ ap (counting (λ n. (n + 65535) % 65536)) (
                update_other first i e _ (λ same. other (sym same))
                ∙ update_same f.inode_table e new_slot);
        others = λ j away_i away_e.
            update_other second e j _ away_e
            ∙ update_other first i j _ away_i
            ∙ update_other f.inode_table e j new_slot away_e;
        same_cache = refl;
      }

  -- When the inode is in memory, not locked, used, and no file system is mounted on it, and there is a
  -- free place, iget with fuel for the search returns the place where the inode stands, which has one
  -- user more. The place that it took first, which was free, is empty, and no other place and no buffer
  -- changed.
  pub iget-IsShared :
      (fuel dev nr i k : ℕ) (f : Fs)
      → dev ≢ 0
      → i < fuel
      → f.last_inode < nr_inode
      → k < nr_inode
      → IsFree (f.inode_table k)
      → (node i f).i_count ≢ 0
      → IsThere dev nr i f
      → (e : ℕ) × (v : Fs) × (iget io away now fuel dev nr f ≡ ok (v, i)) × IsShared i e f v
  unfolding iget
  iget-IsShared zero dev nr i k f device lt last small free used h = absurd (omega (arith, lt))
  iget-IsShared (suc fuel) dev nr i k f device lt last small free used h =
      let (e, inside, unused, got) = get_empty_inode-taken io away now fuel k f last small free in
      let other : i ≢ e =
        λ same. used (subst (λ e. (node e f).i_count ≡ 0) (sym same) unused.unused) in
      let nonzero : (dev == 0) ≡ false = ground (arith, device) in
      let there = taken-IsThere dev nr i e f device other h in
      let found =
        search_inodes-found i (suc fuel) dev nr e 0 i (taken e f) lt (omega arith) there
          (update_same f.inode_table e new_slot) other in
      (
        e,
        count_down e (count_up i (taken e f)),
        rw (nonzero, got, ◌>>=◌) found,
        counted_IsShared i e f other inside unused,
      )
