-- ===== src/Inodes/Empty.antt =====
-- What get_empty_inode finds, and iget for an inode that is in memory (fs/inode.c).
use linux_0_11_comments.Cache.{Io}
use linux_0_11_comments.Inodes.Table.{iput}
use linux_0_11_comments.Inodes.{
  node, count_down, wait_on_inode, no_inode, empty_slot, set_slot, Fs, nr_inode, MemInode,
}
use linux_0_11_comments.Inodes.Get.{clean_inode, get_empty_inode, next_slot, find_empty}
use linux_0_11_comments.Common.{
  ◌==◌, Bool-cases, if-cases, ℤ, Run, ◌>>=◌, ok, ℕ, zero, suc, ◌+◌, ◌-◌, ◌%◌, ◌<◌, ◌≡◌, refl, sym,
  ap, subst, ◌≢◌, inl, inr, true, false, ◌||◌, Option, none, some, arith,
}

-- Nobody uses the place, and it can be taken at once.
pub record IsFree (s : MemInode) : Type 0 where
  pub unused : s.inode.i_count ≡ 0
  pub unchanged : s.inode.i_dirt ≡ false
  pub unlocked : s.i_lock ≡ false

-- The place at distance `m` behind `last`
abbrev pub behind : ℕ → ℕ → ℕ
behind last m = (last + 1 + m) % 32

behind-next_slot :
    (last m : ℕ) → last < nr_inode → m ≢ 0 → behind last m ≡ behind (next_slot last) (m - 1)
behind-next_slot last m small more = ground (arith, small, more)

behind-first : (last m : ℕ) → last < nr_inode → m ≡ 0 → behind last m ≡ next_slot last
behind-first last m small e = ground (arith, small, e)

-- The search finds a free place when there is one among the next `n`.
find_empty-IsFree :
    (table : ℕ → MemInode) (n m last : ℕ) (found : Option ℕ)
    → last < nr_inode
    → m < n
    → IsFree (table (behind last m))
    → (i : ℕ) × (i < nr_inode) × IsFree (table i) × (find_empty table n last found ≡ (i, some i))
unfolding find_empty
find_empty-IsFree table zero m last found small lt free = absurd (omega (arith, lt))
find_empty-IsFree table (suc n) m last found small lt free =
    let i = next_slot last in
    let inside : i < nr_inode = ground (arith, small) in
    let later : (found : Option ℕ)
        → m ≢ 0
        → (i : ℕ) × (i < nr_inode)
          × IsFree (table i)
          × (find_empty table n (next_slot last) found ≡ (i, some i)) =
      λ found more.
        find_empty-IsFree table n (m - 1) i found inside (omega (arith, lt, more))
          (subst (λ k. IsFree (table k)) (behind-next_slot last m small more) free) in
    let at_once : m ≡ 0 → IsFree (table i) =
      λ e. subst (λ k. IsFree (table k)) (behind-first last m small e) free in
    elim (Bool-cases ((table i).inode.i_count == 0)) [
      | inr used ↦
          rw (used, find_empty)
            (later found (λ e. absurd (ground (arith, used, (at_once e).unused))))
      | inl unused ↦ elim (Bool-cases ((table i).inode.i_dirt || (table i).i_lock)) [
        | inr free ↦
            rw (unused, free, find_empty)
              (
                i,
                inside,
                record {
                  unused = ground (arith, unused);
                  unchanged = ground (arith, free);
                  unlocked = ground (arith, free);
                },
                refl,
              )
        | inl busy ↦
            rw (unused, busy, find_empty)
              (later (some i)
                (λ e. absurd (ground (arith, busy, (at_once e).unchanged, (at_once e).unlocked))))
      ]
    ]

-- What get_empty_inode leaves at the place
abbrev pub new_slot : MemInode
new_slot = record empty_slot { inode = record no_inode { i_count = 1 } }

-- The state when get_empty_inode took place `i`
abbrev pub taken : ℕ → Fs → Fs
taken i f = set_slot i new_slot (record f { last_inode = i })

module _ (io : Io) (away : Fs → Fs) (now : ℤ) where
  pub wait_on_inode-unlocked :
      (fuel i : ℕ) (f : Fs)
      → (f.inode_table i).i_lock ≡ false
      → wait_on_inode away (suc fuel) i f ≡ ok f
  unfolding wait_on_inode
  wait_on_inode-unlocked fuel i f e = rw (e, wait_on_inode) refl

  clean_inode-clean :
      (fuel i : ℕ) (f : Fs)
      → (node i f).i_dirt ≡ false
      → clean_inode io away now (suc fuel) i f ≡ ok f
  unfolding clean_inode
  clean_inode-clean fuel i f e = rw (e, clean_inode) refl

  get_empty_inode-found :
      (fuel i : ℕ) (f : Fs)
      → find_empty f.inode_table nr_inode f.last_inode none ≡ (i, some i)
      → IsFree (f.inode_table i)
      → get_empty_inode io away now (suc fuel) f ≡ ok (taken i f, i)
  unfolding get_empty_inode
  get_empty_inode-found fuel i f e free =
      let v : Fs = record f { last_inode = i } in
      rw (ap (λ r. r.1) e, get_empty_inode)
        (rw (ap (λ r. r.0) e) (
          rw (wait_on_inode-unlocked fuel i v free.unlocked, ◌>>=◌)
            (rw (clean_inode-clean fuel i v free.unchanged, ◌>>=◌) (rw free.unused refl))))

  -- When a place of the table is not used, clean and not locked, get_empty_inode returns such a place,
  -- cleared and with one user, and changes nothing else but last_inode, which is that place.
  pub get_empty_inode-taken :
      (fuel k : ℕ) (f : Fs)
      → f.last_inode < nr_inode
      → k < nr_inode
      → IsFree (f.inode_table k)
      → (i : ℕ) × (i < nr_inode)
        × IsFree (f.inode_table i)
        × (get_empty_inode io away now (suc fuel) f ≡ ok (taken i f, i))
  get_empty_inode-taken fuel k f last small free =
      let there : behind f.last_inode ((k + 31 - f.last_inode) % 32) ≡ k =
        omega (arith, last, small) in
      let (i, lt, found, e) =
        find_empty-IsFree f.inode_table 32 ((k + 31 - f.last_inode) % 32) f.last_inode none last
          (omega arith) (subst (λ k. IsFree (f.inode_table k)) (sym there) free) in
      (i, lt, found, get_empty_inode-found fuel i f e found)

  -- An empty inode is given back.
  pub iput-empty :
      (fuel e : ℕ) (f : Fs)
      → (f.inode_table e).i_lock ≡ false
      → ((node e f).i_count == 0) ≡ false
      → (f.inode_table e).i_pipe ≡ false
      → ((node e f).i_dev == 0) ≡ true
      → iput io away now (suc fuel) (some e) f ≡ ok (count_down e f)
  unfolding iput
  iput-empty fuel e f lock count pipe dev =
      let P : Run Fs → Type 0 = λ r. r ≡ ok (count_down e f) in
      rw (wait_on_inode-unlocked fuel e f lock, ◌>>=◌)
        (if-cases P ((node e f).i_count == 0) _ _ (λ c. absurd (ground (arith, c, count)))
          (λ c.
            if-cases P ((f.inode_table e).i_pipe) _ _ (λ p. absurd (ground (arith, p, pipe)))
              (λ p.
                if-cases P ((node e f).i_dev == 0) _ _ (λ d. refl)
                  (λ d. absurd (ground (arith, d, dev))))))
