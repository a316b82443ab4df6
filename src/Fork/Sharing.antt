-- ===== src/Fork/Sharing.antt =====
-- The counts of the files and inodes that a new process shares (kernel/fork.c).
use linux_0_11_comments.Fork.{count_files, count_inode}
use linux_0_11_comments.Common.{
  ◌==◌, if◌then◌else◌, update, ℕ, zero, suc, ◌+◌, ◌%◌, ◌^◌, ◌<◌, ◌≡◌, refl, ap, ◌∙◌, Option, none,
  some, arith,
}

-- Whether a pointer is to the file or inode `x`, as a number
abbrev pub refers : Option ℕ → ℕ → ℕ
refers none x = 0
refers (some y) x = if y == x then 1 else 0

-- How many of the descriptors i, ..., i + n - 1 are of file `x`.
unfoldable pub uses : ℕ → ℕ → (ℕ → Option ℕ) → ℕ → ℕ
uses zero i filp x = 0
uses (suc n) i filp x = refers (filp i) x + uses n (i + 1) filp x

count_step :
    (o : Option ℕ) (c : ℕ → ℕ) (x : ℕ)
    → c x < 65536
    → count_inode o c x ≡ (c x + refers o x) % 65536
count_step none c x h = omega (arith, h)
count_step (some y) c x h = ground (arith, h)

count_file-eq :
    (o : Option ℕ) (c : ℕ → ℕ)
    → ◌≡◌ {A = ℕ → ℕ}
        (elim o [ none ↦ c | some f ↦ update c f ((c f + 1) % 2 ^ 16) ])
        (count_inode o c)
count_file-eq none c = refl
count_file-eq (some y) c = refl

pub count_files-uses :
    (n i : ℕ) (filp : ℕ → Option ℕ) (c : ℕ → ℕ) (x : ℕ)
    → c x < 65536
    → count_files n i filp c x ≡ (c x + uses n i filp x) % 65536
unfolding count_files uses
count_files-uses zero i filp c x h = omega (arith, h)
count_files-uses (suc n) i filp c x h =
    let first = count_step (filp i) c x h in
    let rest =
      count_files-uses n (i + 1) filp (count_inode (filp i) c) x (rw first (omega arith)) in
    ap (λ (d : ℕ → ℕ). count_files n (i + 1) filp d x) (count_file-eq (filp i) c)
    ∙ rest
    ∙ omega (arith, first)

pub count_inodes :
    (a b d : Option ℕ) (c : ℕ → ℕ) (x : ℕ)
    → c x < 65536
    → count_inode d (count_inode b (count_inode a c)) x
      ≡ (c x + refers a x + refers b x + refers d x) % 65536
count_inodes a b d c x h =
    let one = count_step a c x h in
    let two = count_step b (count_inode a c) x (rw one (omega arith)) in
    let three = count_step d (count_inode b (count_inode a c)) x (rw two (omega arith)) in
    three ∙ omega (arith, one, two)
