-- ===== src/Inodes/Unique.antt =====
-- No inode stands twice in the table (fs/inode.c).
use linux_0_11_comments.Inodes.{set_slot, node, nr_inode, MemInode, Fs}
use linux_0_11_comments.Common.{
  elim-cases, Run, ◌>>=◌, ok, panic, exits, out_of_fuel, ℕ, ◌<◌, ◌≡◌, ◌≢◌, ◌⊎◌, inr, Bool, true,
  false, Option, none, some, arith,
}

-- What a run returns, if it returns, satisfies the predicate.
abbrev pub Ensures {ℓ} : {A : Type ℓ} → (A → Type 0) → Run A → Type 0
Ensures P (ok a) = P a
Ensures P (panic p) = Unit
Ensures P (exits code) = Unit
Ensures P out_of_fuel = Unit

pub Ensures-bind {ℓ κ} :
    {A : Type ℓ} {B : Type κ} (P : A → Type 0) (Q : B → Type 0) (m : Run A) (k : A → Run B)
    → Ensures P m
    → ((a : A) → P a → Ensures Q (k a))
    → Ensures Q (m >>= k)
Ensures-bind P Q (ok a) k h next = next a h
Ensures-bind P Q (panic p) k h next = tt
Ensures-bind P Q (exits code) k h next = tt
Ensures-bind P Q out_of_fuel k h next = tt

-- A step whose result does not matter
pub Ensures-any {ℓ κ} :
    {A : Type ℓ} {B : Type κ} (Q : B → Type 0) (m : Run A) (k : A → Run B)
    → ((a : A) → Ensures Q (k a))
    → Ensures Q (m >>= k)
Ensures-any Q (ok a) k next = next a
Ensures-any Q (panic p) k next = tt
Ensures-any Q (exits code) k next = tt
Ensures-any Q out_of_fuel k next = tt

-- Both outcomes of a test
pub elim-Ensures {ℓ} :
    {A : Type ℓ} (P : A → Type 0) (b : Bool) (x y : Run A)
    → (b ≡ true → Ensures P x)
    → (b ≡ false → Ensures P y)
    → Ensures P (elim b [ true ↦ x | false ↦ y ])
elim-Ensures P = elim-cases (Ensures P)

pub option-Ensures {ℓ κ} :
    {A : Type ℓ} {B : Type κ} (P : B → Type 0) (o : Option A) (x : Run B) (f : A → Run B)
    → Ensures P x
    → ((a : A) → Ensures P (f a))
    → Ensures P (elim o [ none ↦ x | some a ↦ f a ])
option-Ensures P none x f p q = p
option-Ensures P (some a) x f p q = q a

-- Two places of the table never hold the same inode of a device.
unfoldable pub UniqueTable : (ℕ → MemInode) → Type 0
UniqueTable table =
    (i j : ℕ)
    → i < nr_inode
    → j < nr_inode
    → (table i).inode.i_dev ≢ 0
    → (table i).inode.i_dev ≡ (table j).inode.i_dev
    → (table i).inode.i_num ≡ (table j).inode.i_num
    → i ≡ j

abbrev pub IsUnique : Fs → Type 0
IsUnique f = UniqueTable f.inode_table

-- A place that keeps its inode, and one that has none any more
pub set_slot-IsUnique :
    (i : ℕ) (s : MemInode) (f : Fs)
    → IsUnique f
    → (s.inode.i_dev ≡ 0)
      ⊎ ((s.inode.i_dev ≡ (node i f).i_dev) × (s.inode.i_num ≡ (node i f).i_num))
    → IsUnique (set_slot i s f)
unfolding UniqueTable
set_slot-IsUnique i s f h same a b la lb = let old = h a b la lb in ground (arith, old, same)

-- A step that keeps the table as it should be, if it returns
abbrev pub KeepsUnique : (Fs → Run Fs) → Type 0
KeepsUnique step = (f : Fs) → IsUnique f → Ensures IsUnique (step f)

pub bind-Keeping :
    (m : Run Fs) (k : Fs → Run Fs) → Ensures IsUnique m → KeepsUnique k → Ensures IsUnique (m >>= k)
bind-Keeping m k h next = Ensures-bind IsUnique IsUnique m k h next

-- An inode whose other fields change
pub same-IsUnique :
    (i : ℕ) (s : MemInode) (f : Fs)
    → IsUnique f
    → s.inode.i_dev ≡ (node i f).i_dev
    → s.inode.i_num ≡ (node i f).i_num
    → IsUnique (set_slot i s f)
same-IsUnique i s f h dev num = set_slot-IsUnique i s f h (inr (dev, num))

-- The first part of a result has the table as it should be.
abbrev pub FirstIsUnique : {A : Type 0} → Fs × A → Type 0
FirstIsUnique r = IsUnique r.0

abbrev pub TripleIsUnique : {A B : Type 0} → Fs × A × B → Type 0
TripleIsUnique r = IsUnique r.0
