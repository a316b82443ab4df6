-- ===== src/Common/Runs.antt =====
-- A run of kernel code: it returns, it stops in `panic`, it ends the current task by `do_exit`, or
-- the loop's fuel is used up.

use Prim.Native.Nat.{ℕ}

-- The `panic` calls of the modelled code.
pub data Panic : Type 0 where
  task0_sleeping no_timer_free release_non_existent : Panic
  free_nonexistent_page free_free_page bad_alignment free_swapper : Panic
  tables_exist shared_page_exists not_rw_command : Panic
  separate_code_and_data bad_data_limit floppy_number close_free_file free_free_buffer : Panic
  no_memory bad_length bad_object bad_block bad_inode bad_bitmap null_buffer bad_file_block : Panic
  free_free_inode no_free_inodes no_inode_device unreadable_inode iget_device : Panic
  no_root_inode no_cwd_inode : Panic

pub data Run {ℓ} (A : Type ℓ) : Type ℓ where
  ok : A → Run A
  panic : Panic → Run A
  exits : ℕ → Run A
  out_of_fuel : Run A

infixl 5 ◌>>=◌ ◌>>◌
abbrev pub ◌>>=◌ {ℓ κ} : {A : Type ℓ} {B : Type κ} → Run A → (A → Run B) → Run B
ok a >>= f = f a
panic p >>= f = panic p
exits code >>= f = exits code
out_of_fuel >>= f = out_of_fuel

abbrev pub ◌>>◌ {ℓ} : {B : Type ℓ} → Run (Unit {0}) → Run B → Run B
m >> k = m >>= λ _. k
