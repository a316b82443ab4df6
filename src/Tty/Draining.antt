-- ===== src/Tty/Draining.antt =====
-- Reading the cooked characters of a terminal (kernel/chr_drv/tty_io.c).
use linux_0_11_comments.Tty.Queue.{IsLined}
use linux_0_11_comments.Tty.Reading.{Reading}
use linux_0_11_comments.Tty.{chars, empty, Terminal}
use linux_0_11_comments.Common.{if◌then◌else◌, ℕ, ◌+◌, ◌%◌, ◌≤◌, ◌<◌, ◌≡◌, ◌⊎◌, true}

-- What the do loop of tty_read does to the terminal `w` and to the caller's buffer `buf`, from the
-- position `b` on with `n` wanted.
pub record IsDrained (n : ℕ) (buf : ℕ → ℕ) (b : ℕ) (w : Terminal) (r : Reading) : Type 0 where
  pub forward : b ≤ r.position
  pub given :
      (j : ℕ)
      → b + j < r.position
      → r.buf (b + j) ≡ w.tty.secondary.buf ((w.tty.secondary.tail + j) % 1024)
  pub kept_before : (j : ℕ) → j < b → r.buf j ≡ buf j
  pub kept_behind : (j : ℕ) → r.position ≤ j → r.buf j ≡ buf j
  pub lined : IsLined w.tty.termios r.terminal.tty.secondary
  pub wanted : r.nr + r.position ≡ n + b
  pub taken :
      (if r.at_eof then 1 else 0) + r.position + chars r.terminal.tty.secondary
      ≡ b + chars w.tty.secondary
  pub stopped : (r.at_eof ≡ true) ⊎ (r.nr ≡ 0) ⊎ (empty r.terminal.tty.secondary ≡ true)
