-- ===== src/Pipe.antt =====
-- fs/pipe.c: reading and writing a pipe.
--
-- The page of the pipe is a map from offsets to bytes, the caller's buffer one from positions to
-- bytes; a `count` that is negative behaves as 0. The outer and the inner loop of both calls run on
-- one fuel. Where the code sleeps, `away` stands for what other tasks do until it is woken.
pub mod Queue
pub mod Writing
pub mod Reading
mod Tests
use linux_0_11_comments.Sched.{schedule}
use linux_0_11_comments.Kernel.{sigpipe, task_uninterruptible, modify_current, Kernel}
use linux_0_11_comments.Common.{
  ltb, leb, ◌==◌, if◌then◌else◌, ℤ, pos, negsuc, set_bit, Run, ◌>>=◌, task0_sleeping, ok, panic,
  out_of_fuel, ℕ, zero, suc, ◌+◌, ◌-◌, ◌%◌, true, false, ◌&&◌, not, Option, ◌>>◌,
}
use linux_0_11_comments.Sched.Sleep.{Waiting, wake_up, resume, fall_asleep}

-- The inode of a pipe: PIPE_HEAD, PIPE_TAIL, `i_count` and `i_wait`, with the kernel.
pub record Pipe : Type 0 where
  pub page : ℕ → ℕ
  pub head : ℕ
  pub tail : ℕ
  pub i_count : ℕ
  pub i_wait : Option ℕ
  pub kernel : Kernel

-- PIPE_SIZE
abbrev pub pipe_size : Pipe → ℕ
pipe_size p = (p.head + 4096 - p.tail) % 4096

abbrev pub waiting : Pipe → Waiting
waiting p = record { kernel = p.kernel; head = p.i_wait }

-- wake_up(&inode->i_wait)
abbrev pub wake_pipe : Pipe → Pipe
wake_pipe p = let w = wake_up (waiting p) in record p { kernel = w.kernel; i_wait = w.head }

-- sleep_on(&inode->i_wait)
unfoldable pub sleep_on_pipe : (Pipe → Pipe) → Pipe → Run Pipe
sleep_on_pipe away p = if p.kernel.current == 0 then panic task0_sleeping else (do
  let asleep : Waiting = fall_asleep task_uninterruptible (waiting p)
  k ← schedule asleep.kernel
  let woken : Pipe = away (record p { kernel = k; i_wait = asleep.head })
  ok (record woken { kernel = resume p.i_wait woken.kernel }))

-- `chars`, for the rest of the page, the count and the size.
abbrev pub chunk : ℕ → ℕ → ℕ → ℕ
chunk rest count size =
    let chars = if ltb count rest then count else rest in if ltb size chars then size else chars

-- The body of the outer loop of read_pipe: `chars` bytes go to the buffer from position `read` on.
unfoldable pub take_chars : ℕ → ℕ → (ℕ → ℕ) → Pipe → Pipe × (ℕ → ℕ)
take_chars chars read buf p = (
  record p { tail = (p.tail + chars) % 4096 },
  λ i. if leb read i && ltb i (read + chars) then p.page (p.tail + (i - read)) else buf i,
)

unfoldable pub read_loop : (Pipe → Pipe) → ℕ → ℕ → ℕ → (ℕ → ℕ) → Pipe → Run (Pipe × (ℕ → ℕ) × ℕ)
read_loop away zero count read buf p = out_of_fuel
read_loop away (suc fuel) zero read buf p = ok (wake_pipe p, buf, read)
read_loop away (suc fuel) (suc n) read buf p = elim (pipe_size p == 0) [
  | true ↦
      let p = wake_pipe p in
      if not (p.i_count == 2)
      then ok (p, buf, read)
      else (sleep_on_pipe away p >>= λ p. read_loop away fuel (suc n) read buf p)
  | false ↦
      let chars = chunk (4096 - p.tail) (suc n) (pipe_size p) in
      let (p, buf) = take_chars chars read buf p in
      read_loop away fuel (suc n - chars) (read + chars) buf p
]

-- The result is the pipe, the buffer and the return value.
unfoldable pub read_pipe : (Pipe → Pipe) → ℕ → (ℕ → ℕ) → ℕ → Pipe → Run (Pipe × (ℕ → ℕ) × ℕ)
read_pipe away fuel buf count p = read_loop away fuel count 0 buf p

-- The body of the outer loop of write_pipe, from position `written` of the buffer on.
unfoldable pub put_chars : ℕ → ℕ → (ℕ → ℕ) → Pipe → Pipe
put_chars chars written buf p = record p {
  head = (p.head + chars) % 4096;
  page = λ i.
      if leb p.head i && ltb i (p.head + chars) then buf (written + (i - p.head)) else p.page i;
}

unfoldable pub write_loop : (Pipe → Pipe) → ℕ → ℕ → ℕ → (ℕ → ℕ) → Pipe → Run (Pipe × ℤ)
write_loop away zero count written buf p = out_of_fuel
write_loop away (suc fuel) zero written buf p = ok (wake_pipe p, pos written)
write_loop away (suc fuel) (suc n) written buf p = elim (4095 - pipe_size p == 0) [
  | true ↦
      let p = wake_pipe p in
      if not (p.i_count == 2)
      then ok (
        record p {
          kernel =
              modify_current (λ t. record t { signal = set_bit t.signal (sigpipe - 1) }) p.kernel;
        },
        if written == 0 then negsuc 0 else pos written,
      )
      else (sleep_on_pipe away p >>= λ p. write_loop away fuel (suc n) written buf p)
  | false ↦
      let chars = chunk (4096 - p.head) (suc n) (4095 - pipe_size p) in
      write_loop away fuel (suc n - chars) (written + chars) buf (put_chars chars written buf p)
]

unfoldable pub write_pipe : (Pipe → Pipe) → ℕ → (ℕ → ℕ) → ℕ → Pipe → Run (Pipe × ℤ)
write_pipe away fuel buf count p = write_loop away fuel count 0 buf p
