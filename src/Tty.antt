-- ===== src/Tty.antt =====
-- include/linux/tty.h and kernel/chr_drv/tty_io.c: the queues of a terminal, the line discipline,
-- and reading and writing a terminal.
--
-- A character is a byte; where the source compares a `signed char`, bytes from 128 on are negative.
-- `write` stands for `tty->write`, which sends the characters of the write queue to the device.
-- Where the code sleeps, `away` stands for what other tasks and interrupts do until it is woken.
pub mod Queue
pub mod Cooked
pub mod Lines
pub mod Reading
pub mod Writing
pub mod Draining
mod Tests
use linux_0_11_comments.Sched.Sleep.{wake_up}
use linux_0_11_comments.Kernel.{sigquit, sigint, nr_tasks, Kernel}
use linux_0_11_comments.Common.{
  ltb, leb, ◌==◌, if◌then◌else◌, update, ℤ, ltb_ℤ, eq_ℤ, pos, set_bit, Run, ok, out_of_fuel, ℕ,
  zero, suc, ◌+◌, ◌-◌, ◌%◌, Bool, true, false, ◌&&◌, ◌||◌, not, Option, none, some, ◌>>=◌, ◌>>◌,
}

-- struct tty_queue; its field `data` is `lines`
pub record TtyQueue : Type 0 where
  pub lines : ℕ
  pub head : ℕ
  pub tail : ℕ
  pub proc_list : Option ℕ
  pub buf : ℕ → ℕ

-- INC(a), DEC(a)
abbrev pub inc : ℕ → ℕ
inc a = (a + 1) % 1024

abbrev pub dec : ℕ → ℕ
dec a = (a + 1023) % 1024

abbrev pub empty : TtyQueue → Bool
empty q = q.head == q.tail

-- CHARS(q), LEFT(q), FULL(q), LAST(q)
abbrev pub chars : TtyQueue → ℕ
chars q = (q.head + 1024 - q.tail) % 1024

abbrev pub left : TtyQueue → ℕ
left q = (q.tail + 2048 - q.head - 1) % 1024

abbrev pub full : TtyQueue → Bool
full q = left q == 0

abbrev pub last : TtyQueue → ℕ
last q = q.buf (dec q.head)

-- GETCH(q,c): the character, and the queue afterwards
abbrev pub getch : TtyQueue → ℕ × TtyQueue
getch q = (q.buf q.tail, record q { tail = inc q.tail })

abbrev pub putch : ℕ → TtyQueue → TtyQueue
putch c q = record q { buf = update q.buf q.head c; head = inc q.head }

-- The flags of c_iflag, c_oflag and c_lflag that the code tests, and c_cc.
pub record Termios : Type 0 where
  pub icrnl : Bool
  pub igncr : Bool
  pub inlcr : Bool
  pub iuclc : Bool
  pub opost : Bool
  pub onlcr : Bool
  pub ocrnl : Bool
  pub onlret : Bool
  pub olcuc : Bool
  pub icanon : Bool
  pub isig : Bool
  pub echo : Bool
  pub echoctl : Bool
  pub c_cc : ℕ → ℕ

-- struct tty_struct
pub record Tty : Type 0 where
  pub termios : Termios
  pub pgrp : ℤ
  pub stopped : Bool
  pub read_q : TtyQueue
  pub write_q : TtyQueue
  pub secondary : TtyQueue

pub record Terminal : Type 0 where
  pub tty : Tty
  pub kernel : Kernel

-- Is the `signed char` c the character c_cc[i]? Those are unsigned.
abbrev pub is_cc : ℕ → Termios → ℕ → Bool
is_cc i t c = ltb c 128 && c == t.c_cc i

abbrev pub is_intr : Termios → ℕ → Bool
is_intr = is_cc 0

abbrev pub is_quit : Termios → ℕ → Bool
is_quit = is_cc 1

abbrev pub is_erase : Termios → ℕ → Bool
is_erase = is_cc 2

abbrev pub is_kill : Termios → ℕ → Bool
is_kill = is_cc 3

abbrev pub is_eof : Termios → ℕ → Bool
is_eof = is_cc 4

abbrev pub is_start : Termios → ℕ → Bool
is_start = is_cc 8

abbrev pub is_stop : Termios → ℕ → Bool
is_stop = is_cc 9

-- c < 32, for a signed char
abbrev pub is_control : ℕ → Bool
is_control c = ltb c 32 || leb 128 c

abbrev pub to_lower : ℕ → ℕ
to_lower c = if leb b'A' c && leb c b'Z' then c + 32 else c

abbrev pub to_upper : ℕ → ℕ
to_upper c = if leb b'a' c && leb c b'z' then c - 32 else c

abbrev pub set_tty : (Tty → Tty) → Terminal → Terminal
set_tty f w = record w { tty = f w.tty }

abbrev pub set_secondary : (TtyQueue → TtyQueue) → Terminal → Terminal
set_secondary f = set_tty (λ t. record t { secondary = f t.secondary })

abbrev pub put_write : ℕ → Terminal → Terminal
put_write c = set_tty (λ t. record t { write_q = putch c t.write_q })

-- tty_intr(tty, mask), for the mask with the bit of the signal `sig`
unfoldable pub tty_intr : ℕ → Terminal → Terminal
tty_intr sig w = if not (ltb_ℤ (pos 0) w.tty.pgrp) then w else record w {
  kernel = record (w.kernel) {
    tasks = λ i.
        let t = w.kernel.tasks i in
        if w.kernel.present i && ltb i nr_tasks && eq_ℤ t.pgrp w.tty.pgrp
        then record t { signal = set_bit t.signal (sig - 1) }
        else t;
  };
}

-- What the loop of copy_to_cooked stores for a character, if anything.
unfoldable pub translate : Termios → ℕ → Option ℕ
translate t c =
    if c == 13 && not t.icrnl && t.igncr
    then none
    else (let c =
          if c == 13 then (if t.icrnl then 10 else c) else (if c == 10 && t.inlcr then 13 else c) in
        some (if t.iuclc then to_lower c else c))

-- Does the character end a line?
abbrev pub is_end : Termios → ℕ → Bool
is_end t c = c == 10 || is_eof t c

-- Is there no character of the current line in the secondary queue?
abbrev pub at_start : Terminal → Bool
at_start w = empty w.tty.secondary || is_end w.tty.termios (last w.tty.secondary)

-- The last character of the line is erased, with the echo of as many DEL as it took on the screen.
unfoldable pub erase_last : (Tty → Tty) → Terminal → Terminal
erase_last write w =
    let gone = last w.tty.secondary in
    let echoed =
      if w.tty.termios.echo
      then set_tty write (put_write 127 (if is_control gone then put_write 127 w else w))
      else w in
    set_secondary (λ q. record q { head = dec q.head }) echoed

-- The loop of KILL_CHAR, for `n` characters at most.
unfoldable pub kill_line : (Tty → Tty) → ℕ → Terminal → Terminal
kill_line write zero w = w
kill_line write (suc n) w = elim (at_start w) [
  | true ↦ w
  | false ↦ kill_line write n (erase_last write w)
]

unfoldable pub echo_char : (Tty → Tty) → ℕ → Terminal → Terminal
echo_char write c w =
    if w.tty.termios.echo
    then set_tty write (
        if c == 10
        then put_write 13 (put_write 10 w)
        else if is_control c
        then (if w.tty.termios.echoctl then put_write ((c + 64) % 256) (put_write b'^' w) else w)
        else put_write c w)
    else w

-- A character that ends a line is counted.
abbrev pub count_line : Termios → ℕ → TtyQueue → TtyQueue
count_line t c q = record q { lines = if is_end t c then (q.lines + 1) % 4294967296 else q.lines }

-- The end of the loop body: a character that is stored.
unfoldable pub store_char : (Tty → Tty) → ℕ → Terminal → Terminal
store_char write c w =
    let counted = set_secondary (count_line w.tty.termios c) w in
    set_secondary (putch c) (echo_char write c counted)

-- The loop body after GETCH and the translation.
unfoldable pub cook_char : (Tty → Tty) → ℕ → Terminal → Terminal
cook_char write c w =
    let t = w.tty.termios in
    if t.icanon && is_kill t c
    then kill_line write (chars w.tty.secondary) w
    else if t.icanon && is_erase t c
    then (if at_start w then w else erase_last write w)
    else if t.icanon && is_stop t c
    then set_tty (λ x. record x { stopped = true }) w
    else if t.icanon && is_start t c
    then set_tty (λ x. record x { stopped = false }) w
    else if t.isig && is_intr t c
    then tty_intr sigint w
    else if t.isig && is_quit t c
    then tty_intr sigquit w
    else store_char write c w

-- One run of the loop body.
unfoldable pub cook_next : (Tty → Tty) → Terminal → Terminal
cook_next write w =
    let (c, q) = getch w.tty.read_q in
    let taken = set_tty (λ t. record t { read_q = q }) w in
    elim (translate w.tty.termios c) [ none ↦ taken | some c ↦ cook_char write c taken ]

unfoldable pub cook_loop : (Tty → Tty) → ℕ → Terminal → Run Terminal
cook_loop write zero w = out_of_fuel
cook_loop write (suc fuel) w = elim (empty w.tty.read_q || full w.tty.secondary) [
  | true ↦ ok w
  | false ↦ cook_loop write fuel (cook_next write w)
]

-- wake_up(&tty->secondary.proc_list)
unfoldable pub wake_readers : Terminal → Terminal
wake_readers w =
    let woken = wake_up (record { kernel = w.kernel; head = w.tty.secondary.proc_list }) in
    set_secondary (λ q. record q { proc_list = woken.head }) (record w { kernel = woken.kernel })

unfoldable pub copy_to_cooked : (Tty → Tty) → Terminal → Run Terminal
copy_to_cooked write w = do
  cooked ← cook_loop write (suc (chars w.tty.read_q)) w
  ok (wake_readers cooked)
