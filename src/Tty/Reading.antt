-- ===== src/Tty/Reading.antt =====
-- kernel/chr_drv/tty_io.c: `tty_read`, with the sleep of a reader or a writer of a terminal.
--
-- The terminal is that of the channel. The caller's buffer is a map from positions to bytes. The
-- loops that may sleep run on fuel.
use linux_0_11_comments.Sched.Sleep.{resume}
use linux_0_11_comments.Sched.{schedule}
use linux_0_11_comments.Kernel.{task_interruptible, modify_current, sigalrm, eintr}
use linux_0_11_comments.Tty.{
  left, is_end, set_tty, set_secondary, is_eof, TtyQueue, empty, getch, Tty, Terminal,
}
use linux_0_11_comments.Common.{
  ltb, leb, ◌==◌, if◌then◌else◌, update, ℤ, pos_part, ◌+ℤ◌, ltb_ℤ, eq_ℤ, pos, negsuc, clear_bit,
  any_bit, Run, ◌>>=◌, task0_sleeping, ok, panic, out_of_fuel, ℕ, zero, suc, ◌+◌, ◌-◌, ◌*◌, ◌%◌,
  Bool, true, false, ◌&&◌, ◌||◌, not, Option, none, some,
}

-- The queue that a task sleeps on.
pub data Side : Type 0 where
  cooked_side write_side : Side

abbrev pub queue_of : Side → Tty → TtyQueue
queue_of cooked_side t = t.secondary
queue_of write_side t = t.write_q

abbrev pub set_proc_list : Side → Option ℕ → Terminal → Terminal
set_proc_list cooked_side p = set_secondary (λ q. record q { proc_list = p })
set_proc_list write_side p =
    set_tty (λ t. record t { write_q = record (t.write_q) { proc_list = p } })

-- The `repeat` loop of interruptible_sleep_on(&queue->proc_list); `tmp` is the old head.
unfoldable pub sleep_loop : (Terminal → Terminal) → Side → ℕ → Option ℕ → Terminal → Run Terminal
sleep_loop away side zero tmp w = out_of_fuel
sleep_loop away side (suc fuel) tmp w = do
  k ← schedule (modify_current (λ t. record t { state = task_interruptible }) w.kernel)
  let woken : Terminal = away (record w { kernel = k })
  let first : Option ℕ = (queue_of side woken.tty).proc_list
  let other : Bool = elim first [ none ↦ false | some t ↦ not (t == woken.kernel.current) ]
  elim other [
    | true ↦ sleep_loop away side fuel tmp (record woken { kernel = resume first woken.kernel })
    | false ↦ ok (set_proc_list side none (record woken { kernel = resume tmp woken.kernel }))
  ]

unfoldable pub sleep_on_queue : (Terminal → Terminal) → Side → ℕ → Terminal → Run Terminal
sleep_on_queue away side fuel w =
    if w.kernel.current == 0
    then panic task0_sleeping
    else sleep_loop away side fuel (queue_of side w.tty).proc_list
        (set_proc_list side (some w.kernel.current) w)

-- current->signal, as a condition
abbrev pub has_signal : Terminal → Bool
has_signal w = any_bit 32 (w.kernel.tasks w.kernel.current).signal

unfoldable pub sleep_if_empty : (Terminal → Terminal) → Side → ℕ → Terminal → Run Terminal
sleep_if_empty away side zero w = out_of_fuel
sleep_if_empty away side (suc fuel) w = elim (not (has_signal w) && empty (queue_of side w.tty)) [
  | true ↦ sleep_on_queue away side fuel w >>= λ w. sleep_if_empty away side fuel w
  | false ↦ ok w
]

-- wait_for_keypress, for the terminal of channel 0
unfoldable pub wait_for_keypress : (Terminal → Terminal) → ℕ → Terminal → Run Terminal
wait_for_keypress away fuel w = sleep_if_empty away cooked_side fuel w

-- The state of a read: the terminal, the caller's buffer, the position in it, the count left, and
-- whether an end of file was read.
pub record Reading : Type 0 where
  pub terminal : Terminal
  pub buf : ℕ → ℕ
  pub position : ℕ
  pub nr : ℕ
  pub at_eof : Bool

-- GETCH and the count of the lines.
unfoldable pub take_cooked : Terminal → ℕ × Terminal
take_cooked w =
    let (c, q) = getch w.tty.secondary in
    (
      c,
      set_secondary
          (λ old. record q {
            lines = if is_end w.tty.termios c then (q.lines + 4294967295) % 4294967296 else q.lines;
          })
          w,
    )

abbrev pub reading : Bool → ℕ → (ℕ → ℕ) → ℕ → Terminal → Reading
reading eof n buf b w = record { terminal = w; buf = buf; position = b; nr = n; at_eof = eof }

-- The do loop, with `n` more characters wanted after the first one.
unfoldable pub drain : ℕ → (ℕ → ℕ) → ℕ → Terminal → Reading
drain zero buf b w =
    let (c, taken) = take_cooked w in
    if is_eof w.tty.termios c && w.tty.termios.icanon
    then reading true 1 buf b taken
    else reading false 0 (update buf b c) (b + 1) taken
drain (suc n) buf b w =
    let (c, taken) = take_cooked w in
    elim (is_eof w.tty.termios c && w.tty.termios.icanon) [
      | true ↦ reading true (suc (suc n)) buf b taken
      | false ↦ elim (empty taken.tty.secondary) [
        | true ↦ reading false (suc n) (update buf b c) (b + 1) taken
        | false ↦ drain n (update buf b c) (b + 1) taken
      ]
    ]

abbrev pub set_alarm : ℤ → Terminal → Terminal
set_alarm a w = record w { kernel = modify_current (λ t. record t { alarm = a }) w.kernel }

-- The alarm that ends a read after `time`, if none is due before: the flag and the terminal.
unfoldable pub start_timeout : ℕ → ℤ → Terminal → Bool × Terminal
start_timeout time oldalarm w =
    let due = pos time +ℤ w.kernel.jiffies in
    if eq_ℤ oldalarm (pos 0) || ltb_ℤ due oldalarm then (true, set_alarm due w) else (false, w)

-- The end of tty_read.
unfoldable pub end_read : ℤ → (ℕ → ℕ) → ℕ → Terminal → Terminal × (ℕ → ℕ) × ℤ
end_read oldalarm buf b w =
    let w = set_alarm oldalarm w in (w, buf, if has_signal w && b == 0 then eintr else pos b)

-- The alarm of a read that goes on after the do loop.
unfoldable pub renew_timeout : ℕ → ℤ → Bool → Terminal → Bool × Terminal
renew_timeout time oldalarm flag w =
    if not (time == 0) && not w.tty.termios.icanon
    then (let (flag, started) = start_timeout time oldalarm w in
        (flag, if flag then started else set_alarm oldalarm w))
    else (flag, w)

-- The while loop, for the wanted minimum; the result is the terminal, the buffer and the value.
unfoldable pub collect_loop :
    (Terminal → Terminal)
    → ℕ
    → ℕ
    → ℕ
    → ℤ
    → Bool
    → ℕ
    → (ℕ → ℕ)
    → ℕ
    → Terminal
    → Run (Terminal × (ℕ → ℕ) × ℤ)
collect_loop away zero time minimum oldalarm flag nr buf b w = out_of_fuel
collect_loop away (suc fuel) time minimum oldalarm flag zero buf b w =
    ok (end_read oldalarm buf b w)
collect_loop away (suc fuel) time minimum oldalarm flag (suc n) buf b w =
    let t = w.tty.termios in
    let q = w.tty.secondary in
    elim (flag && (w.kernel.tasks w.kernel.current).signal (sigalrm - 1)) [
      | true ↦
          let clear =
            modify_current (λ t. record t { signal = clear_bit t.signal (sigalrm - 1) }) w.kernel in
          ok (end_read oldalarm buf b (record w { kernel = clear }))
      | false ↦ elim (has_signal w) [
        | true ↦ ok (end_read oldalarm buf b w)
        | false ↦ elim (empty q || t.icanon && q.lines == 0 && ltb 20 (left q)) [
          | true ↦ sleep_if_empty away cooked_side fuel w >>= λ w.
              collect_loop away fuel time minimum oldalarm flag (suc n) buf b w
          | false ↦
              let r = drain n buf b w in
              elim (r.at_eof) [
                | true ↦ ok (r.terminal, r.buf, pos r.position)
                | false ↦
                    let (flag, v) = renew_timeout time oldalarm flag r.terminal in
                    elim (if t.icanon then not (r.position == 0) else leb minimum r.position) [
                      | true ↦ ok (end_read oldalarm r.buf r.position v)
                      | false ↦
                          collect_loop away fuel time minimum oldalarm flag r.nr r.buf r.position v
                    ]
              ]
        ]
      ]
    ]

unfoldable pub tty_read :
    (Terminal → Terminal) → ℕ → ℕ → (ℕ → ℕ) → ℤ → Terminal → Run (Terminal × (ℕ → ℕ) × ℤ)
tty_read away fuel channel buf nr w =
    if ltb 2 channel || ltb_ℤ nr (pos 0)
    then ok (w, buf, negsuc 0)
    else (let oldalarm = (w.kernel.tasks w.kernel.current).alarm in
        let time = 10 * w.tty.termios.c_cc 5 in
        let least = w.tty.termios.c_cc 6 in
        let timed = not (time == 0) && least == 0 in
        let (flag, started) = if timed then start_timeout time oldalarm w else (false, w) in
        let minimum = if timed then 1 else least in
        let count = pos_part nr in
        collect_loop away fuel time (if ltb count minimum then count else minimum) oldalarm flag
          count buf 0 started)
