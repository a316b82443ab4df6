-- ===== src/Tty/Writing.antt =====
-- kernel/chr_drv/tty_io.c: `tty_write`.
--
-- `cr_flag` is the static variable, which all channels share. The caller's buffer is a map from
-- positions to bytes.
use linux_0_11_comments.Sched.{schedule}
use linux_0_11_comments.Tty.Reading.{sleep_on_queue, has_signal, queue_of, write_side, Side}
use linux_0_11_comments.Tty.{set_tty, left, to_upper, putch, Tty, full, Termios, Terminal, TtyQueue}
use linux_0_11_comments.Common.{
  ltb, ◌==◌, if◌then◌else◌, ℤ, pos_part, ltb_ℤ, pos, negsuc, Run, ◌>>=◌, ok, out_of_fuel, ℕ, zero,
  suc, ◌+◌, ◌-◌, Bool, true, false, ◌&&◌, ◌||◌, not,
}

-- The state of a write: the write queue, `cr_flag`, the position in the buffer and the count left.
pub record Writing : Type 0 where
  pub queue : TtyQueue
  pub cr_flag : Bool
  pub position : ℕ
  pub nr : ℕ

-- The first two tests of O_POST on a character.
unfoldable pub map_newline : Termios → ℕ → ℕ
map_newline t c = if c == 13 && t.ocrnl then 10 else if c == 10 && t.onlret then 13 else c

-- The body of the inner loop.
unfoldable pub write_char : Termios → (ℕ → ℕ) → Writing → Writing
write_char t buf s =
    let c = if t.opost then map_newline t (buf s.position) else buf s.position in
    if t.opost && c == 10 && not s.cr_flag && t.onlcr
    then record s { cr_flag = true; queue = putch 13 s.queue }
    else record {
      queue = putch (if t.opost && t.olcuc then to_upper c else c) s.queue;
      cr_flag = false;
      position = s.position + 1;
      nr = s.nr - 1;
    }

-- The inner loop, for `n` characters at most.
unfoldable pub fill_queue : Termios → (ℕ → ℕ) → ℕ → Writing → Writing
fill_queue t buf zero s = s
fill_queue t buf (suc n) s = elim (s.nr == 0 || full s.queue) [
  | true ↦ s
  | false ↦ fill_queue t buf n (write_char t buf s)
]

-- The loop of sleep_if_full, on fuel
unfoldable pub wait_for_room : (Terminal → Terminal) → Side → ℕ → Terminal → Run Terminal
wait_for_room away side zero w = out_of_fuel
wait_for_room away side (suc fuel) w =
    elim (not (has_signal w) && ltb (left (queue_of side w.tty)) 128) [
      | true ↦ sleep_on_queue away side fuel w >>= λ w. wait_for_room away side fuel w
      | false ↦ ok w
    ]

unfoldable pub sleep_if_full : (Terminal → Terminal) → Side → ℕ → Terminal → Run Terminal
sleep_if_full away side fuel w =
    if not (full (queue_of side w.tty)) then ok w else wait_for_room away side fuel w

-- The loop of tty_write, on fuel; the result is the terminal, `cr_flag` and the value. `away` stands
-- for what other tasks do while this one sleeps or is preempted, `write` for the device.
unfoldable pub send_loop :
    (Terminal → Terminal)
    → (Tty → Tty)
    → ℕ
    → (ℕ → ℕ)
    → Bool
    → ℕ
    → ℕ
    → Terminal
    → Run (Terminal × Bool × ℤ)
send_loop away write zero buf cr_flag b nr w = out_of_fuel
send_loop away write (suc fuel) buf cr_flag b zero w = ok (w, cr_flag, pos b)
send_loop away write (suc fuel) buf cr_flag b (suc n) w = do
  ready ← sleep_if_full away write_side fuel w
  elim (has_signal ready) [
    | true ↦ ok (ready, cr_flag, pos b)
    | false ↦
        let start : Writing = record {
          queue = ready.tty.write_q;
          cr_flag = cr_flag;
          position = b;
          nr = suc n;
        } in
        let s = fill_queue ready.tty.termios buf (left ready.tty.write_q) start in
        let sent = set_tty (λ t. write (record t { write_q = s.queue })) ready in
        elim (s.nr == 0) [
          | true ↦ ok (sent, s.cr_flag, pos s.position)
          | false ↦ schedule sent.kernel >>= λ k.
              send_loop away write fuel buf s.cr_flag s.position s.nr
                (away (record sent { kernel = k }))
        ]
  ]

unfoldable pub tty_write :
    (Terminal → Terminal)
    → (Tty → Tty)
    → ℕ
    → ℕ
    → (ℕ → ℕ)
    → ℤ
    → Bool
    → Terminal
    → Run (Terminal × Bool × ℤ)
tty_write away write fuel channel buf nr cr_flag w =
    if ltb 2 channel || ltb_ℤ nr (pos 0)
    then ok (w, cr_flag, negsuc 0)
    else send_loop away write fuel buf cr_flag 0 (pos_part nr) w
