-- ===== src/Sched/Tick.antt =====
-- kernel/sched.c: `pause`, the motors of the floppy drives, and `do_timer`, the clock interrupt.
--
-- `run` stands for what the function of a timer does, `stop_beep` for `sysbeepstop`. The loop that
-- calls the functions runs on fuel, since they may add timers. `current_DOR` is also what `outb`
-- last wrote to the port.
use linux_0_11_comments.Sched.{schedule}
use linux_0_11_comments.Sched.Timer.{Timer}
use linux_0_11_comments.Sched.Sleep.{wake_up}
use linux_0_11_comments.Kernel.{task_interruptible, modify_current, hz, current_task, Kernel}
use linux_0_11_comments.Common.{
  ltb, leb, ◌==◌, if◌then◌else◌, update, ℤ, ◌+ℤ◌, ◌-ℤ◌, ltb_ℤ, eq_ℤ, pos, Bits, set_bit, clear_bit,
  Run, ◌>>=◌, floppy_number, ok, panic, out_of_fuel, ℕ, zero, suc, ◌+◌, ◌*◌, ◌/◌, ◌%◌, Bool, true,
  false, ◌&&◌, ◌||◌, not, Option, List, [], ◌∷◌,
}

pub record Clock : Type 0 where
  pub kernel : Kernel
  pub timers : List Timer
  pub beepcount : ℤ
  pub current_dor : Bits
  pub mon_timer : ℕ → ℤ
  pub moff_timer : ℕ → ℤ
  pub wait_motor : ℕ → Option ℕ

unfoldable pub sys_pause : (Kernel → Kernel) → Kernel → Run (Kernel × ℤ)
sys_pause away k = do
  k ← schedule (modify_current (λ t. record t { state = task_interruptible }) k)
  ok (away k, pos 0)

-- wake_up(i+wait_motor)
abbrev pub wake_motor : ℕ → Clock → Clock
wake_motor i c =
    let w = wake_up (record { kernel = c.kernel; head = c.wait_motor i }) in
    record c { kernel = w.kernel; wait_motor = update c.wait_motor i w.head }

-- Are the first eight bits the same?
unfoldable pub same_bits : ℕ → Bits → Bits → Bool
same_bits zero v w = true
same_bits (suc n) v w = (if v n then w n else not (w n)) && same_bits n v w

-- `selected` is the variable of floppy.c.
unfoldable pub ticks_to_floppy_on : Bool → ℕ → Clock → Run (Clock × ℤ)
ticks_to_floppy_on selected nr c =
    if ltb 3 nr
    then panic floppy_number
    else let old = c.current_dor in
      let wanted = set_bit old (4 + nr) in
      let mask = if selected then wanted else λ i.
      if i == 0 then nr % 2 == 1 else if i == 1 then leb 2 nr else wanted i in
      let moff = update c.moff_timer nr (pos 10000) in
      let left = c.mon_timer nr in
      let next =
        if same_bits 8 mask old
        then left
        else if not (old (4 + nr))
        then pos (hz / 2)
        else if ltb_ℤ left (pos 2)
        then pos 2
        else left in
      ok (
        record c { moff_timer = moff; mon_timer = update c.mon_timer nr next; current_dor = mask },
        next,
      )

unfoldable pub floppy_off : ℕ → Clock → Clock
floppy_off nr c = record c { moff_timer = update c.moff_timer nr (pos (3 * hz)) }

-- The body of do_floppy_timer for drive `i`.
unfoldable pub motor_tick : ℕ → Clock → Clock
motor_tick i c =
    let mon = c.mon_timer i in
    let moff = c.moff_timer i in
    if not (c.current_dor (4 + i))
    then c
    else if not (eq_ℤ mon (pos 0))
    then (let c' = record c { mon_timer = update c.mon_timer i (mon -ℤ pos 1) } in
        if eq_ℤ (mon -ℤ pos 1) (pos 0) then wake_motor i c' else c')
    else if eq_ℤ moff (pos 0)
    then record c { current_dor = clear_bit c.current_dor (4 + i) }
    else record c { moff_timer = update c.moff_timer i (moff -ℤ pos 1) }

unfoldable pub do_floppy_timer : Clock → Clock
do_floppy_timer c = motor_tick 3 (motor_tick 2 (motor_tick 1 (motor_tick 0 c)))

module _ (run : ℕ → Clock → Clock) (stop_beep : Clock → Clock) where
  -- while (next_timer && next_timer->jiffies <= 0)
  unfoldable pub call_due : ℕ → Clock → Run Clock
  call_due zero c = out_of_fuel
  call_due (suc fuel) c = elim (c.timers) [
    | [] ↦ ok c
    | t ∷ rest ↦ elim (ltb_ℤ (pos 0) t.jiffies) [
      | true ↦ ok c
      | false ↦ call_due fuel (run t.fn (record c { timers = rest }))
    ]
  ]

  unfoldable pub tick_timers : ℕ → Clock → Run Clock
  tick_timers fuel c = elim (c.timers) [
    | [] ↦ ok c
    | t ∷ rest ↦
        call_due fuel (record c { timers = record t { jiffies = t.jiffies -ℤ pos 1 } ∷ rest })
  ]

  abbrev pub tick_beep : Clock → Clock
  tick_beep c =
      if eq_ℤ c.beepcount (pos 0)
      then c
      else let c' = record c { beepcount = c.beepcount -ℤ pos 1 } in
        if eq_ℤ c'.beepcount (pos 0) then stop_beep c' else c'

  -- current->utime++, or current->stime++ in the kernel
  abbrev pub charge : ℕ → Kernel → Kernel
  charge cpl k =
      modify_current
        (λ t.
          if cpl == 0
          then record t { stime = t.stime +ℤ pos 1 }
          else record t { utime = t.utime +ℤ pos 1 })
        k

  -- The part of do_timer from `--current->counter` on.
  unfoldable pub use_slice : ℕ → Clock → Run Clock
  use_slice cpl c =
      let left = (current_task c.kernel).counter -ℤ pos 1 in
      let set : ℤ → Kernel = λ n. modify_current (λ t. record t { counter = n }) c.kernel in
      if ltb_ℤ (pos 0) left
      then ok (record c { kernel = set left })
      else if cpl == 0
      then ok (record c { kernel = set (pos 0) })
      else (schedule (set (pos 0)) >>= λ k. ok (record c { kernel = k }))

  unfoldable pub do_timer : ℕ → ℕ → Clock → Run Clock
  do_timer fuel cpl c = do
    let beeped : Clock = tick_beep c
    c ← tick_timers fuel (record beeped { kernel = charge cpl beeped.kernel })
    let motors : Bool = c.current_dor 4 || c.current_dor 5 || c.current_dor 6 || c.current_dor 7
    use_slice cpl (if motors then do_floppy_timer c else c)
