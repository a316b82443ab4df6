-- ===== src/Exit/Wait.antt =====
-- What `waitpid` finds, and what it does with it.
use linux_0_11_comments.Common.{
  leb, ◌==◌, if◌then◌else◌, ==_iff, Bool-cases, update, ℤ, ◌+ℤ◌, Bits, ◌>>=◌, ok, ℕ, zero, suc, ◌≤◌,
  ◌≡◌, refl, ap, ◌∙◌, ◌≢◌, inl, inr, Bool, true, false, ◌||◌, none, some, [], ◌∷◌, ◌++◌, arith,
}
use native.Mathlib.Decide.{dec_le}
use linux_0_11_comments.Kernel.{Kernel}
use linux_0_11_comments.Sched.Choice.{check_tasks-present, IsFair, schedule-IsElected}
use linux_0_11_comments.Exit.{
  reap, free_task_page, modify_current, last_task, echild, World, sys_waitpid, release, is_awaited,
  Scan, stopped, zombie, nothing, scan,
}

-- The scan may go past a slot: no zombie, a stopped task only if those are not asked for, and any
-- other task raises the flag.
abbrev pub Passed : ℤ → Bool → Kernel → Bool → ℕ → Type 0
Passed pid untraced k flag i =
    is_awaited pid k i ≡ true
    → ((k.tasks i).state ≢ 3)
      × ((k.tasks i).state ≡ 4 → untraced ≡ false)
      × ((k.tasks i).state ≢ 4 → flag ≡ true)

-- What the scan of the slots n, ..., 1 must have found, for each of its answers.
abbrev pub Found : ℤ → Bool → Kernel → ℕ → Scan → Type 0
Found pid untraced k n (stopped i) =
    (1 ≤ i) × (i ≤ n) × (is_awaited pid k i ≡ true) × ((k.tasks i).state ≡ 4) × (untraced ≡ true)
Found pid untraced k n (zombie i) =
    (1 ≤ i) × (i ≤ n) × (is_awaited pid k i ≡ true) × ((k.tasks i).state ≡ 3)
Found pid untraced k n (nothing flag) = (i : ℕ) → 1 ≤ i → i ≤ n → Passed pid untraced k flag i

-- The flag stays up.
scan-flag :
    (pid : ℤ) (untraced : Bool) (k : Kernel) (n : ℕ) (b : Bool)
    → scan pid untraced k n true ≡ nothing b
    → b ≡ true
unfolding scan
scan-flag pid untraced k zero b h = cc
scan-flag pid untraced k (suc n) b h = ground (arith, scan-flag pid untraced k n b)

widen :
    (pid : ℤ) (untraced : Bool) (k : Kernel) (n : ℕ) (s : Scan)
    → Found pid untraced k n s
    → ((flag : Bool) → s ≡ nothing flag → Passed pid untraced k flag (suc n))
    → Found pid untraced k (suc n) s
widen pid untraced k n (stopped i) h p = (h.0, omega arith, h.2, h.3, h.4)
widen pid untraced k n (zombie i) h p = (h.0, omega arith, h.2, h.3)
widen pid untraced k n (nothing flag) h p = λ i a b. elim (dec_le i n) [
  | yes c ↦ h i a c
  | no c ↦ let e : suc n ≡ i = omega arith in rw e at (p flag refl)
]

-- The scan at a stopped task that is awaited.
stopped-Found :
    (pid : ℤ) (untraced : Bool) (k : Kernel) (n : ℕ) (flag : Bool)
    → is_awaited pid k (suc n) ≡ true
    → (k.tasks (suc n)).state ≡ 4
    → Found pid untraced k n (scan pid untraced k n flag)
    → Found pid untraced k
        (suc n)
        (if untraced then stopped (suc n) else scan pid untraced k n flag)
stopped-Found pid true k n flag a b h = (omega arith, omega arith, a, b, refl)
stopped-Found pid false k n flag a b h = widen pid false k n _ h (λ f e w. ground arith)

scan-Found :
    (pid : ℤ) (untraced : Bool) (k : Kernel) (n : ℕ) (flag : Bool)
    → Found pid untraced k n (scan pid untraced k n flag)
unfolding scan
scan-Found pid untraced k zero flag = λ i a b. absurd (omega arith)
scan-Found pid untraced k (suc n) flag =
    let s = (k.tasks (suc n)).state in
    elim (Bool-cases (is_awaited pid k (suc n))) [
      | inr a ↦ rw a (widen pid untraced k n _ (scan-Found pid untraced k n _) (λ f e w. cc))
      | inl a ↦ rw a (elim (Bool-cases (s == 4)) [
        | inl b ↦ rw b (
            stopped-Found pid untraced k n (flag || false) a (ground arith)
              (scan-Found pid untraced k n _))
        | inr b ↦ rw b (elim (Bool-cases (s == 3)) [
          | inl c ↦ rw c (omega arith, omega arith, a, ground arith)
          | inr c ↦ rw c (
              widen pid untraced k n _ (scan-Found pid untraced k n _)
                (λ f e w. ground (arith, scan-flag pid untraced k n f)))
        ])
      ])
    ]

scan-nothing :
    (pid : ℤ) (untraced : Bool) (k : Kernel) (n : ℕ) (flag : Bool)
    → ((i : ℕ) → is_awaited pid k i ≡ false)
    → scan pid untraced k n flag ≡ nothing flag
unfolding scan
scan-nothing pid untraced k zero flag h = refl
scan-nothing pid untraced k (suc n) flag h =
    rw (h (suc n)) (scan-nothing pid untraced k n (flag || false) h ∙ ap nothing (ground arith))

-- If no task is a child that `pid` means, `waitpid` fails with ECHILD at once, stores nothing and
-- changes nothing, whatever the options.
pub sys_waitpid-echild :
    (away : Kernel → Kernel) (fuel : ℕ) (pid : ℤ) (options : Bits) (w : World)
    → ((i : ℕ) → is_awaited pid w.kernel i ≡ false)
    → sys_waitpid away (suc fuel) pid options w ≡ ok (w, (echild, none))
unfolding sys_waitpid
sys_waitpid-echild away fuel pid options w h =
    rw (scan-nothing pid (options 1) w.kernel last_task false h, sys_waitpid)

-- The kernel when `release` calls `schedule`.
abbrev cleared : ℕ → Kernel → Kernel
cleared i k = record k { present = update k.present i false }

cleared-IsFair : (i : ℕ) (k : Kernel) → IsFair k → IsFair (cleared i k)
cleared-IsFair i k fair j h = let here : k.present j ≡ true = ground arith in fair j here

-- The accounting in `reap` leaves the tasks fair.
paid-IsFair :
    (k : Kernel) (u s : ℤ)
    → IsFair k
    → IsFair (modify_current (λ t. record t { cutime = t.cutime +ℤ u; cstime = t.cstime +ℤ s }) k)
paid-IsFair k u s fair j h = ground (arith, fair j, ==_iff k.current j)

release-ok :
    (away : Kernel → Kernel) (i : ℕ) (w : World)
    → 1 ≤ i
    → i ≤ 63
    → w.kernel.present i ≡ true
    → IsFair w.kernel
    → (k : Kernel) × (release away i w
        ≡ ok (record { kernel = away k; effects = w.effects ++ free_task_page i ∷ [] }))
      × (k.present i ≡ false)
unfolding release
release-ok away i w lo hi p fair =
    let (r, e, el, st) = schedule-IsElected (cleared i w.kernel) (cleared-IsFair i w.kernel fair) in
    let lo' : leb 1 i ≡ true = ground arith in
    let hi' : leb i 63 ≡ true = ground arith in
    (r, rw (lo', hi', p, e, ◌>>=◌) refl, st.present i ∙ check_tasks-present _ i ∙ ground arith)

reap-ok :
    (away : Kernel → Kernel) (i : ℕ) (w : World)
    → 1 ≤ i
    → i ≤ 63
    → w.kernel.present i ≡ true
    → IsFair w.kernel
    → (k : Kernel) × (k.present i ≡ false)
      × (reap away i w
          ≡ ok (
            record { kernel = away k; effects = w.effects ++ free_task_page i ∷ [] },
            ((w.kernel.tasks i).pid, some (w.kernel.tasks i).exit_code),
          ))
unfolding reap
reap-ok away i w lo hi p fair =
    let (k, e, gone) =
      release-ok away i
        (record w {
          kernel =
              modify_current
                (λ t. record t {
                  cutime = t.cutime +ℤ (w.kernel.tasks i).utime;
                  cstime = t.cstime +ℤ (w.kernel.tasks i).stime;
                })
                w.kernel;
        })
        lo hi p (paid-IsFair w.kernel _ _ fair) in
    (k, gone, rw (e, ◌>>=◌) refl)

-- With a child that `pid` means in the zombie state, and WUNTRACED not given, `waitpid` returns at
-- once, without sleeping: it releases one such zombie (its slot is empty and its page is freed when
-- the scheduler runs), returns its process number and stores its exit code.
pub sys_waitpid-zombie :
    (away : Kernel → Kernel) (fuel : ℕ) (pid : ℤ) (options : Bits) (w : World) (z : ℕ)
    → 1 ≤ z
    → z ≤ 63
    → is_awaited pid w.kernel z ≡ true
    → (w.kernel.tasks z).state ≡ 3
    → options 1 ≡ false
    → IsFair w.kernel
    → (i : ℕ) × (is_awaited pid w.kernel i ≡ true)
      × ((w.kernel.tasks i).state ≡ 3)
      × (k : Kernel) × (k.present i ≡ false)
      × (sys_waitpid away (suc fuel) pid options w
          ≡ ok (
            record { kernel = away k; effects = w.effects ++ free_task_page i ∷ [] },
            ((w.kernel.tasks i).pid, some (w.kernel.tasks i).exit_code),
          ))
unfolding sys_waitpid reap
sys_waitpid-zombie away fuel pid options w z lo hi a st o fair =
    go (scan pid (options 1) w.kernel last_task false) refl
      (scan-Found pid (options 1) w.kernel last_task false)
  where
    go :
        (s : Scan)
        → scan pid (options 1) w.kernel last_task false ≡ s
        → Found pid (options 1) w.kernel 63 s
        → (i : ℕ) × (is_awaited pid w.kernel i ≡ true)
          × ((w.kernel.tasks i).state ≡ 3)
          × (k : Kernel) × (k.present i ≡ false)
          × (sys_waitpid away (suc fuel) pid options w
              ≡ ok (
                record { kernel = away k; effects = w.effects ++ free_task_page i ∷ [] },
                ((w.kernel.tasks i).pid, some (w.kernel.tasks i).exit_code),
              ))
    go (stopped i) e h = let not_asked = h.4 in cc
    go (nothing flag) e h = absurd ((h z lo hi a).0 st)
    go (zombie i) e h =
        let (k, gone, r) = reap-ok away i w h.0 h.1 (ground arith) fair in
        (i, h.2, h.3, k, gone, rw (e, sys_waitpid) r)
