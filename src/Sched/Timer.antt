-- ===== src/Sched/Timer.antt =====
-- kernel/sched.c: the timer list of `add_timer` and `do_timer`.
--
-- The list from `next_timer` on, along `next`, is a list of its functions with their `jiffies`,
-- which count from the timer before. An entry of `timer_list` is in use exactly while it is in that
-- list, so that there is a free one while it is shorter than 64.
use linux_0_11_comments.Common.{
  leb, if◌then◌else◌, Bool-cases, ℤ, ◌+ℤ◌, ◌-ℤ◌, ◌≤ℤ◌, ◌<ℤ◌, ltb_ℤ, int_laws, pos, Run,
  no_timer_free, ok, panic, length, All, ℕ, ◌≡◌, refl, ap, ◌∙◌, subst, inl, inr, Bool, true, false,
  not, Option, none, some, List, [], ◌∷◌, ◌++◌, arith,
}

pub record Timer : Type 0 where
  pub fn : ℕ
  pub jiffies : ℤ

abbrev pub time_requests : ℕ
time_requests = 64

-- The loop of add_timer at `p`, with the rest of the list behind it: while the next entry is
-- earlier, the functions are exchanged, and the new one waits the difference.
unfoldable pub sift : Timer → List Timer → List Timer
sift p [] = p ∷ []
sift p (q ∷ rest) =
    if ltb_ℤ q.jiffies p.jiffies
    then q ∷ sift (record p { jiffies = p.jiffies -ℤ q.jiffies }) rest
    else p ∷ q ∷ rest

-- The new list, and whether `fn` was called at once.
unfoldable pub add_timer : ℤ → Option ℕ → List Timer → Run (List Timer × Bool)
add_timer jiffies none timers = ok (timers, false)
add_timer jiffies (some fn) timers =
    if not (ltb_ℤ (pos 0) jiffies)
    then ok (timers, true)
    else if leb time_requests (length timers)
    then panic no_timer_free
    else ok (sift (record { fn = fn; jiffies = jiffies }) timers, false)

-- When each function of a list is due, from `now` on.
unfoldable pub due_times : ℤ → List Timer → List (ℕ × ℤ)
due_times now [] = []
due_times now (t ∷ ts) = (t.fn, now +ℤ t.jiffies) ∷ due_times (now +ℤ t.jiffies) ts

-- The time at the end of a list.
abbrev pub due_end : ℤ → List Timer → ℤ
due_end now [] = now
due_end now (t ∷ ts) = due_end (now +ℤ t.jiffies) ts

-- Every timer of a list waits at least 0.
abbrev pub NotNegative : List Timer → Type 0
NotNegative ts = All (λ t. pos 0 ≤ℤ t.jiffies) ts

-- In a list of waits that are at least 0, no timer is due before the time the list starts from.
due_times-All :
    (due now : ℤ) (ts : List Timer)
    → due ≤ℤ now
    → NotNegative ts
    → All (λ (x : ℕ × ℤ). due ≤ℤ x.1) (due_times now ts)
unfolding due_times
due_times-All due now [] le h = tt
due_times-All due now (t ∷ ts) le (first, rest) =
    let later : due ≤ℤ now +ℤ t.jiffies = omega (int_laws, le, first) in
    (later, due_times-All due (now +ℤ t.jiffies) ts later rest)

-- The place of a new timer `p` in a list at `now`: the timers `before` it are due earlier than it, and
-- those `after` it were due at the same time or later. It waits for `d` more at its place, a positive
-- time; the timers before it keep their times, and those behind it are due later by `d`.
pub record IsSifted (now : ℤ) (p : Timer) (timers before after : List Timer) (d : ℤ) : Type 0 where
  pub split : timers ≡ before ++ after
  pub times :
      due_times now (sift p timers)
      ≡ due_times now before ++ (p.fn, now +ℤ p.jiffies) ∷ due_times (due_end now before +ℤ d) after
  pub wait : due_end now before +ℤ d ≡ now +ℤ p.jiffies
  pub positive : pos 0 <ℤ d
  pub earlier : All (λ (x : ℕ × ℤ). x.1 <ℤ now +ℤ p.jiffies) (due_times now before)
  pub not_earlier :
      All (λ (x : ℕ × ℤ). now +ℤ p.jiffies ≤ℤ x.1) (due_times (due_end now before) after)

here_IsSifted :
    (now : ℤ) (p : Timer) (timers : List Timer)
    → sift p timers ≡ p ∷ timers
    → pos 0 <ℤ p.jiffies
    → All (λ (x : ℕ × ℤ). now +ℤ p.jiffies ≤ℤ x.1) (due_times now timers)
    → IsSifted now p timers [] timers p.jiffies
unfolding due_times
here_IsSifted now p timers e positive later = record {
  split = refl;
  times = rw e refl;
  wait = refl;
  positive = positive;
  earlier = tt;
  not_earlier = later;
}

behind_IsSifted :
    (now : ℤ) (p q : Timer) (rest before after : List Timer) (d : ℤ)
    → ltb_ℤ q.jiffies p.jiffies ≡ true
    → IsSifted
        (now +ℤ q.jiffies)
        (record p { jiffies = p.jiffies -ℤ q.jiffies })
        rest
        before
        after
        d
    → IsSifted now p (q ∷ rest) (q ∷ before) after d
unfolding sift due_times
behind_IsSifted now p q rest before after d e h =
    let same : now +ℤ q.jiffies +ℤ (p.jiffies -ℤ q.jiffies) ≡ now +ℤ p.jiffies = omega int_laws in
    let sooner : q.jiffies <ℤ p.jiffies = ground (arith, e) in
    record {
      split = ap (λ l. q ∷ l) h.split;
      times = rw e (ap (λ l. (q.fn, now +ℤ q.jiffies) ∷ l) (rw same at h.times));
      wait = h.wait ∙ same;
      positive = h.positive;
      earlier = (
        omega (int_laws, sooner),
        subst (λ due. All (λ (x : ℕ × ℤ). x.1 <ℤ due) (due_times (now +ℤ q.jiffies) before)) same
            h.earlier,
      );
      not_earlier =
          subst
            (λ due.
              All (λ (x : ℕ × ℤ). due ≤ℤ x.1) (due_times (due_end (now +ℤ q.jiffies) before) after))
            same h.not_earlier;
    }

-- When all timers of the list wait at least 0, a new timer that waits more than 0 comes behind exactly
-- those that are due before it, and is due after exactly the `jiffies` asked for. The timers before it
-- keep their times. The timers behind it are due later than before, by the positive wait `d` that is
-- left for the new one at its place: `add_timer` does not subtract it from the next entry.
pub sift-due_times :
    (now : ℤ) (p : Timer) (timers : List Timer)
    → pos 0 <ℤ p.jiffies
    → NotNegative timers
    → (before : List Timer) × (after : List Timer) × (d : ℤ) × IsSifted now p timers before after d
unfolding sift due_times
sift-due_times now p [] positive h = ([], [], p.jiffies, here_IsSifted now p [] refl positive tt)
sift-due_times now p (q ∷ rest) positive (first, others) =
    elim (Bool-cases (ltb_ℤ q.jiffies p.jiffies)) [
      | inr e ↦
          let far : p.jiffies ≤ℤ q.jiffies = ground (arith, e) in
          let due : now +ℤ p.jiffies ≤ℤ now +ℤ q.jiffies = omega (int_laws, far) in
          (
            [],
            q ∷ rest,
            p.jiffies,
            here_IsSifted now p (q ∷ rest) (rw e refl) positive
                (due, due_times-All (now +ℤ p.jiffies) (now +ℤ q.jiffies) rest due others),
          )
      | inl e ↦
          let sooner : q.jiffies <ℤ p.jiffies = ground (arith, e) in
          let left : pos 0 <ℤ (p.jiffies -ℤ q.jiffies) = omega (int_laws, sooner) in
          let (before, after, d, rest_IsSifted) =
            sift-due_times (now +ℤ q.jiffies) (record p { jiffies = p.jiffies -ℤ q.jiffies }) rest
              left others in
          (q ∷ before, after, d, behind_IsSifted now p q rest before after d e rest_IsSifted)
    ]
