-- ===== src/Files/Descriptors.antt =====
-- Which descriptors `dup`, `fcntl` and `pipe` give out (fs/fcntl.c, fs/pipe.c).
use linux_0_11_comments.Files.{
  set_filp, filp, set_cloexec, set_filp, set_file, current_task, filp, nr_open, open_file, Files,
  dupfd, free_descriptor,
}
use native.Mathlib.Decide.{dec_le}
use linux_0_11_comments.Common.{
  leb, ◌==◌, if◌then◌else◌, Option-cases, ==_self, ℤ, pos, clear_bit, ℕ, zero, suc, ◌+◌, ◌-◌, ◌%◌,
  ◌^◌, ◌≤◌, ◌<◌, ◌≡◌, refl, ◌≢◌, inl, inr, false, Option, none, some, arith,
}

free_descriptor-some :
    (n i : ℕ) (fds : ℕ → Option ℕ) (j : ℕ)
    → free_descriptor n i fds ≡ some j
    → (i ≤ j) × (j < i + n) × (fds j ≡ none) × ((x : ℕ) → i ≤ x → x < j → fds x ≢ none)
unfolding free_descriptor
free_descriptor-some zero i fds j h = cc
free_descriptor-some (suc n) i fds j h = elim (Option-cases (fds i)) [
  | inl e ↦
      let at : i ≡ j = ground (arith, h, e) in
      (omega arith, omega arith, rw at at e, λ x a b. absurd (omega arith))
  | inr (f, e) ↦
      let h' : free_descriptor n (i + 1) fds ≡ some j = rw (e, free_descriptor) at h in
      let rest = free_descriptor-some n (i + 1) fds j h' in
      (
        omega (arith, rest.0),
        omega (arith, rest.1),
        rest.2,
        λ x a b. elim (dec_le (i + 1) x) [
          | yes c ↦ rest.3 x c b
          | no c ↦ let at : i ≡ x = omega arith in λ gone. ground (arith, rw at at e, gone)
        ],
      )
]

free_descriptor-none :
    (n i : ℕ) (fds : ℕ → Option ℕ) (j : ℕ)
    → free_descriptor n i fds ≡ none
    → i ≤ j
    → j < i + n
    → fds j ≢ none
unfolding free_descriptor
free_descriptor-none zero i fds j h a b = absurd (omega arith)
free_descriptor-none (suc n) i fds j h a b = elim (Option-cases (fds i)) [
  | inl e ↦ absurd (ground (arith, h, e))
  | inr (f, e) ↦
      let h' : free_descriptor n (i + 1) fds ≡ none = rw (e, free_descriptor) at h in
      elim (dec_le (i + 1) j) [
        | yes c ↦ free_descriptor-none n (i + 1) fds j h' c (omega arith)
        | no c ↦ let at : i ≡ j = omega arith in λ gone. ground (arith, rw at at e, gone)
      ]
]

dupfd-found :
    (fd arg f i : ℕ) (w : Files)
    → open_file fd w ≡ some f
    → arg < nr_open
    → free_descriptor (nr_open - arg) arg (filp w) ≡ some i
    → dupfd fd arg w ≡ (
      set_file f
          (λ x. record x { f_count = (x.f_count + 1) % 2 ^ 16 })
          (set_filp i (some f) (set_cloexec (λ bits. clear_bit bits i) w)),
      pos i,
    )
unfolding dupfd
dupfd-found fd arg f i w o lt e =
    let fits : leb nr_open arg ≡ false = ground arith in rw (o, dupfd) (rw fits (rw e refl))

-- Duplicating an open descriptor, with some descriptor from `arg` on not open, returns the lowest
-- such descriptor. It then names the same file, which counts one reference more, it is not closed by
-- `execve`, and no other descriptor of the task changes.
pub dupfd-lowest :
    (fd arg f free : ℕ) (w : Files)
    → open_file fd w ≡ some f
    → arg ≤ free
    → free < nr_open
    → filp w free ≡ none
    → (w.file f).f_count < 65535
    → let r : Files × ℤ = dupfd fd arg w in
      (i : ℕ) × (r.1 ≡ pos i)
      × (arg ≤ i)
      × (filp w i ≡ none)
      × ((x : ℕ) → arg ≤ x → x < i → filp w x ≢ none)
      × ((x : ℕ) → filp r.0 x ≡ (if i == x then some f else filp w x))
      × ((current_task r.0.kernel).close_on_exec i ≡ false)
      × ((r.0.file f).f_count ≡ (w.file f).f_count + 1)
dupfd-lowest fd arg f free w o a b e fits =
    elim (Option-cases (free_descriptor (nr_open - arg) arg (filp w))) [
      | inl gone ↦
          absurd (free_descriptor-none (nr_open - arg) arg (filp w) free gone a (omega arith) e)
      | inr (i, here) ↦
          let found = free_descriptor-some (nr_open - arg) arg (filp w) i here in
          let eq = dupfd-found fd arg f i w o (omega arith) here in
          (
            i,
            rw eq refl,
            found.0,
            found.2,
            found.3,
            λ x. rw eq (ground (arith, ==_self w.kernel.current)),
            rw eq (ground (arith, ==_self w.kernel.current, ==_self i)),
            rw eq (ground (arith, ==_self f)),
          )
    ]
