-- ===== src/Block/Slots.antt =====
-- Which slot of `request[]` a request gets, and what `make_request` leaves behind.
use linux_0_11_comments.Common.{
  ◌==◌, if◌then◌else◌, Bool-cases, Option-cases, ==_self, ◌<ℤ◌, pos, ok, ℕ, zero, suc, ◌-◌, ◌<◌,
  ◌≡◌, refl, ◌∙◌, ◌≢◌, ◌⊎◌, inl, inr, Bool, true, false, ◌&&◌, ◌||◌, not, none, some, arith,
}
use linux_0_11_comments.Block.{
  Buffer, Request, Requests, read, write, find_slot, slots_for, fill_request, add_request,
  unlock_buffer, set_buffer, lock_buffer, queue_request, locked_request, make_request, reada,
  writea,
}

find_slot-some :
    (n : ℕ) (r : ℕ → Request) (i : ℕ) → find_slot n r ≡ some i → (i < n) × ((r i).dev <ℤ pos 0)
unfolding find_slot
find_slot-some zero r i h = cc
find_slot-some (suc n) r i h = ground (arith, find_slot-some n r i)

find_slot-free :
    (n : ℕ) (r : ℕ → Request) (i : ℕ) → i < n → (r i).dev <ℤ pos 0 → find_slot n r ≢ none
unfolding find_slot
find_slot-free zero r i h d = absurd (omega arith)
find_slot-free (suc n) r i h d = ground (arith, find_slot-free n r i)

lock_buffer-unlocked :
    (away : Requests → Requests) (fuel b : ℕ) (s : Requests)
    → (s.buffer b).b_lock ≡ false
    → lock_buffer away (suc fuel) b s ≡ ok (set_buffer b (λ bh. record bh { b_lock = true }) s)
unfolding lock_buffer
lock_buffer-unlocked away fuel b s h = rw (h, lock_buffer)

-- Does the locked buffer need no transfer?
abbrev is_done : ℕ → Buffer → Bool
is_done cmd bh = (cmd == write && not bh.b_dirt) || (cmd == read && bh.b_uptodate)

locked_request-unlocked :
    (away : Requests → Requests) (fuel major cmd : ℕ) (ahead : Bool) (b : ℕ) (s : Requests)
    → (s.buffer b).b_lock ≡ false
    → let locked : Requests = set_buffer b (λ bh. record bh { b_lock = true }) s in
      locked_request away (suc fuel) major cmd ahead b s ≡ (
        if is_done cmd (s.buffer b)
        then ok (unlock_buffer b locked)
        else queue_request away (suc fuel) major cmd ahead b locked)
unfolding locked_request
locked_request-unlocked away fuel major cmd ahead b s h =
    rw (lock_buffer-unlocked away fuel b s h, locked_request) (ground arith)

make_request-plain :
    (away : Requests → Requests) (fuel major cmd b : ℕ) (s : Requests)
    → (cmd ≡ read) ⊎ (cmd ≡ write)
    → make_request away fuel major cmd b s ≡ locked_request away fuel major cmd false b s
unfolding make_request
make_request-plain away fuel major cmd b s h = ground arith

queue_request-some :
    (away : Requests → Requests) (fuel major cmd : ℕ) (ahead : Bool) (b j : ℕ) (s : Requests)
    → find_slot (slots_for cmd) s.request ≡ some j
    → queue_request away (suc fuel) major cmd ahead b s
      ≡ ok (add_request major j (fill_request j cmd b s))
unfolding queue_request
queue_request-some away fuel major cmd ahead b j s e = rw (e, queue_request)

queue_request-full :
    (away : Requests → Requests) (fuel major cmd b : ℕ) (s : Requests)
    → find_slot (slots_for cmd) s.request ≡ none
    → queue_request away (suc fuel) major cmd true b s ≡ ok (unlock_buffer b s)
unfolding queue_request
queue_request-full away fuel major cmd b s e = rw (e, queue_request)

-- With a free slot among those that the command may use (21 for writes, all 32 for reads), a
-- request for an unlocked buffer that needs one is queued at once: it takes a free slot in that
-- range, the buffer is locked, and the request is that buffer's.
pub make_request-queues :
    (away : Requests → Requests) (fuel major cmd b i : ℕ) (s : Requests)
    → (cmd ≡ read) × ((s.buffer b).b_uptodate ≡ false)
      ⊎ (cmd ≡ write) × ((s.buffer b).b_dirt ≡ true)
    → (s.buffer b).b_lock ≡ false
    → i < slots_for cmd
    → (s.request i).dev <ℤ pos 0
    → let locked : Requests = set_buffer b (λ bh. record bh { b_lock = true }) s in
      (j : ℕ) × (j < slots_for cmd)
      × ((s.request j).dev <ℤ pos 0)
      × (make_request away (suc fuel) major cmd b s
          ≡ ok (add_request major j (fill_request j cmd b locked)))
make_request-queues away fuel major cmd b i s why unlocked lt free =
    elim (Option-cases (find_slot (slots_for cmd) s.request)) [
      | inl e ↦ absurd (find_slot-free (slots_for cmd) s.request i lt free e)
      | inr (j, e) ↦
          let found = find_slot-some (slots_for cmd) s.request j e in
          let todo : is_done cmd (s.buffer b) ≡ false = ground arith in
          (
            j,
            found.0,
            found.1,
            make_request-plain away (suc fuel) major cmd b s (ground arith)
                ∙ locked_request-unlocked away fuel major cmd false b s unlocked
                ∙ rw todo (queue_request-some away fuel major cmd false b j _ e),
          )
    ]

make_request-ahead_locked :
    (away : Requests → Requests) (fuel major cmd b : ℕ) (s : Requests)
    → (cmd ≡ reada) ⊎ (cmd ≡ writea)
    → make_request away fuel major cmd b s
      ≡ (if (s.buffer b).b_lock then ok s else locked_request away fuel major (cmd - 2) true b s)
unfolding make_request
make_request-ahead_locked away fuel major cmd b s h = ground arith

make_request-ahead_unlocked :
    (away : Requests → Requests) (fuel major cmd b : ℕ) (s : Requests)
    → (cmd ≡ reada) ⊎ (cmd ≡ writea)
    → (s.buffer b).b_lock ≡ false
    → let locked : Requests = set_buffer b (λ bh. record bh { b_lock = true }) s in
      make_request away (suc fuel) major cmd b s ≡ (
        if is_done (cmd - 2) (s.buffer b)
        then ok (unlock_buffer b locked)
        else queue_request away (suc fuel) major (cmd - 2) true b locked)
make_request-ahead_unlocked away fuel major cmd b s c l =
    rw (make_request-ahead_locked away (suc fuel) major cmd b s c)
      (rw l (locked_request-unlocked away fuel major (cmd - 2) true b s l))

-- A read-ahead or write-ahead never sleeps: one round of fuel is enough in every state. It leaves
-- the buffer's lock as it was, unless it queues a request for it.
pub make_request-ahead :
    (away : Requests → Requests) (fuel major cmd b : ℕ) (s : Requests)
    → (cmd ≡ reada) ⊎ (cmd ≡ writea)
    → (r : Requests) × (make_request away (suc fuel) major cmd b s ≡ ok r)
      × (((r.buffer b).b_lock ≡ (s.buffer b).b_lock) × (r.queue ≡ s.queue)
          ⊎ (j : ℕ) × (j < 32)
            × ((s.request j).dev <ℤ pos 0)
            × (r
                ≡ add_request major j (
                    fill_request j
                      (cmd - 2)
                      b
                      (set_buffer b (λ bh. record bh { b_lock = true }) s))))
unfolding unlock_buffer
make_request-ahead away fuel major cmd b s c = elim (Bool-cases (s.buffer b).b_lock) [
  | inl l ↦
      (s, make_request-ahead_locked away (suc fuel) major cmd b s c ∙ rw l refl, inl (refl, refl))
  | inr l ↦
      let locked : Requests = set_buffer b (λ bh. record bh { b_lock = true }) s in
      let start = make_request-ahead_unlocked away fuel major cmd b s c l in
      elim (Bool-cases (is_done (cmd - 2) (s.buffer b))) [
        | inl d ↦ (unlock_buffer b locked, start ∙ rw d refl, inl (ground (arith, ==_self b), refl))
        | inr d ↦ elim (Option-cases (find_slot (slots_for (cmd - 2)) s.request)) [
          | inl e ↦ (
            unlock_buffer b locked,
            start ∙ rw d (queue_request-full away fuel major (cmd - 2) b _ e),
            inl (ground (arith, ==_self b), refl),
          )
          | inr (j, e) ↦
              let found = find_slot-some (slots_for (cmd - 2)) s.request j e in
              (
                _,
                start ∙ rw d (queue_request-some away fuel major (cmd - 2) true b j _ e),
                inr (j, ground arith, found.1, refl),
              )
        ]
      ]
]
