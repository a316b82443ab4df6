-- ===== src/Block.antt =====
-- kernel/blk_drv/ll_rw_blk.c and kernel/blk_drv/blk.h: the queues of block requests.
--
-- A request is its number in `request[]`, a buffer its number in the buffer cache. The queue of a
-- major device is the list of the requests from `current_request` on, along `next`. `started` lists
-- the majors whose `request_fn` was called. Where the code sleeps, `away` stands for what other
-- tasks and interrupts do until it is woken, and the loops that sleep run on fuel.
pub mod Elevator
pub mod Slots
mod Tests
use linux_0_11_comments.Common.{
  ltb, leb, ◌==◌, if◌then◌else◌, update, ℤ, ltb_ℤ, eq_ℤ, pos, negsuc, Run, not_rw_command, ok,
  panic, out_of_fuel, ℕ, zero, suc, ◌*◌, ◌/◌, ◌%◌, ◌^◌, Bool, true, false, ◌&&◌, ◌||◌, not, Option,
  none, some, List, [], ◌∷◌, ◌++◌, ◌>>=◌, ◌>>◌,
}

pub record Buffer : Type 0 where
  pub b_dev : ℕ
  pub b_blocknr : ℕ
  pub b_uptodate : Bool
  pub b_dirt : Bool
  pub b_lock : Bool

-- struct request; `dev` is -1 for a free one
pub record Request : Type 0 where
  pub dev : ℤ
  pub cmd : ℕ
  pub errors : ℕ
  pub sector : ℕ
  pub nr_sectors : ℕ
  pub bh : Option ℕ

pub record Requests : Type 0 where
  pub request : ℕ → Request
  pub buffer : ℕ → Buffer
  pub queue : ℕ → List ℕ
  pub has_fn : ℕ → Bool
  pub started : List ℕ

abbrev pub nr_request : ℕ
nr_request = 32

abbrev pub nr_blk_dev : ℕ
nr_blk_dev = 7

abbrev pub read : ℕ
read = 0

abbrev pub write : ℕ
write = 1

abbrev pub reada : ℕ
reada = 2

abbrev pub writea : ℕ
writea = 3

-- IN_ORDER(s1, s2)
unfoldable pub in_order : Request → Request → Bool
in_order s1 s2 =
    ltb s1.cmd s2.cmd
    || s1.cmd == s2.cmd && (ltb_ℤ s1.dev s2.dev || eq_ℤ s1.dev s2.dev && ltb s1.sector s2.sector)

-- The loop of add_request: `tmp` and the requests behind it, with `req` put among them.
unfoldable pub insert : (ℕ → Request) → ℕ → ℕ → List ℕ → List ℕ
insert r req tmp [] = tmp ∷ req ∷ []
insert r req tmp (next ∷ rest) =
    if (in_order (r tmp) (r req) || not (in_order (r tmp) (r next))) && in_order (r req) (r next)
    then tmp ∷ req ∷ next ∷ rest
    else tmp ∷ insert r req next rest

abbrev pub set_buffer : ℕ → (Buffer → Buffer) → Requests → Requests
set_buffer b f s = record s { buffer = update s.buffer b (f (s.buffer b)) }

abbrev pub clean_buffer : Option ℕ → Requests → Requests
clean_buffer none s = s
clean_buffer (some b) s = set_buffer b (λ bh. record bh { b_dirt = false }) s

abbrev pub put_in_queue : ℕ → ℕ → List ℕ → Requests → Requests
put_in_queue major req [] s = record s {
  queue = update s.queue major (req ∷ []);
  started = s.started ++ major ∷ [];
}
put_in_queue major req (tmp ∷ rest) s = record s {
  queue = update s.queue major (insert s.request req tmp rest);
}

unfoldable pub add_request : ℕ → ℕ → Requests → Requests
add_request major req s = put_in_queue major req (s.queue major) (clean_buffer (s.request req).bh s)

unfoldable pub unlock_buffer : ℕ → Requests → Requests
unlock_buffer b s = set_buffer b (λ bh. record bh { b_lock = false }) s

-- `while (--req >= request) if (req->dev < 0) break;` from request + n
unfoldable pub find_slot : ℕ → (ℕ → Request) → Option ℕ
find_slot zero r = none
find_slot (suc n) r = if ltb_ℤ (r n).dev (pos 0) then some n else find_slot n r

abbrev pub slots_for : ℕ → ℕ
slots_for cmd = if cmd == read then nr_request else nr_request * 2 / 3

abbrev pub fill_request : ℕ → ℕ → ℕ → Requests → Requests
fill_request req cmd b s = record s {
  request = update s.request req (record {
    dev = pos (s.buffer b).b_dev;
    cmd = cmd;
    errors = 0;
    sector = (s.buffer b).b_blocknr * 2 % 2 ^ 32;
    nr_sectors = 2;
    bh = some b;
  });
}

module _ (away : Requests → Requests) where
  unfoldable pub lock_buffer : ℕ → ℕ → Requests → Run Requests
  lock_buffer zero b s = out_of_fuel
  lock_buffer (suc fuel) b s = elim ((s.buffer b).b_lock) [
    | true ↦ lock_buffer fuel b (away s)
    | false ↦ ok (set_buffer b (λ bh. record bh { b_lock = true }) s)
  ]

  -- from `repeat:` on; the buffer is locked, and `cmd` is READ or WRITE
  unfoldable pub queue_request : ℕ → ℕ → ℕ → Bool → ℕ → Requests → Run Requests
  queue_request zero major cmd rw_ahead b s = out_of_fuel
  queue_request (suc fuel) major cmd rw_ahead b s = elim (find_slot (slots_for cmd) s.request) [
    | some req ↦ ok (add_request major req (fill_request req cmd b s))
    | none ↦ elim rw_ahead [
      | true ↦ ok (unlock_buffer b s)
      | false ↦ queue_request fuel major cmd false b (away s)
    ]
  ]

  -- from the call of lock_buffer on
  unfoldable pub locked_request : ℕ → ℕ → ℕ → Bool → ℕ → Requests → Run Requests
  locked_request fuel major cmd rw_ahead b s = do
    s ← lock_buffer fuel b s
    let bh : Buffer = s.buffer b
    if (cmd == write && not bh.b_dirt) || (cmd == read && bh.b_uptodate)
        then ok (unlock_buffer b s)
        else queue_request fuel major cmd rw_ahead b s

  unfoldable pub make_request : ℕ → ℕ → ℕ → ℕ → Requests → Run Requests
  make_request fuel major cmd b s =
      let rw_ahead = cmd == reada || cmd == writea in
      if rw_ahead && (s.buffer b).b_lock
      then ok s
      else let cmd = if cmd == reada then read else if cmd == writea then write else cmd in
        if not (cmd == read) && not (cmd == write)
        then panic not_rw_command
        else locked_request fuel major cmd rw_ahead b s

  -- MAJOR(dev) is dev >> 8, of an unsigned short.
  unfoldable pub ll_rw_block : ℕ → ℕ → ℕ → Requests → Run Requests
  ll_rw_block fuel cmd b s =
      let major = (s.buffer b).b_dev / 256 in
      if leb nr_blk_dev major || not (s.has_fn major) then ok s else make_request fuel major cmd b s

abbrev pub free_request : Request → Request
free_request r = record r { dev = negsuc 0 }

unfoldable pub blk_dev_init : Requests → Requests
blk_dev_init s = record s {
  request = λ i. if ltb i nr_request then free_request (s.request i) else s.request i;
}
