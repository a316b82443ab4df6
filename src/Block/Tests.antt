-- ===== src/Block/Tests.antt =====
-- The theorems on the block requests at three requests and a buffer.
use linux_0_11_comments.Block.{insert, Request, Requests, in_order}
use linux_0_11_comments.Common.{
  leb, ◌==◌, if◌then◌else◌, pos, negsuc, ℕ, ◌≤◌, max, ◌≡◌, refl, inl, inr, true, false, none, [],
  ◌∷◌,
}
use linux_0_11_comments.Block.Elevator.{queue_turns, insert_turns}

-- Reads of device 768; the first two are queued, of the sectors 10 and 30, and the third is new, of
-- sector 20. All other slots are free.
abbrev reads : ℕ → Request
reads i = record {
  dev = if leb 3 i then negsuc 0 else pos 768;
  cmd = 0;
  errors = 0;
  sector = if i == 0 then 10 else if i == 1 then 30 else 20;
  nr_sectors = 2;
  bh = none;
}

between : insert reads 2 0 (1 ∷ []) ≡ 0 ∷ 2 ∷ 1 ∷ []
unfolding insert in_order
between = refl

apart_10_20 : in_order (reads 0) (reads 2) ≡ true
unfolding in_order
apart_10_20 = refl

apart_20_30 : in_order (reads 2) (reads 1) ≡ true
unfolding in_order
apart_20_30 = refl

insert_turns_example :
    queue_turns reads (insert reads 2 0 (1 ∷ [])) ≤ max 1 (queue_turns reads (0 ∷ 1 ∷ []))
insert_turns_example = insert_turns reads 2 0 (1 ∷ []) (inl apart_10_20) (inr apart_20_30, tt)

-- Buffer 4, of block 7, is to be read.
abbrev idle_device : Requests
idle_device = record {
  request = reads;
  buffer = λ b. record {
    b_dev = 768;
    b_blocknr = 7;
    b_uptodate = false;
    b_dirt = false;
    b_lock = false;
  };
  queue = λ _. [];
  has_fn = λ _. true;
  started = [];
}
