-- ===== src/Pipe/Queue.antt =====
-- A pipe as a queue of bytes (fs/pipe.c).
use linux_0_11_comments.Common.{ℕ, ◌+◌, ◌%◌, ◌<◌}
use linux_0_11_comments.Pipe.{Pipe}

-- The positions are offsets in the page.
abbrev pub IsPipe : Pipe → Type 0
IsPipe p = (p.head < 4096) × (p.tail < 4096)

-- Byte `j` of the queue, from the next one to be read on.
abbrev pub content : Pipe → ℕ → ℕ
content p j = p.page ((p.tail + j) % 4096)
