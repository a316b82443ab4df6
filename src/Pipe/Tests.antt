-- ===== src/Pipe/Tests.antt =====
-- The theorems on pipes at a pipe whose bytes wrap around the end of its page.
use linux_0_11_comments.Pipe.Reading.{read_pipe-IsTaken, IsTaken}
use linux_0_11_comments.Pipe.Writing.{write_pipe-IsPut, IsPut}
use linux_0_11_comments.Examples.{example}
use linux_0_11_comments.Pipe.{write_pipe, read_pipe, Pipe}
use linux_0_11_comments.Common.{pos, ok, ℕ, ◌%◌, ◌≡◌, none, arith}

-- Four bytes are queued, at the positions 4094, 4095, 0 and 1.
abbrev example_pipe : Pipe
example_pipe = record {
  page = λ i. i % 256;
  head = 2;
  tail = 4094;
  i_count = 2;
  i_wait = none;
  kernel = example;
}

write_pipe-IsPut_example :
    (q : Pipe) × (write_pipe (λ p. p) 3 (λ i. i) 10 example_pipe ≡ ok (q, pos 10))
    × IsPut example_pipe q 10 0 (λ i. i)
write_pipe-IsPut_example =
    write_pipe-IsPut (λ p. p) 0 (λ i. i) 10 example_pipe (omega arith, omega arith) (omega arith)

read_pipe-IsTaken_example :
    (q : Pipe) × (to : ℕ → ℕ) × (read_pipe (λ p. p) 3 (λ _. 0) 3 example_pipe ≡ ok (q, to, 3))
    × IsTaken example_pipe q 3 0 (λ _. 0) to
read_pipe-IsTaken_example =
    read_pipe-IsTaken (λ p. p) 0 (λ _. 0) 3 example_pipe (omega arith, omega arith) (omega arith)
