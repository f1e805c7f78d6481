-- ===== src/Server/Producers/Sequence.antt =====
-- picomq/pico-server/src/producers.rs: the arithmetic of Kafka sequences.
use picomq.Prelude.{ℕ, ◌+◌, ◌%◌, ◌<◌, ◌≡◌, refl, ap, pos, arith, add_i64_pos, i64_mod}
use picomq.Server.Producers.Kafka.{next_seq}

next_seq_pos : (n a : ℕ) → n + a < i64_mod → next_seq (pos n) a ≡ pos ((n + a) % 2147483648)
unfolding next_seq
next_seq_pos n a h = rw (add_i64_pos n a h) refl

-- From a sequence below 2^31 and for record counts of a sum below 2^32, the sequence after `a` records
-- is the sum modulo 2^31, below 2^31 again, and going on by `b` is going on by `a + b` at once.
pub next_seq-sum :
    (n a b : ℕ)
    → n < 2147483648
    → a + b < 4294967296
    → (next_seq (pos n) a ≡ pos ((n + a) % 2147483648))
      × ((n + a) % 2147483648 < 2147483648)
      × (next_seq (next_seq (pos n) a) b ≡ next_seq (pos n) (a + b))
next_seq-sum n a b hn hab =
    let first : next_seq (pos n) a ≡ pos ((n + a) % 2147483648) = next_seq_pos n a (omega arith) in
    let second : next_seq (pos ((n + a) % 2147483648)) b
        ≡ pos (((n + a) % 2147483648 + b) % 2147483648) =
      next_seq_pos ((n + a) % 2147483648) b (omega arith) in
    let whole : next_seq (pos n) (a + b) ≡ pos ((n + (a + b)) % 2147483648) =
      next_seq_pos n (a + b) (omega arith) in
    let same : ((n + a) % 2147483648 + b) % 2147483648 ≡ (n + (a + b)) % 2147483648 = omega arith in
    (first, omega arith, rw (first, second, whole) (ap pos same))
