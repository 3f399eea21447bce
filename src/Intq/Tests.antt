-- ===== src/Intq/Tests.antt =====
-- intq.c on a queue that wraps around.
use group.Base.{◌≡◌, refl, none, some, [], ◌∷◌, false, arith, Yields, ◌+◌}
use group.Intq.{Intq, intq_putc, intq_getc, intq_init}
use group.Intq.Fifo.{IsQueue, contents, items, Put, Got, intq_putc-Put, intq_getc-Got}

-- Bytes at 62, 63 and 0; thread 4 waits for a byte.
abbrev wrapped : Intq
wrapped = record { not_full = none; not_empty = some 4; buf = λ i. i + 1; head = 1; tail = 62 }

wrapped-IsQueue : IsQueue wrapped
wrapped-IsQueue = record { head_in = omega arith; tail_in = omega arith }

three_bytes : contents wrapped ≡ 63 ∷ 64 ∷ 1 ∷ []
unfolding items
three_bytes = refl

intq_putc-Put_example : Yields (intq_putc false 2 9 wrapped) (Put wrapped 9 2)
intq_putc-Put_example = intq_putc-Put wrapped wrapped-IsQueue 2 9

intq_getc-Got_example : Yields (intq_getc false 2 wrapped) (Got wrapped 2)
intq_getc-Got_example = intq_getc-Got wrapped wrapped-IsQueue 2

empty_after_init : contents (intq_init wrapped) ≡ []
unfolding intq_init items
empty_after_init = refl
