-- ===== src/Arithmetic/Tests.antt =====
-- The division of the largest number by one of 33 bits.
use group.Base.{◌≡◌, some, arith}
use group.Arithmetic.{udiv64}
use group.Arithmetic.Quotient.{udiv64-Quotient}

udiv64-Quotient_example : udiv64 18446744073709551615 4294967297 ≡ some 4294967295
udiv64-Quotient_example =
    udiv64-Quotient 18446744073709551615 4294967297 (omega arith) (omega arith) (omega arith)
