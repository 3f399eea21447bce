-- ===== src/Text.antt =====
-- pintos/src/lib/string.c: blocks of bytes and null-terminated strings in memory. Memory is a function
-- of the address; a pointer is an address, and 0 is NULL.
pub mod Move
pub mod Search
pub mod Terminated
pub mod Copy
mod Tests
use group.Base.{
  ℕ, zero, suc, ◌+◌, ◌-◌, ◌%◌, Bool, true, false, not, ◌&&◌, ◌||◌, Option, none, some, ◌==◌, leb,
  ltb, if◌then◌else◌, update, ◌>>=◌, ◌>>◌, assert, is_some,
}

abbrev pub Memory : Type 0
Memory = ℕ → ℕ

-- The longest that a loop can run over memory: a string without an end is a fault.
abbrev pub address_space : ℕ
address_space = 4294967296

abbrev pub not_null : ℕ → ℕ → Bool
not_null p size = not (p == 0) || size == 0

-- `while (size-- > 0) *dst++ = *src++;`
unfoldable pub copy_up : ℕ → ℕ → ℕ → Memory → Memory
copy_up zero dst src m = m
copy_up (suc size) dst src m = copy_up size (dst + 1) (src + 1) (update m dst (m src))

-- `while (size-- > 0) *--dst = *--src;`, the pointers behind the blocks
unfoldable pub copy_down : ℕ → ℕ → ℕ → Memory → Memory
copy_down zero dst src m = m
copy_down (suc size) dst src m =
    copy_down size (dst - 1) (src - 1) (update m (dst - 1) (m (src - 1)))

-- The result of each is the pointer that it returns, and the memory.
unfoldable pub memcpy : ℕ → ℕ → ℕ → Memory → Option (ℕ × Memory)
memcpy dst src size m = do
  assert (not_null dst size)
  assert (not_null src size)
  some (dst, copy_up size dst src m)

unfoldable pub memmove : ℕ → ℕ → ℕ → Memory → Option (ℕ × Memory)
memmove dst src size m = do
  assert (not_null dst size)
  assert (not_null src size)
  if ltb dst src
      then some (dst + size, copy_up size dst src m)
      else some (dst, copy_down size (dst + size) (src + size) m)

-- The sign of a comparison.
pub data Sign : Type 0 where
  minus null plus : Sign

unfoldable pub compare_loop : ℕ → ℕ → ℕ → Memory → Sign
compare_loop zero a b m = null
compare_loop (suc size) a b m =
    let rest = compare_loop size (a + 1) (b + 1) m in
    if not (m a == m b) then (if ltb (m b) (m a) then plus else minus) else rest

unfoldable pub memcmp : ℕ → ℕ → ℕ → Memory → Option Sign
memcmp a b size m = do
  assert (not_null a size)
  assert (not_null b size)
  some (compare_loop size a b m)

unfoldable pub strcmp_loop : ℕ → ℕ → ℕ → Memory → Option Sign
strcmp_loop zero a b m = none
strcmp_loop (suc fuel) a b m =
    let rest = strcmp_loop fuel (a + 1) (b + 1) m in
    if not (m a == 0) && m a == m b
    then rest
    else if ltb (m a) (m b)
    then some minus
    else some (if ltb (m b) (m a) then plus else null)

unfoldable pub strcmp : ℕ → ℕ → Memory → Option Sign
strcmp a b m = do assert (not (a == 0)); assert (not (b == 0)); strcmp_loop address_space a b m

unfoldable pub memchr_loop : ℕ → ℕ → ℕ → Memory → Option ℕ
memchr_loop zero block ch m = none
memchr_loop (suc size) block ch m =
    let rest = memchr_loop size (block + 1) ch m in if m block == ch then some block else rest

-- A null pointer as the result is `none`.
unfoldable pub memchr : ℕ → ℕ → ℕ → Memory → Option (Option ℕ)
memchr block ch size m = do assert (not_null block size); some (memchr_loop size block (ch % 256) m)

unfoldable pub strchr_loop : ℕ → ℕ → ℕ → Memory → Option (Option ℕ)
strchr_loop zero string c m = none
strchr_loop (suc fuel) string c m =
    let rest = strchr_loop fuel (string + 1) c m in
    if m string == c then some (some string) else if m string == 0 then some none else rest

unfoldable pub strchr : ℕ → ℕ → Memory → Option (Option ℕ)
strchr string c m = do assert (not (string == 0)); strchr_loop address_space string (c % 256) m

-- The loops of `strcspn` and `strspn`: up to the first character that is in the set, or is not.
unfoldable pub span_loop : ℕ → Bool → ℕ → ℕ → ℕ → Memory → Option ℕ
span_loop zero stop string set len m = none
span_loop (suc fuel) stop string set len m =
    let rest = span_loop fuel stop string set (len + 1) m in
    if m (string + len) == 0 then some len else (do
      found ← strchr set (m (string + len)) m
      if (if stop then is_some found else not (is_some found)) then some len else rest)

unfoldable pub strcspn : ℕ → ℕ → Memory → Option ℕ
strcspn string stop m = span_loop address_space true string stop 0 m

unfoldable pub strspn : ℕ → ℕ → Memory → Option ℕ
strspn string skip m = span_loop address_space false string skip 0 m

unfoldable pub strlen_loop : ℕ → ℕ → Memory → Option ℕ
strlen_loop zero p m = none
strlen_loop (suc fuel) p m =
    let rest = strlen_loop fuel (p + 1) m in if m p == 0 then some p else rest

unfoldable pub strlen : ℕ → Memory → Option ℕ
strlen string m = do
  assert (not (string == 0))
  p ← strlen_loop address_space string m
  some (p - string)

unfoldable pub strnlen_loop : ℕ → ℕ → ℕ → Memory → ℕ
strnlen_loop zero string len m = len
strnlen_loop (suc left) string len m =
    let rest = strnlen_loop left string (len + 1) m in if m (string + len) == 0 then len else rest

unfoldable pub strnlen : ℕ → ℕ → Memory → ℕ
strnlen string maxlen m = strnlen_loop maxlen string 0 m

unfoldable pub set_bytes : ℕ → ℕ → ℕ → Memory → Memory
set_bytes zero dst value m = m
set_bytes (suc size) dst value m = set_bytes size (dst + 1) value (update m dst value)

unfoldable pub memset : ℕ → ℕ → ℕ → Memory → Option (ℕ × Memory)
memset dst value size m = do
  assert (not_null dst size)
  some (dst, set_bytes size dst (value % 256) m)

-- The copy of `src_len` bytes, or as many as fit, and the terminator.
unfoldable pub copy_some : ℕ → ℕ → ℕ → ℕ → Memory → Option Memory
copy_some dst src src_len room m = do
  let cnt = if ltb src_len room then src_len else room
  (_, m) ← memcpy dst src cnt m
  some (update m (dst + cnt) 0)

unfoldable pub strlcpy : ℕ → ℕ → ℕ → Memory → Option (ℕ × Memory)
strlcpy dst src size m = do
  assert (not (dst == 0))
  assert (not (src == 0))
  src_len ← strlen src m
  if ltb 0 size
      then (do m ← copy_some dst src src_len (size - 1) m; some (src_len, m))
      else some (src_len, m)

unfoldable pub strlcat : ℕ → ℕ → ℕ → Memory → Option (ℕ × Memory)
strlcat dst src size m = do
  assert (not (dst == 0))
  assert (not (src == 0))
  src_len ← strlen src m
  dst_len ← strlen dst m
  if ltb 0 size && ltb dst_len size
      then (do
        m ← copy_some (dst + dst_len) src src_len (size - dst_len - 1) m
        some (src_len + dst_len, m))
      else some (src_len + dst_len, m)
