-- ===== src/Strings.antt =====
-- The string functions of ass5/final_repo/string.c.
pub mod Move
pub mod Compare
pub mod Terminate
use operating_systems_work.Base.{
  ℕ, zero, suc, ◌+◌, ◌-◌, ◌%◌, ◌^◌, Bool, ◌&&◌, not, ◌==◌, ltb, if◌then◌else◌,
}

-- Memory: the byte at each address. A range of addresses does not wrap around.
abbrev pub Memory : Type 0
Memory = ℕ → ℕ

abbrev pub poke : Memory → ℕ → ℕ → Memory
poke m a v b = if b == a then v else m b

abbrev pub int_mod : ℕ
int_mod = 2 ^ 32

-- The loop `while(n-- > 0) *d++ = *s++`
unfoldable pub copy_up : ℕ → ℕ → ℕ → Memory → Memory
copy_up zero d s m = m
copy_up (suc n) d s m = copy_up n (d + 1) (s + 1) (poke m d (m s))

-- The loop `while(n-- > 0) *--d = *--s`
unfoldable pub copy_down : ℕ → ℕ → ℕ → Memory → Memory
copy_down zero d s m = m
copy_down (suc n) d s m = copy_down n (d - 1) (s - 1) (poke m (d - 1) (m (s - 1)))

unfoldable pub memmove : ℕ → ℕ → ℕ → Memory → Memory
memmove d s n m =
    if ltb s d && ltb d (s + n) then copy_down n (d + n) (s + n) m else copy_up n d s m

-- `(uchar)*p - (uchar)*q` as an int.
abbrev pub difference : ℕ → ℕ → ℕ
difference a b = (a + int_mod - b) % int_mod

unfoldable pub memcmp : ℕ → ℕ → ℕ → Memory → ℕ
memcmp p q zero m = 0
memcmp p q (suc n) m =
    let rest = memcmp (p + 1) (q + 1) n m in if m p == m q then rest else difference (m p) (m q)

unfoldable pub strncmp : ℕ → ℕ → ℕ → Memory → ℕ
strncmp p q zero m = 0
strncmp p q (suc n) m =
    let rest = strncmp (p + 1) (q + 1) n m in
    if not (m p == 0) && (m p == m q) then rest else difference (m p) (m q)

-- The second loop of `strncpy`.
unfoldable pub fill_zero : ℕ → ℕ → Memory → Memory
fill_zero s zero m = m
fill_zero s (suc n) m = fill_zero (s + 1) n (poke m s 0)

-- Both loops: the first ends when it has copied a zero byte.
unfoldable pub strncpy : ℕ → ℕ → ℕ → Memory → Memory
strncpy s t zero m = m
strncpy s t (suc n) m =
    let rest = strncpy (s + 1) (t + 1) n (poke m s (m t)) in
    let done = fill_zero (s + 1) n (poke m s (m t)) in if m t == 0 then done else rest

-- The loop of `safestrcpy`, with `n` bytes of room before the last, and the zero after it.
unfoldable pub copy_string : ℕ → ℕ → ℕ → Memory → Memory
copy_string s t zero m = poke m s 0
copy_string s t (suc n) m =
    let rest = copy_string (s + 1) (t + 1) n (poke m s (m t)) in
    let done = poke (poke m s (m t)) (s + 1) 0 in if m t == 0 then done else rest

-- `safestrcpy` for an `n` that is not negative.
unfoldable pub safestrcpy : ℕ → ℕ → ℕ → Memory → Memory
safestrcpy s t zero m = m
safestrcpy s t (suc n) m = copy_string s t n m
