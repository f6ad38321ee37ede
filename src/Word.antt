-- ===== src/Word.antt =====
-- include/fflow/ffmod.h: the machine words `FFU64` and `FFU128`, as native numbers with the wrap
-- of each operation written out, and the two halves of an `FFU128HL`.
use finiteflow.Base.{ℕ, ◌+◌, ◌-◌, ◌*◌, ◌/◌, ◌%◌}

-- 2 ^ 64 and 2 ^ 128.
abbrev pub word : ℕ
word = 0x1_0000_0000_0000_0000

abbrev pub dword : ℕ
dword = 0x1_0000_0000_0000_0000_0000_0000_0000_0000

abbrev pub add64 : ℕ → ℕ → ℕ
add64 a b = (a + b) % word

abbrev pub sub64 : ℕ → ℕ → ℕ
sub64 a b = (a + word - b) % word

abbrev pub mul64 : ℕ → ℕ → ℕ
mul64 a b = a * b % word

abbrev pub shl64 : ℕ → ℕ
shl64 a = a * 2 % word

abbrev pub add128 : ℕ → ℕ → ℕ
add128 a b = (a + b) % dword

abbrev pub mul128 : ℕ → ℕ → ℕ
mul128 a b = a * b % dword

abbrev pub shl128 : ℕ → ℕ
shl128 a = a * 2 % dword

-- `FFU128HL::high` and `FFU128HL::low`.
abbrev pub high : ℕ → ℕ
high z = z / word

abbrev pub low : ℕ → ℕ
low z = z % word
