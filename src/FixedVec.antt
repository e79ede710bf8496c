-- ===== src/FixedVec.antt =====
-- `heapless::Vec<u8, N>`, which rylr998-core/src/driver.rs keeps its two queues in. The crate is not
-- part of the repository: a queue is the list of its bytes, and the two methods that the driver
-- calls are an interface with the behaviour that the crate documents. What the driver calls on the
-- slice of a queue (`len`, `get`, `iter().position`, `copy_within`) is the standard library's.
use rylr998_rs.Base.{
  ℕ, ◌+◌, ◌-◌, ◌≤◌, ◌<◌, ◌≡◌, ◌++◌, Option, none, some, Bytes, length, take, drop,
}

pub record FixedVec : Type 0 where
  -- `extend_from_slice` of a vector with this capacity; `none` is its error, and changes nothing.
  pub extend_from_slice : ℕ → Bytes → Bytes → Option Bytes
  pub truncate : Bytes → ℕ → Bytes
  pub extend_fits :
      (cap : ℕ) (xs s : Bytes)
      → length xs + length s ≤ cap
      → extend_from_slice cap xs s ≡ some (xs ++ s)
  pub extend_full :
      (cap : ℕ) (xs s : Bytes) → cap < length xs + length s → extend_from_slice cap xs s ≡ none
  pub truncate_short : (xs : Bytes) (n : ℕ) → n ≤ length xs → truncate xs n ≡ take n xs

-- `slice.copy_within(n..len, 0)` on the whole of a slice, for `n ≤ len`.
abbrev pub copy_down : ℕ → Bytes → Bytes
copy_down n xs = drop n xs ++ drop (length xs - n) xs
