-- ===== src/Tests/Vectors.antt =====
-- A vector of fixed capacity as a list, in place of the `heapless` crate, and channels in place of
-- Tokio's.
use rylr998_rs.Base.{
  ℕ, ◌+◌, refl, ◌++◌, none, some, ltb, le→ltb, lt→ltb, if◌then◌else◌, length, take,
}
use rylr998_rs.FixedVec.{FixedVec}
use rylr998_rs.Tokio.{Channel, taken, never}

instance abbrev pub list_vec : FixedVec
list_vec = record {
  extend_from_slice = λ cap xs s. if ltb cap (length xs + length s) then none else some (xs ++ s);
  truncate = λ xs n. take n xs;
  extend_fits = λ cap xs s h. rw (le→ltb cap (length xs + length s) h);
  extend_full = λ cap xs s h. rw (lt→ltb cap (length xs + length s) h);
  truncate_short = λ xs n h. refl;
}

-- A channel that someone takes every event out of.
instance abbrev pub emptied : Channel
emptied = record { send = λ sent. taken }

-- A channel of this many places that nobody takes anything out of.
abbrev pub undrained : ℕ → Channel
undrained n = record { send = λ sent. if ltb (length sent) n then taken else never }
