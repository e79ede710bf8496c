-- ===== src/Radio/Discovery.antt =====
-- rylr998-std/src/port.rs: the one serial port that looks like the radio's adapter. A path is the
-- list of its bytes, on a system whose separator is `/`.
use rylr998_rs.Base.{
  ℕ, Bool, true, List, [], ◌∷◌, ◌++◌, Option, none, some, ◌==◌, if◌then◌else◌, Bytes, codes,
  eq_bytes, starts_with, Outcome, ok, err, panic, ◌≡◌, ◌↔◌, refl, sym, ap, ◌∙◌, inl, inr, arith,
  Bool-cases,
}
use rylr998_rs.Radio.{Error}

abbrev add_byte : ℕ → List Bytes → List Bytes
add_byte c [] = (c ∷ []) ∷ []
add_byte c (part ∷ parts) = (c ∷ part) ∷ parts

-- The parts of a path between its separators.
abbrev pub path_parts : Bytes → List Bytes
path_parts [] = [] ∷ []
path_parts (c ∷ s) = if c == b'/' then [] ∷ path_parts s else add_byte c (path_parts s)

-- A part that is no component: it is empty or `.`.
abbrev pub is_skipped : Bytes → Bool
is_skipped part = if eq_bytes part [] then true else eq_bytes part (codes ".")

abbrev pub last_component : Option Bytes → List Bytes → Option Bytes
last_component found [] = found
last_component found (part ∷ parts) =
    last_component (if is_skipped part then found else some part) parts

abbrev pub normal_component : Option Bytes → Option Bytes
normal_component none = none
normal_component (some part) = if eq_bytes part (codes "..") then none else some part

-- The standard library's `Path::file_name`: the last component, unless it is `..`.
abbrev pub file_name : Bytes → Option Bytes
file_name n = normal_component (last_component none (path_parts n))

abbrev pub or_name : Bytes → Option Bytes → Bytes
or_name n none = n
or_name n (some leaf) = leaf

-- The test of `filter`.
unfoldable pub is_candidate : Bytes → Bool
is_candidate n = starts_with (or_name n (file_name n)) (codes "cu.usbserial")

-- `filter`.
unfoldable pub filter : List Bytes → List Bytes
filter [] = []
filter (n ∷ names) = if is_candidate n then n ∷ filter names else filter names

-- `decide`.
unfoldable pub decide : List Bytes → Outcome Error Bytes
decide [] = err Error.no_device
decide (path ∷ []) = ok path
decide (path ∷ other ∷ paths) = err (Error.ambiguous (path ∷ other ∷ paths))

-- `discover`, on the outcome of `serialport::available_ports`.
unfoldable pub discover : Outcome ℕ (List Bytes) → Outcome Error Bytes
discover (ok names) = decide (filter names)
discover (err e) = err (Error.serial e)
discover panic = panic

decide-ok : (paths : List Bytes) {path : Bytes} → decide paths ≡ ok path → paths ≡ path ∷ []
unfolding decide
decide-ok [] h = cc
decide-ok (p ∷ []) h = cc
decide-ok (p ∷ q ∷ paths) h = cc

filter-append : (xs ys : List Bytes) → filter (xs ++ ys) ≡ filter xs ++ filter ys
unfolding filter
filter-append [] ys = refl
filter-append (n ∷ xs) ys = ground (arith, filter-append xs ys)

-- The names have just one candidate, and it is this one.
abbrev pub IsOnly : List Bytes → Bytes → Type 0
IsOnly names path =
    (before : List Bytes) × (after : List Bytes) × (names ≡ before ++ path ∷ after)
    × (is_candidate path ≡ true)
    × (filter before ≡ [])
    × (filter after ≡ [])

filter-single : (names : List Bytes) {path : Bytes} → filter names ≡ path ∷ [] → IsOnly names path
unfolding filter
filter-single [] h = cc
filter-single (n ∷ names) {path} h = elim (Bool-cases (is_candidate n)) [
  | inl good ↦
      let whole : n ∷ filter names ≡ path ∷ [] = rw (good, filter) at h in
      let same : n ≡ path = cc in
      let none_left : filter names ≡ [] = cc in
      ([], names, ap (λ p. p ∷ names) same, rw (sym same) good, refl, none_left)
  | inr bad ↦
      let (before, after, split, is_path, fb, fa) = filter-single names (rw (bad, filter) at h) in
      (n ∷ before, after, ap (λ ns. n ∷ ns) split, is_path, rw bad fb, fa)
]

only-filter : (names : List Bytes) (path : Bytes) → IsOnly names path → filter names ≡ path ∷ []
unfolding filter
only-filter names path (before, after, split, is_path, fb, fa) =
    ap filter split ∙ filter-append before (path ∷ after) ∙ rw (fb, is_path, fa)

-- `discover` finds a port exactly if just one of the listed names is a candidate, and it finds that
-- one.
pub discover_iff :
    (names : List Bytes) (path : Bytes) → (discover (ok names) ≡ ok path) ↔ IsOnly names path
unfolding discover decide
discover_iff names path = (
  λ h. filter-single names (decide-ok (filter names) h),
  λ h. ap decide (only-filter names path h),
)
