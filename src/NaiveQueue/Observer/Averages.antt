-- ===== src/NaiveQueue/Observer/Averages.antt =====
-- The averages and medians that `Observer<T>::trigger_reconfigure` in src/naive_queue.tpp computes
-- from measured times, with the C++ conversions: `avg` sums into an `int`, which keeps the low 32
-- bits of the sum, and divides by the number of values as an `int`. An `int` is written as its 32
-- bits. `avg` is called without its third argument, so that it does not sort.
use npb_sync.Prelude.{
  ℕ, zero, suc, ◌+◌, ◌-◌, ◌*◌, ◌/◌, ◌%◌, ◌^◌, ◌≤◌, ◌<◌, ◌≡◌, ap, ◌∙◌, List, [], ◌∷◌, length, take,
  take_all, ltb, leb, ◌==◌, if◌then◌else◌, arith,
}

-- The floating-point unit: `round n` is the integer `n` converted to `float`, and `sqrt n` the
-- square root of `n`, cut to an integer.
pub record Floats : Type 0 where
  pub round : ℕ → ℕ
  pub sqrt : ℕ → ℕ

-- what is documented of both: a `float` has 24 bits of precision, a `double` 53
pub record IsAccurate (fl : Floats) : Type 0 where
  pub exact : (n : ℕ) → n ≤ 2 ^ 24 → fl.round n ≡ n
  pub root : (n : ℕ) → n < 2 ^ 52 → fl.sqrt n * fl.sqrt n ≤ n
  pub root_up : (n : ℕ) → n < 2 ^ 52 → n < (fl.sqrt n + 1) * (fl.sqrt n + 1)

-- an `int` converted to an unsigned number of 64 bits
abbrev pub sign_extend : ℕ → ℕ
sign_extend i = if ltb i (2 ^ 31) then i else i + (2 ^ 64 - 2 ^ 32)

-- `accumulate(arr, arr + n, 0)`
unfoldable pub accumulate : ℕ → List ℕ → ℕ
accumulate acc [] = acc
accumulate acc (x ∷ xs) = accumulate ((acc + x) % 2 ^ 32) xs

-- the quotient of two `int`, the second one positive; it is cut towards 0
unfoldable pub div_int : ℕ → ℕ → ℕ
div_int a n = if ltb a (2 ^ 31) then a / n else (2 ^ 32 - (2 ^ 32 - a) / n) % 2 ^ 32

unfoldable pub avg : Floats → List ℕ → ℕ
unfolding accumulate div_int
avg fl arr =
    let s = fl.round (length arr) in
    if length arr == 0 then 0 else div_int (accumulate 0 (take s arr)) s

-- `std::sort`
unfoldable pub insert_sorted : ℕ → List ℕ → List ℕ
insert_sorted x [] = x ∷ []
insert_sorted x (y ∷ ys) = if leb x y then x ∷ y ∷ ys else y ∷ insert_sorted x ys

unfoldable pub sort : List ℕ → List ℕ
unfolding insert_sorted
sort [] = []
sort (x ∷ xs) = insert_sorted x (sort xs)

-- `arr[i]`; the indices below are within the array
unfoldable pub element : List ℕ → ℕ → ℕ
element [] i = 0
element (x ∷ xs) zero = x
element (x ∷ xs) (suc i) = element xs i

unfoldable pub sorted_median : List ℕ → ℕ → ℕ
unfolding element
sorted_median arr s =
    if s == 0
    then 0
    else if s % 2 == 0
    then (element arr (s / 2 - 1) + element arr (s / 2)) % 2 ^ 64 / 2
    else element arr (s / 2)

unfoldable pub unsorted_median : List ℕ → ℕ
unfolding sorted_median sort
unsorted_median arr = sorted_median (sort arr) (length arr)

-- the median of the lower half; the array is left sorted
unfoldable pub quart : List ℕ → ℕ
unfolding sorted_median sort
quart arr = sorted_median (sort arr) (length arr / 2)

-- `min_element`, of an array that is not empty
unfoldable pub min_element : ℕ → List ℕ → ℕ
min_element x [] = x
min_element x (y ∷ ys) = min_element (if ltb y x then y else x) ys

abbrev pub sum : List ℕ → ℕ
sum [] = 0
sum (x ∷ xs) = x + sum xs

accumulate-add :
    (acc : ℕ) (xs : List ℕ) → acc < 2 ^ 32 → accumulate acc xs ≡ (acc + sum xs) % 2 ^ 32
unfolding accumulate
accumulate-add acc [] h = omega arith
accumulate-add acc (x ∷ xs) h = accumulate-add ((acc + x) % 2 ^ 32) xs (omega arith) ∙ omega arith

pub accumulate_lem : (xs : List ℕ) → accumulate 0 xs ≡ sum xs % 2 ^ 32
accumulate_lem xs = accumulate-add 0 xs (omega arith) ∙ ap (λ (n : ℕ). n % 2 ^ 32) (omega arith)

-- `avg` of at most 2 ^ 24 values whose sum fits 32 bits: their mean, cut to an integer, while the sum
-- fits an `int`; from there on the sum counts as negative, and so does what is returned.
pub avg_lem :
    (fl : Floats) (xs : List ℕ)
    → IsAccurate fl
    → 0 < length xs
    → length xs ≤ 2 ^ 24
    → sum xs < 2 ^ 32
    → avg fl xs ≡ (
        if ltb (sum xs) (2 ^ 31)
        then sum xs / length xs
        else (2 ^ 32 - (2 ^ 32 - sum xs) / length xs) % 2 ^ 32)
unfolding avg div_int
avg_lem fl xs accurate some_values few small =
    let sums : sum xs % 2 ^ 32 ≡ sum xs = omega arith in
    rw
      (
        accurate.exact (length xs) few,
        take_all (length xs) xs (omega arith),
        accumulate_lem xs,
        sums,
      )
      (ground arith)
