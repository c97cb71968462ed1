-- ===== src/SmartFifo/Semaphore.antt =====
-- `SmartFIFOSemaphore` of src/smart_fifo.h. The value is an `int` that `fetch_sub` may take below 0
-- for a moment; it is kept modulo 2^32. One round of the loop in `wait` is an attempt; a consumer
-- holds the mutex of the consumers meanwhile.
use npb_sync.Prelude.{
  ◌||◌, ℕ, ◌+◌, ◌-◌, ◌%◌, ◌^◌, ◌<◌, ◌≡◌, Bool, true, false, arith, min, ltb, leb, ◌==◌,
  if◌then◌else◌,
}

pub record Semaphore : Type 0 where
  pub value : ℕ
  pub finished : Bool

abbrev pub word : ℕ
word = 2 ^ 32

-- `v <= 0` for the `int` that `v` stands for
abbrev pub not_positive : ℕ → Bool
not_positive v = v == 0 || leb (2 ^ 31) v

unfoldable pub create_semaphore : ℕ → Semaphore
create_semaphore start = record { value = start % word; finished = false }

unfoldable pub post : Semaphore → ℕ → Semaphore
post s i = record s { value = (s.value + i) % word }

unfoldable pub always_wait : Semaphore → ℕ → Semaphore
always_wait s i = record s { value = (s.value + (word - i % word)) % word }

unfoldable pub finish : Semaphore → Semaphore
finish s = record s { finished = true }

-- `again`: the next round follows; `timed_out`: -1 is returned
pub data Waited : Type 0 where
  again timed_out : Waited
  got : ℕ → Waited

-- `late` says whether there is a timeout that has passed. After the loop, `old < i` compares
-- unsigned numbers.
unfoldable pub wait : Semaphore → ℕ → Bool → Waited × Semaphore
unfolding post always_wait
wait s i late =
    let taken = always_wait s i in
    if s.finished
    then (got 0, taken)
    else if not_positive s.value
    then (if late then (timed_out, post taken i) else (again, post taken i))
    else if ltb s.value i
    then (got s.value, post taken (i - s.value))
    else (got i, taken)

-- As long as the semaphore is not finished, for a value that is not negative and `i` below 2^31, a
-- round of `wait` for `i` takes what there is, at most `i`, and it returns what it has taken; if
-- there is nothing, it takes nothing and tries again or reports the timeout.
pub wait_lem :
    (s : Semaphore) (i : ℕ) (late : Bool)
    → s.finished ≡ false
    → s.value < 2 ^ 31
    → i < 2 ^ 31
    → let (result, s') = wait s i late in
      (s'.value ≡ s.value - min s.value i)
      × (s'.finished ≡ false)
      × (result
          ≡ (if s.value == 0 then (if late then timed_out else again) else got (min s.value i)))
unfolding wait post always_wait
wait_lem s i late h p q = ground (arith, h, p, q)
