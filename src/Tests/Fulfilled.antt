-- ===== src/Tests/Fulfilled.antt =====
-- The promises of src/promises on concrete inputs.
use npb_sync.Prelude.{ℕ, ◌*◌, ◌<◌, ◌≡◌, refl, some, arith, ◌==◌, if◌then◌else◌}
use npb_sync.Memory.{Memory}
use npb_sync.NaiveQueue.Master.{waits, returned}
use npb_sync.Promises.StaticStep.{
  StaticPromise, new_promise, set_all, get_active, get_passive, value_at,
}
use npb_sync.Promises.StaticStep.Blocks.{HasSet, set_all_lem, get_active_lem}

abbrev zeros : Memory ℕ
zeros i = 0

abbrev squares : ℕ → ℕ
squares i = i * i

set_all_lem_example :
    (p : StaticPromise ℕ) × (p' : StaticPromise ℕ) × (new_promise zeros 8 3 ≡ some p)
    × (set_all p squares 5 ≡ some p')
    × HasSet squares 8 3 5 p'
set_all_lem_example = set_all_lem zeros squares 8 3 5 (omega arith) (omega arith) (omega arith)

-- five values have been set in blocks of three: the first three can be seen
abbrev seen : StaticPromise ℕ
seen = record {
  nb_values = 8;
  values = squares;
  step = 3;
  strong = 3;
  current = 3;
  weak = λ thread. 0;
}

seen-HasSet : HasSet squares 8 3 5 seen
seen-HasSet = record {
  size_same = refl;
  inside = omega arith;
  step_same = refl;
  stored = λ i q. refl;
  marks = refl;
  blocks = 1;
  whole = refl;
  below = omega arith;
  close = omega arith;
  copied = λ thread. omega arith;
}

-- the consumer 1 after it has found the value 2
abbrev seen' : StaticPromise ℕ
seen' = record seen { weak = λ thread. if 1 == thread then 3 else 0 }

get_active_lem_example : (2 < 5) × (some 4 ≡ some (squares 2)) × HasSet squares 8 3 5 seen'
unfolding get_active value_at
get_active_lem_example = get_active_lem squares 8 3 5 seen 1 2 seen-HasSet (some 4) seen' refl

-- The fourth value waits for its block; the passive class does not wait for a value not yet set.
waiting : (get_active seen 1 3 ≡ waits) × ((get_passive seen 1 4) ≡ returned (some 16, seen'))
unfolding get_active get_passive value_at
waiting = (refl, refl)
