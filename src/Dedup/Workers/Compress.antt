-- ===== src/Dedup/Workers/Compress.antt =====
-- CompressNaiveQueue of src/dedup/encode_naive_queue.cpp: the thread of the stage Compress, which gives
-- up a `cross_pop` after a time and then hands over what its other view holds.
use npb_sync.Prelude.{ℕ, Bool, true, false, Option, none, some, if◌then◌else◌}
use npb_sync.NaiveQueue.Master.{Master, Attempt, waits, returned}
use npb_sync.NaiveQueue.Client.{Impl, cross_pop_no_timing}
use npb_sync.Dedup.EncodeCommon.{Libraries, Encoder, Result, ok, exit, sub_compress}
use npb_sync.Dedup.Workers.{Lane, put, flush, force, close, after}

-- where the thread stands: at `cross_pop_no_timing`, at the `force_push` in it, in the second part of
-- a `push`, or in `terminate`; `exited` if a kernel has ended the program
pub data CompressTask : Type 0 where
  popping : CompressTask
  forcing : CompressTask
  pushing : CompressTask
  closing : CompressTask
  ended : CompressTask
  exited : CompressTask

-- the thread Compress
pub record CompressWorker : Type 0 where
  pub input : Master ℕ
  pub input_view : Impl ℕ
  pub output : Lane
  pub task : CompressTask

-- `sub_Compress` has returned
unfoldable pub compressed_chunk :
    ℕ → Encoder → CompressWorker → Result Encoder → Encoder × CompressWorker
compressed_chunk chunk s w (exit e) = (s, record w { task = exited })
compressed_chunk chunk s w (ok s') = (s', record w { output = put w.output chunk; task = pushing })

-- `cross_pop_no_timing` has returned, or is about to call `force_push`
unfoldable pub compress_popped :
    Libraries
    → ℕ
    → Encoder
    → CompressWorker
    → Attempt (Bool × Option ℕ × Master ℕ × Impl ℕ)
    → Attempt (Encoder × CompressWorker)
unfolding compressed_chunk
compress_popped lib type s w waits = waits
compress_popped lib type s w (returned (true, value, m, q)) =
    returned (s, record w { input = m; input_view = q; task = forcing })
compress_popped lib type s w (returned (false, none, m, q)) =
    returned (s, record w { input = m; input_view = q; task = closing })
compress_popped lib type s w (returned (false, some chunk, m, q)) = returned (
    compressed_chunk chunk s (record w { input = m; input_view = q })
      (sub_compress lib type chunk s))

abbrev pub with_lane : CompressWorker → CompressTask → Lane → CompressWorker
with_lane w next l = record w { output = l; task = next }

-- One attempt of the call that the thread stands at; `locked` says that `try_lock_for` obtained the
-- mutex in time.
unfoldable pub compress_step :
    Libraries
    → ℕ
    → Bool
    → Encoder
    → CompressWorker
    → CompressTask
    → Attempt (Encoder × CompressWorker)
unfolding compress_popped flush force close
compress_step lib type locked s w popping =
    compress_popped lib type s w (cross_pop_no_timing locked w.input w.input_view)
compress_step lib type locked s w forcing = after (λ l. (s, with_lane w popping l)) (force w.output)
compress_step lib type locked s w pushing = after (λ l. (s, with_lane w popping l)) (flush w.output)
compress_step lib type locked s w closing =
    after (λ r. (s, with_lane w (if r.0 then ended else closing) r.1)) (close w.output)
compress_step lib type locked s w ended = returned (s, record w { task = ended })
compress_step lib type locked s w exited = returned (s, record w { task = exited })
