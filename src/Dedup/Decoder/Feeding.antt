-- ===== src/Dedup/Decoder/Feeding.antt =====
-- The loop of the decoder of src/dedup/decoder.cpp over an input that is made of frames: it
-- processes their chunks one after the other.
use npb_sync.Prelude.{
  ℕ, zero, suc, ◌%◌, ◌^◌, ◌<◌, ◌≡◌, refl, ap, ◌∙◌, sym, List, [], ◌∷◌, ◌++◌, arith, leb, ◌==◌,
  length, false, some, none, append-nil, append_assoc, subst,
}
use npb_sync.Dedup.Chunk.{Bytes, Chunk}
use npb_sync.Dedup.EncodeCommon.{
  Result, ok, ◌>>=◌, Libraries, >>=-change, >>=-ok, >>=-assoc, ok-injective,
}
use npb_sync.Dedup.Files.{IsRegular, negative, is_zero}
use npb_sync.Dedup.Files.Whole.{xwrite_lem}
use npb_sync.Dedup.Decoder.{
  Decoding, uncompress_chunk, write_entry, process_chunk, decode_round, decode_loop,
}
use npb_sync.Dedup.Decoder.Frames.{
  Frame, content, Fits, Fits-bounds, frame_bytes, hold, read_chunk_lem, read_end,
}

abbrev pub archive : List Frame → Bytes
archive [] = []
archive (f ∷ fs) = frame_bytes f ++ archive fs

abbrev pub AllFit : List Frame → Type 0
AllFit [] = Unit {0}
AllFit (f ∷ fs) = Fits f × AllFit fs

pub archive-snoc :
    (fs : List Frame) (f : Frame) → archive (fs ++ f ∷ []) ≡ archive fs ++ frame_bytes f
archive-snoc [] f = append-nil (frame_bytes f)
archive-snoc (g ∷ fs) f =
    ap (◌++◌ (frame_bytes g)) (archive-snoc fs f)
    ∙ sym (append_assoc (frame_bytes g) (archive fs) (frame_bytes f))

pub AllFit-snoc : (fs : List Frame) (f : Frame) → AllFit fs → Fits f → AllFit (fs ++ f ∷ [])
AllFit-snoc [] f h k = (k, tt)
AllFit-snoc (g ∷ fs) f h k = (h.0, AllFit-snoc fs f h.1 k)

module _ (lib : Libraries) (type : ℕ) where
  -- the rounds without the reading
  unfoldable pub feed : List Frame → Decoding → Result Decoding
  feed [] d = ok d
  feed (f ∷ fs) d = process_chunk lib type (record d { chunk = hold f d.chunk }) >>= feed fs

  pub feed-snoc :
      (fs : List Frame) (f : Frame) (d d' : Decoding)
      → feed fs d ≡ ok d'
      → feed (fs ++ f ∷ []) d ≡ process_chunk lib type (record d' { chunk = hold f d'.chunk })
  unfolding feed
  feed-snoc [] f d d' e =
      subst (λ x. feed (f ∷ []) d ≡ process_chunk lib type (record x { chunk = hold f x.chunk }))
        (ok-injective d d' e)
        (>>=-ok (process_chunk lib type (record d { chunk = hold f d.chunk })))
  feed-snoc (g ∷ fs) f d d' e =
      >>=-change (process_chunk lib type (record d { chunk = hold g d.chunk })) (feed fs)
        (feed (fs ++ f ∷ [])) e λ d1 _ e1. feed-snoc fs f d1 d' e1

  module _ (sys : IsRegular lib.sys) where
    pub write_entry_lem :
        (entry : Chunk) (d : Decoding)
        → length entry.uncompressed_data < 2 ^ 31
        → write_entry lib entry d ≡ ok (record d { out = d.out ++ entry.uncompressed_data })
    unfolding write_entry negative
    write_entry_lem entry d h =
        rw (xwrite_lem lib.sys sys entry.uncompressed_data d.out) (ground arith)

    process_chunk-input :
        (d : Decoding) (input : Bytes)
        → process_chunk lib type (record d { input = input })
          ≡ (process_chunk lib type d >>= λ d'. ok (record d' { input = input }))
    unfolding process_chunk uncompress_chunk write_entry
    process_chunk-input d input = ground arith

    decode_round_end : (d : Decoding) → decode_round lib type (record d { input = [] }) ≡ ok none
    unfolding decode_round negative is_zero
    decode_round_end d = rw (read_end lib sys d.chunk) refl

    decode_round_lem :
        (f : Frame) (rest : Bytes) (d : Decoding)
        → Fits f
        → decode_round lib type (record d { input = frame_bytes f ++ rest }) ≡ (
            process_chunk lib type (record d { chunk = hold f d.chunk }) >>= λ d'.
            ok (some (record d' { input = rest })))
    unfolding decode_round negative is_zero
    decode_round_lem f rest d fit =
        let b = Fits-bounds f fit in
        let i = process_chunk-input (record d { chunk = hold f d.chunk }) rest in
        let n = length (content f) in
        let positive : leb (2 ^ 31) (n % 2 ^ 32) ≡ false = ground arith in
        let some_data : (n % 2 ^ 32 == 0) ≡ false = ground arith in
        rw (read_chunk_lem lib sys f d.chunk rest fit, positive, some_data, i)
          (>>=-assoc (process_chunk lib type (record d { chunk = hold f d.chunk }))
            (λ d'. record d' { input = rest }) (λ d'. ok (some d')))

    pub decode_loop_lem :
        (fuel : ℕ) (fs : List Frame) (d d' : Decoding)
        → AllFit fs
        → length fs < fuel
        → feed fs d ≡ ok d'
        → decode_loop lib fuel type (record d { input = archive fs }) ≡ ok d'.out
    unfolding feed decode_loop
    decode_loop_lem zero fs d d' fit h e = absurd (omega arith)
    decode_loop_lem (suc fuel) [] d d' fit h e =
        rw (decode_round_end d) (ap (λ x. ok x.out) (ok-injective d d' e))
    decode_loop_lem (suc fuel) (f ∷ fs) d d' fit h e =
        rw (decode_round_lem f (archive fs) d fit.0) (
          >>=-assoc (process_chunk lib type (record d { chunk = hold f d.chunk }))
            (λ d1. some (record d1 { input = archive fs }))
            (λ o. elim o [ none ↦ ok d.out | some d1 ↦ decode_loop lib fuel type d1 ])
          ∙ >>=-change (process_chunk lib type (record d { chunk = hold f d.chunk })) (feed fs)
              (λ d1. decode_loop lib fuel type (record d1 { input = archive fs })) e
              λ d1 _ e1. decode_loop_lem fuel fs d1 d' fit.1 (omega arith) e1)
