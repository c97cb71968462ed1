-- ===== src/Dedup/Archive/Kernels.antt =====
-- The invariants of the archive under sub_Deduplicate and sub_Compress of
-- src/dedup/encode_common.cpp.
use npb_sync.Prelude.{
  ℕ, ◌≡◌, inl, inr, refl, sym, arith, true, false, Bool, some, none, Option-cases, [], subst,
}
use npb_sync.Memory.{Memory, store}
use npb_sync.Dedup.Chunk.{Bytes, uncompressed, compressed, flushed, Chunk}
use npb_sync.Dedup.EncodeCommon.{
  Libraries, Encoder, ok, sub_compress, sub_deduplicate, compress_data,
}
use npb_sync.Dedup.Files.{IsRegular}
use npb_sync.Dedup.HashTable.{hashtable_search, hashtable_insert}
use npb_sync.Dedup.Decoder.{Decoding}
use npb_sync.Dedup.Archive.{Encoding, AreLibraries, IsCompression}
use npb_sync.Dedup.Archive.Decoded.{compress_succeeds, compress-Packs}
use npb_sync.Dedup.Archive.Sharing.{new-Sharing, copy-Sharing, state-Sharing}
use npb_sync.Dedup.Archive.Written.{ArePieces, Written, Kept}

module _ (lib : Libraries) (type : ℕ) (sys : IsRegular lib.sys) (libs : AreLibraries lib)
    (known : IsCompression type) (pieces_of : ℕ → Bytes) (pieces : ArePieces lib pieces_of)
    (header : Bytes) (d0 : Decoding) where
  unfoldable pub IsKept : Encoding → Type 0
  IsKept e = Kept lib type pieces_of header d0 e.s e.seen e.written

  -- the part of the invariant on the file, where no chunk becomes flushed
  move-Written :
      (chunks chunks' : Memory Chunk) (seen seen' : Memory Bool) (out : Bytes) (n : ℕ)
      → ((i : ℕ)
          → seen' i ≡ true
          → (chunks' i).is_duplicate ≡ false
          → (chunks' i).state ≡ flushed
          → (seen i ≡ true) × ((chunks i).is_duplicate ≡ false) × ((chunks i).state ≡ flushed))
      → Written lib type pieces_of header d0 chunks seen out n
      → Written lib type pieces_of header d0 chunks' seen' out n
  move-Written chunks chunks' seen seen' out n back w = record {
    frames = w.frames;
    is_out = w.is_out;
    fit = w.fit;
    d = w.d;
    fed = w.fed;
    decoded = w.decoded;
    keys = w.keys;
    known = λ i a b c. let r = back i a b c in w.known i r.0 r.1 r.2;
  }

  miss : (e : Encoding) (i : ℕ) → Encoder
  miss e i = record e.s {
    chunks =
        store e.s.chunks i
          (record (e.s.chunks i) { sha1 = lib.digest (pieces_of i); is_duplicate = false });
    cache = hashtable_insert (lib.digest (pieces_of i)) i e.s.cache;
  }

  hit : (e : Encoding) (i entry : ℕ) → Encoder
  hit e i entry = record e.s {
    chunks = store e.s.chunks i (record (e.s.chunks i) {
      sha1 = lib.digest (pieces_of i);
      is_duplicate = true;
      compressed_data_ref = entry;
      uncompressed_data = [];
    });
  }

  sub_deduplicate-miss :
      (e : Encoding) (i : ℕ)
      → (e.s.chunks i).uncompressed_data ≡ pieces_of i
      → hashtable_search e.s.cache (lib.digest (pieces_of i)) ≡ none
      → (sub_deduplicate lib i e.s).1 ≡ miss e i
  unfolding sub_deduplicate miss
  sub_deduplicate-miss e i u n = rw (sub_deduplicate, u, n) (rw u refl)

  sub_deduplicate-hit :
      (e : Encoding) (i entry : ℕ)
      → (e.s.chunks i).uncompressed_data ≡ pieces_of i
      → hashtable_search e.s.cache (lib.digest (pieces_of i)) ≡ some entry
      → (sub_deduplicate lib i e.s).1 ≡ hit e i entry
  unfolding sub_deduplicate hit
  sub_deduplicate-hit e i entry u n = rw (sub_deduplicate, u, n) (rw u refl)

  miss-Kept :
      (e : Encoding) (i : ℕ)
      → e.seen i ≡ false
      → IsKept e
      → IsKept (record e { s = miss e i; seen = store e.seen i true })
  unfolding miss IsKept
  miss-Kept e i new k =
      let f = (k.sharing.fresh i new).1 in
      record {
        sharing =
            new-Sharing lib type pieces_of libs.digest e.s.chunks e.s.cache e.seen k.sharing i new;
        output =
            move-Written e.s.chunks _ e.seen _ e.s.out e.written (λ j a b c. ground arith) k.output;
      }

  hit-Kept :
      (e : Encoding) (i entry : ℕ)
      → e.seen i ≡ false
      → hashtable_search e.s.cache (lib.digest (pieces_of i)) ≡ some entry
      → IsKept e
      → IsKept (record e { s = hit e i entry; seen = store e.seen i true })
  unfolding hit IsKept
  hit-Kept e i entry new h k = record {
    sharing =
        copy-Sharing lib type pieces_of libs.digest e.s.chunks e.s.cache e.seen k.sharing i entry
          new h;
    output =
        move-Written e.s.chunks _ e.seen _ e.s.out e.written (λ j a b c. ground arith) k.output;
  }

  pub deduplicate-Kept :
      (e : Encoding) (i : ℕ)
      → e.seen i ≡ false
      → IsKept e
      → IsKept (record e { s = (sub_deduplicate lib i e.s).1; seen = store e.seen i true })
  unfolding IsKept
  deduplicate-Kept e i new k =
      let f = (k.sharing.fresh i new).0 in
      let after : Encoder → Encoding = λ t. record e { s = t; seen = store e.seen i true } in
      elim (Option-cases (hashtable_search e.s.cache (lib.digest (pieces_of i)))) [
        | inl n ↦
            subst (λ t. IsKept (after t)) (sym (sub_deduplicate-miss e i f n)) (miss-Kept e i new k)
        | inr h ↦
            subst (λ t. IsKept (after t)) (sym (sub_deduplicate-hit e i h.0 f h.1))
              (hit-Kept e i h.0 new h.1 k)
      ]

  packed : (e : Encoding) (i : ℕ) → Bytes → Encoder
  packed e i ys = record e.s {
    chunks = store e.s.chunks i (record (e.s.chunks i) {
      compressed_data = ys;
      uncompressed_data = [];
      state = compressed;
    });
  }

  sub_compress_lem :
      (e : Encoding) (i : ℕ) (ys : Bytes)
      → (e.s.chunks i).state ≡ uncompressed
      → (e.s.chunks i).uncompressed_data ≡ pieces_of i
      → compress_data lib type (pieces_of i) ≡ ok ys
      → sub_compress lib type i e.s ≡ ok (packed e i ys)
  unfolding sub_compress packed
  sub_compress_lem e i ys st u c = rw (sub_compress, st, u, c) refl

  packed-Kept :
      (e : Encoding) (i : ℕ) (ys : Bytes)
      → e.seen i ≡ true
      → compress_data lib type (pieces_of i) ≡ ok ys
      → IsKept e
      → IsKept (record e { s = packed e i ys })
  unfolding packed IsKept
  packed-Kept e i ys was c k =
      let p =
        compress-Packs lib libs type known (pieces_of i) ys (pieces.some_bytes i) (pieces.small i)
          c in
      record {
        sharing =
            state-Sharing lib type pieces_of libs.digest e.s.chunks e.s.cache e.seen k.sharing i []
              ys compressed was (λ q. cc q) (λ q. p);
        output =
            move-Written e.s.chunks _ e.seen _ e.s.out e.written (λ j a b c. ground arith) k.output;
      }

  -- sub_compress succeeds on a chunk that is not compressed yet, and keeps the invariant
  pub compress-Kept :
      (e : Encoding) (i : ℕ)
      → e.seen i ≡ true
      → (e.s.chunks i).is_duplicate ≡ false
      → (e.s.chunks i).state ≡ uncompressed
      → IsKept e
      → (s : Encoder) × (sub_compress lib type i e.s ≡ ok s) × IsKept (record e { s = s })
  unfolding IsKept
  compress-Kept e i was unique st k =
      let r = compress_succeeds lib libs type known (pieces_of i) in
      let u = (k.sharing.held i was unique).0 st in
      (packed e i r.0, sub_compress_lem e i r.0 st u r.1, packed-Kept e i r.0 was r.1 k)
