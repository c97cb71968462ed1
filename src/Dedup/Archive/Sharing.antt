-- ===== src/Dedup/Archive/Sharing.antt =====
-- What the chunks and the database of digests say of each other while sub_Deduplicate, sub_Compress
-- and write_chunk_to_file of src/dedup/encode_common.cpp change them.
use npb_sync.Prelude.{
  ℕ, ◌≡◌, ◌⊎◌, inl, inr, refl, ap, ◌∙◌, sym, arith, ◌==◌, length, true, false, Bool, some,
  Bool-cases, ==_iff, subst, [],
}
use npb_sync.Memory.{Memory, store}
use npb_sync.Dedup.Chunk.{Bytes, ChunkState, uncompressed, compressed, Chunk, sha1_len}
use npb_sync.Dedup.EncodeCommon.{Libraries, keys_equal_fn}
use npb_sync.Dedup.HashTable.{HashTable, hashtable_search, hashtable_insert}
use npb_sync.Dedup.HashTable.Searching.{search-insert_same, search-insert_other}
use npb_sync.Dedup.Archive.Decoded.{keys_equal-eq, Packs}

module _ {V : Type 0} where
  -- The search for a digest after an insertion, by whether it is the digest inserted.
  pub search-insert :
      (h : HashTable Bytes V) (k q : Bytes) (v : V)
      → h.eqfn ≡ keys_equal_fn
      → length k ≡ sha1_len
      → length q ≡ sha1_len
      → ((q ≡ k) × (hashtable_search (hashtable_insert k v h) q ≡ some v))
        ⊎ (hashtable_search (hashtable_insert k v h) q ≡ hashtable_search h q)
  search-insert h k q v eq lk lq = elim (Bool-cases (keys_equal_fn q k)) [
    | inl y ↦
        let e = keys_equal-eq q k lq lk y in
        inl (e, search-insert_same h k q v (ap h.hashfn e) (rw eq y))
    | inr n ↦ inr (search-insert_other h k q v (rw eq n))
  ]

  pub insert-eqfn :
      (h : HashTable Bytes V) (k : Bytes) (v : V)
      → h.eqfn ≡ keys_equal_fn
      → (hashtable_insert k v h).eqfn ≡ keys_equal_fn
  unfolding hashtable_insert
  insert-eqfn h k v eq = eq

-- `content` are the pieces of the input
module _ (lib : Libraries) (type : ℕ) (content : ℕ → Bytes) where
  -- chunk `r` is the original of the chunks with digest `k`
  pub record Original (chunks : Memory Chunk) (seen : Memory Bool) (r : ℕ) (k : Bytes)
      : Type 0 where
    pub is_seen : seen r ≡ true
    pub unique : (chunks r).is_duplicate ≡ false
    pub of_digest : lib.digest (content r) ≡ k

  pub record Sharing (chunks : Memory Chunk) (cache : HashTable Bytes ℕ) (seen : Memory Bool)
      : Type 0 where
    pub keys : cache.eqfn ≡ keys_equal_fn
    pub fresh :
        (i : ℕ)
        → seen i ≡ false
        → ((chunks i).uncompressed_data ≡ content i) × ((chunks i).state ≡ uncompressed)
    pub found :
        (j r : ℕ)
        → hashtable_search cache (lib.digest (content j)) ≡ some r
        → Original chunks seen r (lib.digest (content j))
    pub shared :
        (i : ℕ)
        → seen i ≡ true
        → (chunks i).is_duplicate ≡ true
        → Original chunks seen (chunks i).compressed_data_ref (lib.digest (content i))
    pub hashed : (i : ℕ) → seen i ≡ true → (chunks i).sha1 ≡ lib.digest (content i)
    pub held :
        (i : ℕ)
        → seen i ≡ true
        → (chunks i).is_duplicate ≡ false
        → ((chunks i).state ≡ uncompressed → (chunks i).uncompressed_data ≡ content i)
          × ((chunks i).state ≡ compressed → Packs lib type (content i) (chunks i).compressed_data)

  module _ (digest_length : (xs : Bytes) → length (lib.digest xs) ≡ sha1_len)
      (chunks : Memory Chunk) (cache : HashTable Bytes ℕ) (seen : Memory Bool)
      (inv : Sharing chunks cache seen) where
    -- a chunk that is new stays the original of what it was
    original_stays :
        (i : ℕ) (c : Chunk) (r : ℕ) (k : Bytes)
        → seen i ≡ false
        → Original chunks seen r k
        → Original (store chunks i c) (store seen i true) r k
    original_stays i c r k new o =
        let a = o.is_seen in
        let b = o.unique in
        record { is_seen = ground arith; unique = ground arith; of_digest = o.of_digest }

    -- the duplicates but for chunk `i`, the originals and the digests stay as they are
    shared_stays :
        (i : ℕ) (c : Chunk) (j : ℕ)
        → seen i ≡ false
        → (i == j) ≡ false
        → store seen i true j ≡ true
        → (store chunks i c j).is_duplicate ≡ true
        → Original
            (store chunks i c)
            (store seen i true)
            (store chunks i c j).compressed_data_ref
            (lib.digest (content j))
    shared_stays i c j new n h h' = rw n (
        original_stays i c (chunks j).compressed_data_ref (lib.digest (content j)) new
          (inv.shared j (rw n at h) (rw n at h')))

    held_stays :
        (i : ℕ) (c : Chunk) (j : ℕ)
        → (i == j) ≡ false
        → store seen i true j ≡ true
        → (store chunks i c j).is_duplicate ≡ false
        → ((store chunks i c j).state ≡ uncompressed
            → (store chunks i c j).uncompressed_data ≡ content j)
          × ((store chunks i c j).state ≡ compressed
              → Packs lib type (content j) (store chunks i c j).compressed_data)
    held_stays i c j n h h' = rw n (inv.held j (rw n at h) (rw n at h'))

    -- sub_Deduplicate on a miss
    pub new-Sharing :
        (i : ℕ)
        → seen i ≡ false
        → Sharing
            (store chunks i
              (record (chunks i) { sha1 = lib.digest (content i); is_duplicate = false }))
            (hashtable_insert (lib.digest (content i)) i cache)
            (store seen i true)
    new-Sharing i new =
        let c = record (chunks i) { sha1 = lib.digest (content i); is_duplicate = false } in
        let key : ℕ → Bytes = λ j. lib.digest (content j) in
        record {
          keys = insert-eqfn cache (key i) i inv.keys;
          fresh = λ j h. ground (arith, inv.fresh j);
          found = λ j r e.
              elim (search-insert cache (key i) (key j) i inv.keys (digest_length (content i))
                (digest_length (content j))) [
                  | inl same ↦
                      let r_i : r ≡ i = cc in
                      let d : lib.digest (content r) ≡ key j = ap key r_i ∙ sym same.0 in
                      record { is_seen = ground arith; unique = ground arith; of_digest = d }
                  | inr other ↦ original_stays i c r (key j) new (inv.found j r (sym other ∙ e))
                ];
          shared = λ j h h'. elim (Bool-cases (i == j)) [
            | inl y ↦ absurd (ground arith)
            | inr n ↦ shared_stays i c j new n h h'
          ];
          hashed = λ j h. ground (arith, inv.hashed j);
          held = λ j h h'. elim (Bool-cases (i == j)) [
            | inl y ↦
                let e = (==_iff i j).0 y in
                let f = inv.fresh i new in rw y (λ _. f.0 ∙ ap content e, λ p. absurd (cc (f.1, p)))
            | inr n ↦ held_stays i c j n h h'
          ];
        }

    -- sub_Deduplicate on a hit
    pub copy-Sharing :
        (i entry : ℕ)
        → seen i ≡ false
        → hashtable_search cache (lib.digest (content i)) ≡ some entry
        → Sharing
            (store chunks i (record (chunks i) {
              sha1 = lib.digest (content i);
              is_duplicate = true;
              compressed_data_ref = entry;
              uncompressed_data = [];
            }))
            cache
            (store seen i true)
    copy-Sharing i entry new hit =
        let c = record (chunks i) {
          sha1 = lib.digest (content i);
          is_duplicate = true;
          compressed_data_ref = entry;
          uncompressed_data = [];
        } in
        let key : ℕ → Bytes = λ j. lib.digest (content j) in
        record {
          keys = inv.keys;
          fresh = λ j h. ground (arith, inv.fresh j);
          found = λ j r e. original_stays i c r (key j) new (inv.found j r e);
          shared = λ j h h'. elim (Bool-cases (i == j)) [
            | inl y ↦
                let e = (==_iff i j).0 y in
                rw y (
                  original_stays i c entry (key j) new
                    (subst (λ k. Original chunks seen entry (key k)) e (inv.found i entry hit)))
            | inr n ↦ shared_stays i c j new n h h'
          ];
          hashed = λ j h. ground (arith, inv.hashed j);
          held = λ j h h'. elim (Bool-cases (i == j)) [
            | inl y ↦ absurd (ground arith)
            | inr n ↦ held_stays i c j n h h'
          ];
        }

    original_kept :
        (i : ℕ) (c : Chunk) (r : ℕ) (k : Bytes)
        → c.is_duplicate ≡ (chunks i).is_duplicate
        → Original chunks seen r k
        → Original (store chunks i c) seen r k
    original_kept i c r k same o =
        let b = o.unique in
        record { is_seen = o.is_seen; unique = ground arith; of_digest = o.of_digest }

    -- a change of the data and the state of an original that was seen
    pub state-Sharing :
        (i : ℕ) (xs ys : Bytes) (state : ChunkState)
        → seen i ≡ true
        → (state ≡ uncompressed → xs ≡ content i)
        → (state ≡ compressed → Packs lib type (content i) ys)
        → Sharing
            (store chunks i
              (record (chunks i) { uncompressed_data = xs; compressed_data = ys; state = state }))
            cache
            seen
    state-Sharing i xs ys state was u p =
        let c = record (chunks i) { uncompressed_data = xs; compressed_data = ys; state = state } in
        record {
          keys = inv.keys;
          fresh = λ j h. ground (arith, inv.fresh j);
          found = λ j r e. original_kept i c r (lib.digest (content j)) refl (inv.found j r e);
          shared = λ j h h'.
              let ref : (store chunks i c j).compressed_data_ref ≡ (chunks j).compressed_data_ref =
                ground arith in
              let dup : (chunks j).is_duplicate ≡ true = ground arith in
              rw ref (
                original_kept i c (chunks j).compressed_data_ref (lib.digest (content j)) refl
                  (inv.shared j h dup));
          hashed = λ j h. ground (arith, inv.hashed j);
          held = λ j h h'. elim (Bool-cases (i == j)) [
            | inl y ↦
                let e = (==_iff i j).0 y in
                rw y
                  (λ q. u q ∙ ap content e, λ q. subst (λ k. Packs lib type (content k) ys) e (p q))
            | inr n ↦ rw n (inv.held j h (rw n at h'))
          ];
        }
