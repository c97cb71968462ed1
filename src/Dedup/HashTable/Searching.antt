-- ===== src/Dedup/HashTable/Searching.antt =====
-- What `hashtable_search` of src/dedup/hashtable.cpp finds in a table after a change of it.
use npb_sync.Prelude.{
  ℕ, ◌≡◌, refl, Bool, true, false, Option, none, some, List, [], ◌∷◌, arith, Bool-cases, ◌∙◌, ◌⊎◌,
  inl, inr, if◌then◌else◌, sym,
}
use npb_sync.Dedup.HashTable.{
  HashEntry, HashTable, hash, index_for, hashtable_create, hashtable_insert, search_list,
  hashtable_search, remove_list, hashtable_remove,
}

module _ {K V : Type 0} where
  pub search_empty :
      (minsize : ℕ) (hashf : K → ℕ) (eqf : K → K → Bool) (h : HashTable K V) (k : K)
      → hashtable_create minsize hashf eqf ≡ some h
      → hashtable_search h k ≡ none
  unfolding hashtable_create hashtable_search search_list
  search_empty minsize hashf eqf h k e = ground arith

  pub search-insert_same :
      (h : HashTable K V) (k q : K) (v : V)
      → h.hashfn q ≡ h.hashfn k
      → h.eqfn q k ≡ true
      → hashtable_search (hashtable_insert k v h) q ≡ some v
  unfolding hashtable_search hashtable_insert search_list index_for hash
  search-insert_same h k q v e t = ground arith

  pub search-insert_other :
      (h : HashTable K V) (k q : K) (v : V)
      → h.eqfn q k ≡ false
      → hashtable_search (hashtable_insert k v h) q ≡ hashtable_search h q
  unfolding hashtable_search hashtable_insert search_list index_for hash
  search-insert_other h k q v e = ground arith

  pub create-fns :
      (minsize : ℕ) (hashf : K → ℕ) (eqf : K → K → Bool) (h : HashTable K V)
      → hashtable_create minsize hashf eqf ≡ some h
      → (h.hashfn ≡ hashf) × (h.eqfn ≡ eqf)
  unfolding hashtable_create
  create-fns minsize hashf eqf h e = ground arith

  remove-found : (h : HashTable K V) (k : K) → (hashtable_remove h k).0 ≡ hashtable_search h k
  unfolding hashtable_remove hashtable_search
  remove-found h k = refl

  search-remove_list :
      (eq : K → K → Bool) (n m : ℕ) (k q : K) (es : List (HashEntry K V))
      → eq q k ≡ false
      → ((a b : K) → eq a b ≡ true → a ≡ b)
      → search_list eq m q (remove_list eq n k es) ≡ search_list eq m q es
  unfolding search_list remove_list
  search-remove_list eq n m k q [] e equal = refl
  search-remove_list eq n m k q (x ∷ es) e equal =
      let rest = search-remove_list eq n m k q es e equal in
      elim (Bool-cases (eq k x.k)) [
        | inl y ↦ let f : eq q x.k ≡ false = rw (equal k x.k y) at e in ground arith
        | inr n ↦ ground arith
      ]

  remove_other :
      (h : HashTable K V) (k q : K)
      → ((a : K) → h.eqfn a a ≡ true)
      → ((a b : K) → h.eqfn a b ≡ true → a ≡ b)
      → (h.eqfn q k ≡ true) ⊎ (hashtable_search (hashtable_remove h k).1 q ≡ hashtable_search h q)
  unfolding hashtable_search hashtable_remove index_for hash
  remove_other h k q same equal = elim (Bool-cases (h.eqfn q k)) [
    | inl y ↦ inl y
    | inr n ↦
        let l =
          search-remove_list h.eqfn (hash h k) (hash h q) k q
            (h.table (index_for h.tablelength (hash h k))) n equal in
        inr (ground (arith, l))
  ]

  remove-insert :
      (h : HashTable K V) (k q : K) (v : V)
      → h.eqfn k k ≡ true
      → hashtable_search (hashtable_remove (hashtable_insert k v h) k).1 q ≡ hashtable_search h q
  unfolding hashtable_search hashtable_remove hashtable_insert remove_list index_for hash
  remove-insert h k q v same = ground arith

  -- the latest value given with a key equal to `q`, in a list of insertions, the latest first
  pub latest : (K → K → Bool) → K → List (K × V) → Option V
  latest eq q [] = none
  latest eq q ((k, v) ∷ kvs) = if eq q k then some v else latest eq q kvs

  pub insert_all : List (K × V) → HashTable K V → HashTable K V
  insert_all [] h = h
  insert_all ((k, v) ∷ kvs) h = hashtable_insert k v (insert_all kvs h)

  insert_all-fns :
      (kvs : List (K × V)) (h : HashTable K V)
      → ((insert_all kvs h).hashfn ≡ h.hashfn) × ((insert_all kvs h).eqfn ≡ h.eqfn)
  unfolding insert_all hashtable_insert
  insert_all-fns [] h = (refl, refl)
  insert_all-fns ((k, v) ∷ kvs) h = insert_all-fns kvs h

  insert_all-latest :
      (kvs : List (K × V)) (h : HashTable K V) (q : K)
      → ((a b : K) → h.eqfn a b ≡ true → h.hashfn a ≡ h.hashfn b)
      → hashtable_search h q ≡ none
      → hashtable_search (insert_all kvs h) q ≡ latest h.eqfn q kvs
  unfolding insert_all latest
  insert_all-latest [] h q same e = e
  insert_all-latest ((k, v) ∷ kvs) h q same e =
      let t = insert_all kvs h in
      let fns = insert_all-fns kvs h in
      elim (Bool-cases (h.eqfn q k)) [
        | inl y ↦ rw y (search-insert_same t k q v (rw fns.0 (same q k y)) (rw fns.1 y))
        | inr n ↦ rw n (search-insert_other t k q v (rw fns.1 n) ∙ insert_all-latest kvs h q same e)
      ]

  -- The table that hashtable_create gives holds, after any insertions, for every key the value of
  -- the latest insertion of an equal key, and nothing for a key that was not inserted, if equal
  -- keys have equal hash values; so the lists and the indices are not seen from outside.
  pub insert_all_lem :
      (minsize : ℕ) (hashf : K → ℕ) (eqf : K → K → Bool) (h : HashTable K V) (kvs : List (K × V))
      (q : K)
      → hashtable_create minsize hashf eqf ≡ some h
      → ((a b : K) → eqf a b ≡ true → hashf a ≡ hashf b)
      → hashtable_search (insert_all kvs h) q ≡ latest eqf q kvs
  insert_all_lem minsize hashf eqf h kvs q e same =
      let fns = create-fns minsize hashf eqf h e in
      rw (sym fns.1)
        (insert_all-latest kvs h q (rw (fns.0, fns.1) same) (search_empty minsize hashf eqf h q e))

  -- hashtable_remove gives the value that hashtable_search finds, which is what NULL stands for
  -- where there is none, and the search for a key that is not equal to the removed one finds what it
  -- found before; removing a key just inserted makes the table find what it found before the
  -- insertion, for every key. The comparison is to be an equality of keys.
  pub remove_lem :
      (h : HashTable K V) (k q : K) (v : V)
      → ((a : K) → h.eqfn a a ≡ true)
      → ((a b : K) → h.eqfn a b ≡ true → a ≡ b)
      → ((hashtable_remove h k).0 ≡ hashtable_search h k)
        × ((h.eqfn q k ≡ true)
            ⊎ (hashtable_search (hashtable_remove h k).1 q ≡ hashtable_search h q))
        × (hashtable_search (hashtable_remove (hashtable_insert k v h) k).1 q
            ≡ hashtable_search h q)
  remove_lem h k q v same equal =
      (remove-found h k, remove_other h k q same equal, remove-insert h k q v (same k))
