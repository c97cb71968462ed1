-- ===== src/Dedup/HashTable.antt =====
-- The hash table of src/dedup/hashtable.cpp, of a fixed size, as it is compiled without
-- ENABLE_DYNAMIC_EXPANSION. An entry's `next` is the tail of the list it stands in. Memory is
-- taken to be there when it is asked for; `free_keys` and the freeing of entries are left out. The
-- locks, one for each list, are the callers' to take: an operation is one step on its list.
pub mod Searching
use Prim.Native.Nat.{bit_or, bit_xor}
use npb_sync.Prelude.{
  ℕ, ◌+◌, ◌-◌, ◌*◌, ◌/◌, ◌%◌, ◌^◌, Bool, ◌&&◌, Option, none, some, List, [], ◌∷◌, ltb, ◌==◌,
  if◌then◌else◌,
}
use npb_sync.Memory.{Memory, store}

pub record HashEntry {ℓ} (K V : Type ℓ) : Type ℓ where
  pub h : ℕ
  pub k : K
  pub v : V

pub record HashTable {ℓ} (K V : Type ℓ) : Type ℓ where
  pub tablelength : ℕ
  pub table : Memory (List (HashEntry K V))
  pub hashfn : K → ℕ
  pub eqfn : K → K → Bool

abbrev pub primes : List ℕ
primes =
    53 ∷ 97 ∷ 193 ∷ 389 ∷ 769 ∷ 1543 ∷ 3079 ∷ 6151 ∷ 12289 ∷ 24593 ∷ 49157 ∷ 98317 ∷ 196613 ∷ 393241
    ∷ 786433 ∷ 1572869 ∷ 3145739 ∷ 6291469 ∷ 12582917 ∷ 25165843 ∷ 50331653 ∷ 100663319 ∷ 201326611
    ∷ 402653189 ∷ 805306457 ∷ 1610612741 ∷ []

-- the first prime of the list above `minsize`, or `size` where there is none
unfoldable pub enforce_prime : List ℕ → ℕ → ℕ → ℕ
enforce_prime [] minsize size = size
enforce_prime (p ∷ ps) minsize size = if ltb minsize p then p else enforce_prime ps minsize size

unfoldable pub hashtable_create {ℓ} :
    {K V : Type ℓ} → ℕ → (K → ℕ) → (K → K → Bool) → Option (HashTable K V)
unfolding enforce_prime
hashtable_create minsize hashf eqf =
    if ltb (2 ^ 30) minsize
    then none
    else some (record {
      tablelength = enforce_prime primes minsize 53;
      table = λ _. [];
      hashfn = hashf;
      eqfn = eqf;
    })

-- the 32-bit arithmetic of `hash`: `i += ~(i << 9)`, and the rounds after it
unfoldable pub mix : ℕ → ℕ
mix key =
    let i = key % 2 ^ 32 in
    let i' = (i + (2 ^ 32 - 1 - i * 2 ^ 9 % 2 ^ 32)) % 2 ^ 32 in
    let j = bit_xor i' (bit_or (i' / 2 ^ 14) (i' * 2 ^ 18 % 2 ^ 32)) in
    let j' = (j + j * 2 ^ 4 % 2 ^ 32) % 2 ^ 32 in
    bit_xor j' (bit_or (j' / 2 ^ 10) (j' * 2 ^ 22 % 2 ^ 32))

unfoldable pub index_for : ℕ → ℕ → ℕ
index_for tablelength hashvalue = hashvalue % tablelength

module _ {ℓ} {K V : Type ℓ} where
  unfoldable pub hash : HashTable K V → K → ℕ
  hash h k = mix (h.hashfn k)

  -- the index of the lock, which is that of the list
  unfoldable pub hashtable_getlock : HashTable K V → K → ℕ
  unfolding hash index_for
  hashtable_getlock h k = index_for h.tablelength (hash h k)

  unfoldable pub hashtable_insert : K → V → HashTable K V → HashTable K V
  unfolding hash index_for
  hashtable_insert k v h =
      let e : HashEntry K V = record { h = hash h k; k = k; v = v } in
      let index = index_for h.tablelength (hash h k) in
      record h { table = store h.table index (e ∷ h.table index) }

  -- the loop over `e`
  unfoldable pub search_list : (K → K → Bool) → ℕ → K → List (HashEntry K V) → Option V
  search_list eq hashvalue k [] = none
  search_list eq hashvalue k (e ∷ es) =
      if (hashvalue == e.h) && eq k e.k then some e.v else search_list eq hashvalue k es

  unfoldable pub hashtable_search : HashTable K V → K → Option V
  unfolding hash index_for search_list
  hashtable_search h k =
      search_list h.eqfn (hash h k) k (h.table (index_for h.tablelength (hash h k)))

  -- `*pE = e->next`
  unfoldable pub remove_list : (K → K → Bool) → ℕ → K → List (HashEntry K V) → List (HashEntry K V)
  remove_list eq hashvalue k [] = []
  remove_list eq hashvalue k (e ∷ es) =
      if (hashvalue == e.h) && eq k e.k then es else e ∷ remove_list eq hashvalue k es

  -- the value that was removed, or NULL
  unfoldable pub hashtable_remove : HashTable K V → K → Option V × HashTable K V
  unfolding hash index_for search_list remove_list
  hashtable_remove h k =
      let index = index_for h.tablelength (hash h k) in
      (
        search_list h.eqfn (hash h k) k (h.table index),
        record h { table = store h.table index (remove_list h.eqfn (hash h k) k (h.table index)) },
      )
