-- ===== src/Hashmap/Lookup.antt =====
-- A lookup in the table of lib/hashmap.c after a store.
use mint.Base.{
  ℕ, suc, ◌+◌, ◌-◌, ◌%◌, ◌≤◌, ◌<◌, some, ◌&&◌, true, false, ◌≡◌, ◌≢◌, ◌⊎◌, inl, inr, refl, sym, ◌∙◌,
  arith, ltb, leb, ◌==◌, ==_refl, ne→==-false, if◌then◌else◌, pos,
}
use mint.Ring.{Links, list_add, list_empty}
use mint.Memory.{Memory, memcmp, memcpy, memset}
use mint.Memory.Copy.{memcpy_lem, memset_lem}
use mint.Memory.Find.{memcmp_lem}
use mint.Hashmap.{Hashmap, bucket_list, Heap, find_key, hashmap_hash, hashmap_get, hashmap_set}

-- Two ranges have no byte in common.
abbrev pub AreDisjoint : ℕ → ℕ → ℕ → Type 0
AreDisjoint copy key n = (copy + n ≤ key) ⊎ (key + n ≤ copy)

one_way : (copy key n : ℕ) → AreDisjoint copy key n → (copy ≤ key) ⊎ (key + n ≤ copy)
one_way copy key n (inl le) = inl (omega arith)
one_way copy key n (inr le) = inr le

-- The bytes of a key are outside the block for its copy.
outside_block :
    (copy key n j : ℕ)
    → AreDisjoint copy key n
    → j < n
    → (leb copy (key + j) && ltb (key + j) (copy + n)) ≡ false
outside_block copy key n j (inl le) lt = ground arith
outside_block copy key n j (inr le) lt = ground arith

module _ (m : Memory) (copy key n : ℕ) (apart : AreDisjoint copy key n) where
  cleared : (j : ℕ) → j < n → memset m copy 0 n (key + j) ≡ m (key + j)
  cleared j lt = memset_lem m copy 0 n (key + j) ∙ rw (outside_block copy key n j apart lt) refl

  -- The bytes of the key are still there, and the copy has them too.
  kept : (j : ℕ) → j < n → memcpy (memset m copy 0 n) copy key n (key + j) ≡ m (key + j)
  kept j lt =
      memcpy_lem (memset m copy 0 n) copy key n (one_way copy key n apart) (key + j)
      ∙ rw (outside_block copy key n j apart lt) (cleared j lt)

  same_bytes : (j : ℕ) → j < n → memcpy (memset m copy 0 n) copy key n (copy + j) ≡ m (key + j)
  same_bytes j lt =
      let inside : (leb copy (copy + j) && ltb (copy + j) (copy + n)) ≡ true = ground arith in
      let back : copy + j - copy ≡ j = omega arith in
      memcpy_lem (memset m copy 0 n) copy key n (one_way copy key n apart) (copy + j)
      ∙ rw (inside, back) (cleared j lt)

  -- So the two compare equal.
  memcmp_same : memcmp (memcpy (memset m copy 0 n) copy key n) copy key n ≡ pos 0
  memcmp_same = elim (memcmp_lem (memcpy (memset m copy 0 n) copy key n) copy key n) [
    | inl (e, same) ↦ e
    | inr (i, lt, same, differ, e) ↦ absurd (differ (same_bytes i lt ∙ sym (kept i lt)))
  ]

first_next : (links : Links) (list element : ℕ) → (list_add links list element).next list ≡ element
unfolding list_add
first_next links list element = rw (==_refl list) refl

-- The first bucket has the key.
find_first :
    (fuel : ℕ) (heap : Heap) (list key n bucket : ℕ)
    → bucket ≢ list
    → memcmp heap.bytes (heap.key bucket) key n ≡ pos 0
    → find_key (suc fuel) heap list key n bucket ≡ some (heap.value bucket)
unfolding find_key
find_first fuel heap list key n bucket ne e = rw (ne→==-false bucket list ne, e) refl

-- A hash reads the bytes of the key alone.
abbrev pub ReadsKey : (Memory → ℕ → ℕ → ℕ) → Type 0
ReadsKey murmur =
    (m m' : Memory) (key n : ℕ)
    → ((j : ℕ) → j < n → m (key + j) ≡ m' (key + j))
    → murmur m key n ≡ murmur m' key n

-- In a table of positive size, a lookup of a key that has just been stored stops and finds the value,
-- if the hash reads the bytes of the key alone, the block for the copy does not touch the key, and the
-- new bucket is not the head of a list. One round is fuel enough.
pub hashmap_get-hashmap_set :
    (murmur : Memory → ℕ → ℕ → ℕ) (fuel : ℕ) (hashmap : Hashmap) (heap : Heap)
    (key n value bucket copy : ℕ)
    → ReadsKey murmur
    → 0 < hashmap.size
    → AreDisjoint copy key n
    → ((index : ℕ) → bucket ≢ bucket_list hashmap index)
    → (index : ℕ) × (heap' : Heap) × (hashmap_set murmur hashmap heap key n value bucket copy
        ≡ some (index, heap'))
      × (hashmap_get murmur (suc fuel) hashmap heap' key n ≡ some value)
unfolding hashmap_set hashmap_get hashmap_hash list_empty
hashmap_get-hashmap_set murmur fuel hashmap heap key n value bucket copy reads positive apart
      fresh =
    let index = murmur heap.bytes key n % hashmap.size in
    let bytes = memcpy (memset heap.bytes copy 0 n) copy key n in
    let list = bucket_list hashmap index in
    let heap' : Heap = record {
      bytes = bytes;
      links = list_add heap.links list bucket;
      key = λ x. if bucket == x then copy else heap.key x;
      value = λ x. if bucket == x then value else heap.value x;
    } in
    let hash : murmur bytes key n ≡ murmur heap.bytes key n =
      reads bytes heap.bytes key n (kept heap.bytes copy key n apart) in
    let size : (hashmap.size == 0) ≡ false = ne→==-false hashmap.size 0 (omega arith) in
    let first : heap'.links.next list ≡ bucket = first_next heap.links list bucket in
    let ne = fresh index in
    let same : memcmp bytes (heap'.key bucket) key n ≡ pos 0 =
      rw (==_refl bucket) (memcmp_same heap.bytes copy key n apart) in
    (
      index,
      heap',
      rw size refl,
      rw (size, hash, first, ne→==-false bucket list ne)
          (find_first fuel heap' list key n bucket ne same ∙ rw (==_refl bucket) refl),
    )
