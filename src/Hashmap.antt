-- ===== src/Hashmap.antt =====
-- lib/hashmap.c: a chained hash table over include/lib/list.h. `murmur` of lib/murmur.c is a parameter,
-- and the blocks that `kzalloc` returns are arguments. `NULL` is 0.
pub mod Lookup
use mint.Base.{
  ℕ, zero, suc, ◌+◌, ◌*◌, ◌%◌, ◌^◌, Option, none, some, ◌>>=◌, ◌==◌, if◌then◌else◌, ℤ, pos,
}
use mint.Ring.{Links, list_runtime_init, list_add, list_empty}
use mint.Memory.{Memory, memcmp, memcpy, memset}

-- `struct hashmap`, with the address of its array of list elements of 16 bytes.
pub record Hashmap : Type 0 where
  pub size : ℕ
  pub buckets : ℕ

abbrev pub bucket_list : Hashmap → ℕ → ℕ
bucket_list hashmap index = hashmap.buckets + 16 * index

-- The bytes in memory, the list elements, and the `struct bucket` that has its `list` at an address.
pub record Heap : Type 0 where
  pub bytes : Memory
  pub links : Links
  pub key : ℕ → ℕ
  pub value : ℕ → ℕ

-- The loop of `hashmap_create` from `i` on, with the number of rounds left.
unfoldable pub init_lists : ℕ → ℕ → Hashmap → Links → Links
init_lists zero i hashmap links = links
init_lists (suc n) i hashmap links =
    init_lists n (i + 1) hashmap (list_runtime_init links (bucket_list hashmap i))

unfoldable pub hashmap_create : ℕ → ℕ → Heap → Hashmap × Heap
hashmap_create size buckets heap =
    let hashmap : Hashmap = record { size = size; buckets = buckets } in
    (hashmap, record heap { links = init_lists size 0 hashmap heap.links })

-- The loop of `hashmap_get`, on fuel, from `bucket` on.
unfoldable pub find_key : ℕ → Heap → ℕ → ℕ → ℕ → ℕ → Option ℕ
find_key zero heap list key key_size bucket = none
find_key (suc fuel) heap list key key_size bucket =
    let rest = find_key fuel heap list key key_size (heap.links.next bucket) in
    if bucket == list then some 0 else elim (memcmp heap.bytes (heap.key bucket) key key_size) [
      | pos zero ↦ some (heap.value bucket)
      | _ ↦ rest
    ]

module _ (murmur : Memory → ℕ → ℕ → ℕ) where
  -- A table of size 0 divides by 0.
  unfoldable pub hashmap_hash : Heap → ℕ → ℕ → ℕ → Option ℕ
  hashmap_hash heap key keylen hashmap_size =
      if hashmap_size == 0 then none else some (murmur heap.bytes key keylen % hashmap_size)

  unfoldable pub hashmap_get : ℕ → Hashmap → Heap → ℕ → ℕ → Option ℕ
  hashmap_get fuel hashmap heap key key_size =
      hashmap_hash heap key key_size hashmap.size >>= λ index.
      let list = bucket_list hashmap index in
      if list_empty heap.links list
      then some 0
      else find_key fuel heap list key key_size (heap.links.next list)

  -- With the address of the `list` of the new bucket, and that of the copy of the key.
  unfoldable pub hashmap_set : Hashmap → Heap → ℕ → ℕ → ℕ → ℕ → ℕ → Option (ℕ × Heap)
  hashmap_set hashmap heap key key_size value bucket copy =
      hashmap_hash heap key key_size hashmap.size >>= λ index. some (
        index,
        record {
          bytes = memcpy (memset heap.bytes copy 0 key_size) copy key key_size;
          links = list_add heap.links (bucket_list hashmap index) bucket;
          key = λ x. if bucket == x then copy else heap.key x;
          value = λ x. if bucket == x then value else heap.value x;
        },
      )
