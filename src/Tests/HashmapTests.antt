-- ===== src/Tests/HashmapTests.antt =====
-- lib/hashmap.c with four lists at 1000, and a hash that is the first byte of the key.
use mint.Base.{ℕ, zero, suc, ◌+◌, some, ◌≡◌, refl, arith, inl}
use mint.Memory.{Memory}
use mint.Hashmap.{Hashmap, Heap, hashmap_get, hashmap_set}
use mint.Hashmap.Lookup.{ReadsKey, hashmap_get-hashmap_set}
use mint.Tests.RingTests.{blank}

abbrev first_byte : Memory → ℕ → ℕ → ℕ
first_byte m key zero = 0
first_byte m key (suc n) = m (key + 0)

first_byte-ReadsKey : ReadsKey first_byte
first_byte-ReadsKey m m' key zero same = refl
first_byte-ReadsKey m m' key (suc n) same = same 0 (omega arith)

abbrev table : Hashmap
table = record { size = 4; buckets = 1000 }

abbrev heap : Heap
heap = record { bytes = λ x. x; links = blank; key = λ _. 0; value = λ _. 0 }

hashmap_get-hashmap_set_example :
    (index : ℕ) × (heap' : Heap) × (hashmap_set first_byte table heap 500 8 77 300 400
      ≡ some (index, heap'))
    × (hashmap_get first_byte 1 table heap' 500 8 ≡ some 77)
hashmap_get-hashmap_set_example =
    hashmap_get-hashmap_set first_byte 0 table heap 500 8 77 300 400 first_byte-ReadsKey
      (omega arith) (inl (omega arith)) (λ index e. absurd (omega (arith, e)))
