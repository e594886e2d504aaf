-- ===== src/Tests/FileTests.antt =====
-- fs/file.c on a file of 10 bytes that can be read and not written.
use mint.Base.{
  ℕ, ◌+◌, ◌-◌, List, [], ◌∷◌, none, some, ◌≡◌, refl, arith, pos, negsuc, ltb, if◌then◌else◌,
}
use mint.File.{Operation, File, file_read, file_write, file_pread, file_pwrite}
use mint.File.Offset.{Access, reading, writing, accesses, accesses-transferred}

abbrev read_ten : Operation ℕ
read_ten a buffer size off =
    (pos (if ltb off 10 then (if ltb (off + size) 10 then size else 10 - off) else 0), a + 1)

abbrev file : File ℕ
file = record { device_read = none; read = some read_ten; write = none; f_off = 0 }

abbrev calls : List Access
calls = reading 77 8 ∷ writing 77 5 ∷ reading 77 8 ∷ reading 0 8 ∷ reading 77 8 ∷ []

calls_run : (accesses (some file) 0 calls).0 ≡ pos 8 ∷ negsuc 4 ∷ pos 2 ∷ negsuc 4 ∷ pos 0 ∷ []
unfolding accesses file_read file_write file_pread file_pwrite
calls_run = refl

accesses-transferred_example : (accesses (some file) 0 calls).1 ≡ some (record file { f_off = 10 })
unfolding accesses file_read file_write file_pread file_pwrite
accesses-transferred_example = accesses-transferred file 0 calls (omega arith)
