-- ===== src/Io.antt =====
-- src/include/xfile.h, xsection.h and xio.h: writes are buffered in sections, file by file, and sent
-- when the transaction commits. The calls of the operating system (`remote_open` and the others) are
-- arguments here, by their results; what is sent to it is a list of events.
pub mod Commit
use grace.Prelude.{
  ℕ, ◌+◌, ◌%◌, ◌^◌, Bool, true, false, List, [], ◌∷◌, ◌++◌, Option, none, some, ◌==◌, if◌then◌else◌,
  length,
}
use grace.Result.{Result, ok, aborted, undefined, ◌>>=◌, ◌>>◌}

-- `xsection`: one buffered write.
pub record Section : Type 0 where
  pub offset : ℕ
  pub buf : List ℕ

-- `xfile`; a section's length is that of its buffer.
pub record File : Type 0 where
  pub fd : ℕ
  pub fpos : ℕ
  pub write_end : ℕ
  pub closed : Bool
  pub sections : List Section

-- What the operating system is asked to do.
pub data Event : Type 0 where
  wrote : ℕ → List ℕ → Event
  closed_fd : ℕ → Event

-- The values of an `unsigned long`, and of an `int` as a bit pattern.
abbrev pub long_mod : ℕ
long_mod = 2 ^ 32

unfoldable pub new_file : ℕ → File
new_file fd = record { fd = fd; fpos = 0; write_end = 0; closed = false; sections = [] }

unfoldable pub set_closed : File → File
set_closed f = record f { closed = true }

unfoldable pub inc_fpos : ℕ → File → File
inc_fpos off f = record f { fpos = (f.fpos + off) % long_mod }

unfoldable pub set_fpos : ℕ → File → File
set_fpos off f = record f { fpos = off % long_mod }

-- `list_add` of a section, with `update_write_end`.
unfoldable pub add_section : Section → File → File
add_section s f = record f {
  sections = f.sections ++ (s ∷ []);
  write_end = (f.write_end + length s.buf) % long_mod;
}

-- `get_file`.
unfoldable pub get_file : ℕ → List File → Option File
get_file fd [] = none
get_file fd (f ∷ fs) = if f.fd == fd then some f else get_file fd fs

-- A change of the first file with the descriptor.
unfoldable pub update_file : ℕ → (File → File) → List File → List File
update_file fd g [] = []
update_file fd g (f ∷ fs) = if f.fd == fd then g f ∷ fs else f ∷ update_file fd g fs

-- `open`, `accept`: the descriptor that the system gave, or `none` for -1.
unfoldable pub open_file : Option ℕ → List File → List File × Option ℕ
unfolding new_file
open_file none fs = (fs, none)
open_file (some fd) fs = (fs ++ (new_file fd ∷ []), some fd)

-- `connect`: the descriptor is returned whether or not the system call succeeded.
unfoldable pub connect : Bool → ℕ → List File → List File × ℕ
unfolding new_file
connect succeeded fd fs = (if succeeded then fs ++ (new_file fd ∷ []) else fs, fd)

-- `close`: the file is marked, and closed at the next commit; `false` is -1.
unfoldable pub close : ℕ → List File → List File × Bool
close fd fs = elim (get_file fd fs) [
  | none ↦ (fs, false)
  | some _ ↦ (update_file fd set_closed fs, true)
]

-- `write`: `none` is -1 with `EBADF`, and otherwise the count is returned. For a file that is not in the
-- list the code also prints a message, by `printf` of src/source/libgrace.cpp: that call ends the
-- transaction and begins another, and is not a part of this function.
unfoldable pub write : ℕ → List ℕ → List File → List File × Option ℕ
write fd bytes fs = elim (get_file fd fs) [
  | none ↦ (fs, none)
  | some f ↦ (
    update_file fd (add_section (record { offset = f.fpos; buf = bytes })) fs,
    some (length bytes),
  )
]

-- The inner loop of `commit`. The first section is sent and erased; the loop then stops if it was the
-- only one, and otherwise advances the iterator that it has just invalidated.
unfoldable pub commit_sections : ℕ → List Section → Result (List Event)
commit_sections fd [] = ok []
commit_sections fd (s ∷ []) = ok (wrote fd s.buf ∷ [])
commit_sections fd (s ∷ t ∷ rest) = undefined

-- The first loop of `commit`.
unfoldable pub send_files : List File → Result (List Event × List File)
unfolding commit_sections
send_files [] = ok ([], [])
send_files (f ∷ fs) = do
  sent ← commit_sections f.fd f.sections
  (rest, files) ← send_files fs
  ok (sent ++ rest, record f { sections = [] } ∷ files)

-- The second loop: a closed file is closed for good and erased; here too the loop can go on only if
-- that was the last one.
unfoldable pub close_files : List File → Result (List Event × List File)
close_files [] = ok ([], [])
close_files (f ∷ []) = if f.closed then ok (closed_fd f.fd ∷ [], []) else ok ([], f ∷ [])
close_files (f ∷ g ∷ fs) =
    let others = close_files (g ∷ fs) in
    if f.closed then undefined else (others >>= λ r. ok (r.0, f ∷ r.1))

-- `commit`.
unfoldable pub commit : List File → Result (List Event × List File)
commit [] = ok ([], [])
commit (f ∷ fs) = do
  (sent, files) ← send_files (f ∷ fs)
  (closed, left) ← close_files files
  ok (sent ++ closed, left)

-- `read`: everything is committed first; the bytes are the system's.
unfoldable pub read : List ℕ → List File → Result (List Event × List File × List ℕ)
unfolding commit
read answer fs = do (events, left) ← commit fs; ok (events, left, answer)

pub data Whence : Type 0 where
  seek_set seek_cur seek_end : Whence

unfoldable pub move : Whence → ℕ → File → File
unfolding set_fpos inc_fpos
move Whence.seek_set off f = set_fpos off f
move Whence.seek_cur off f = inc_fpos off f
move Whence.seek_end off f = f

-- What `lseek` does with a file that it did not find: only the change of position uses the pointer.
unfoldable pub move_missing : Whence → Result (Unit {0})
move_missing Whence.seek_end = ok tt
move_missing _ = undefined

-- `lseek`, in a build with assertions or without: the source asserts that the file is not in the list,
-- and then uses it.
unfoldable pub lseek :
    Bool → ℕ → ℕ → Whence → Option ℕ → List File → Result (List Event × List File × Option ℕ)
unfolding commit move move_missing
lseek asserts fd off whence result fs = do
  (events, left) ← commit fs
  elim result [
    | none ↦ ok (events, left, none)
    | some r ↦ elim (get_file fd left) [
      | none ↦ do move_missing whence; ok (events, left, some r)
      | some f ↦
          if asserts then aborted else ok (events, update_file fd (move whence off) left, some r)
    ]
  ]
