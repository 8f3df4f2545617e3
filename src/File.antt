-- ===== src/File.antt =====
-- The table of open files of w3/kernel/file.c, with the record of w3/kernel/file.h: filealloc, filedup,
-- fileclose; and fdalloc, argfd, sys_dup and sys_close of w3/kernel/sysfile.c on the descriptors of a
-- process. A file is its index, and the code under ftable.lock is one step.
pub mod Refs
pub mod Fds
mod Tests
use os_t.Prelude.{
  ℕ, zero, suc, ◌+◌, ◌-◌, Bool, true, false, ◌||◌, Option, none, some, List, [], ◌∷◌, if◌then◌else◌,
  ◌==◌, ltb, leb, update,
}
use os_t.Prelude.Run.{Run, ok, panic, ◌>>=◌}

abbrev pub nfile : ℕ
nfile = 100

abbrev pub nofile : ℕ
nofile = 16

pub data FileType : Type 0 where
  fd_none : FileType
  fd_pipe : FileType
  fd_inode : FileType
  fd_device : FileType

-- The struct file.
pub record File : Type 0 where
  pub type : FileType
  pub ref : ℕ
  pub readable : Bool
  pub writable : Bool
  pub pipe : ℕ
  pub ip : ℕ
  pub off : ℕ
  pub major : ℕ

-- A call that fileclose makes.
pub data Call : Type 0 where
  pipeclose : ℕ → Bool → Call
  begin_op : Call
  iput : ℕ → Call
  end_op : Call

-- The loop of filealloc, with `n` files left from `f` on.
unfoldable pub alloc_loop : ℕ → ℕ → (ℕ → File) → Option ℕ × (ℕ → File)
alloc_loop zero f file = (none, file)
alloc_loop (suc n) f file =
    let rest = alloc_loop n (suc f) file in
    if (file f).ref == 0 then (some f, update file f (record (file f) { ref = 1 })) else rest

unfoldable pub filealloc : (ℕ → File) → Option ℕ × (ℕ → File)
filealloc file = alloc_loop nfile 0 file

unfoldable pub filedup : ℕ → (ℕ → File) → Run (ℕ → File)
filedup f file =
    if ltb (file f).ref 1
    then panic
    else ok (update file f (record (file f) { ref = (file f).ref + 1 }))

-- What fileclose does with the copy of a file that has no reference left.
pub release : File → List Call
release ff = elim ff.type [
  | fd_none ↦ []
  | fd_pipe ↦ pipeclose ff.pipe ff.writable ∷ []
  | fd_inode ↦ begin_op ∷ iput ff.ip ∷ end_op ∷ []
  | fd_device ↦ begin_op ∷ iput ff.ip ∷ end_op ∷ []
]

unfoldable pub fileclose : ℕ → (ℕ → File) → Run (List Call × (ℕ → File))
fileclose f file =
    let ref = (file f).ref - 1 in
    if ltb (file f).ref 1
    then panic
    else if ltb 0 ref
    then ok ([], update file f (record (file f) { ref = ref }))
    else ok (release (file f), update file f (record (file f) { ref = 0; type = fd_none }))

-- argfd, for the descriptor that the system call has as its argument: the file, or `none` for -1. A
-- negative descriptor is one that is out of range.
unfoldable pub argfd : ℕ → (ℕ → Option ℕ) → Option ℕ
argfd fd ofile = if leb nofile fd then none else ofile fd

-- The loop of fdalloc, with `n` descriptors left from `fd` on.
unfoldable pub fdalloc_loop : ℕ → ℕ → ℕ → (ℕ → Option ℕ) → Option ℕ × (ℕ → Option ℕ)
fdalloc_loop zero fd f ofile = (none, ofile)
fdalloc_loop (suc n) fd f ofile =
    let rest = fdalloc_loop n (suc fd) f ofile in
    elim (ofile fd) [ none ↦ (some fd, update ofile fd (some f)) | some g ↦ rest ]

unfoldable pub fdalloc : ℕ → (ℕ → Option ℕ) → Option ℕ × (ℕ → Option ℕ)
fdalloc f ofile = fdalloc_loop nofile 0 f ofile

-- The files, and the descriptors of the process that makes the system call.
pub record Files : Type 0 where
  pub file : ℕ → File
  pub ofile : ℕ → Option ℕ

-- filedup in sys_dup, behind fdalloc.
unfoldable pub dup_at : ℕ → Option ℕ × (ℕ → Option ℕ) → (ℕ → File) → Run (Option ℕ × Files)
dup_at f (none, ofile) file = ok (none, record { file = file; ofile = ofile })
dup_at f (some fd, ofile) file =
    filedup f file >>= λ file'. ok (some fd, record { file = file'; ofile = ofile })

-- sys_dup: the new descriptor, or `none` for -1.
unfoldable pub sys_dup : ℕ → Files → Run (Option ℕ × Files)
sys_dup fd k = elim (argfd fd k.ofile) [
  | none ↦ ok (none, k)
  | some f ↦ dup_at f (fdalloc f k.ofile) k.file
]

-- sys_close: whether there is such a descriptor, and the calls that are made.
unfoldable pub sys_close : ℕ → Files → Run (Bool × List Call × Files)
sys_close fd k = elim (argfd fd k.ofile) [
  | none ↦ ok (false, [], k)
  | some f ↦ fileclose f k.file >>= λ (calls, file).
      ok (true, calls, record { file = file; ofile = update k.ofile fd none })
]
