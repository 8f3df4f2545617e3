-- ===== src/File/Tests.antt =====
-- Runs of w3/kernel/file.c and w3/kernel/sysfile.c.
use os_t.Prelude.{
  ℕ, ◌<◌, ◌≡◌, refl, Bool, true, false, Option, none, some, List, [], ◌∷◌, if◌then◌else◌, ◌==◌,
  update, arith,
}
use os_t.Prelude.Run.{Run, ok, panic, out_of_fuel}
use os_t.File.{
  File, fd_none, fd_pipe, Call, pipeclose, alloc_loop, filealloc, filedup, release, fileclose,
  argfd, fdalloc_loop, fdalloc, Files, dup_at, sys_dup, sys_close,
}
use os_t.File.Refs.{
  holders, alloc, dup, set, Reach, boot, next, Reach-counts, Alloc, filealloc-Alloc, Closes,
  fileclose-Closes,
}
use os_t.File.Fds.{Dup, sys_dup-Dup, Restores, sys_close-sys_dup}

abbrev unused : File
unused = record {
  type = fd_none;
  ref = 0;
  readable = false;
  writable = false;
  pipe = 0;
  ip = 0;
  off = 0;
  major = 0;
}

abbrev table : ℕ → File
table f = unused

-- File 0 is allocated, and then duplicated.
abbrev one_ref : ℕ → File
one_ref = update table 0 (record unused { ref = 1 })

two_refs : Reach (record { file = update one_ref 0 (record unused { ref = 2 }); refs = 0 ∷ 0 ∷ [] })
unfolding filealloc alloc_loop filedup holders
two_refs = next (next (boot table (λ f. refl)) (alloc 0 one_ref refl)) (dup 0 _ (omega arith) refl)

-- The file of a pipe, in descriptor 3.
abbrev pipe_file : Files
pipe_file = record {
  file = update table 5 (record unused { type = fd_pipe; ref = 1; writable = true; pipe = 9 });
  ofile = λ fd. if fd == 3 then some 5 else none;
}

abbrev calls_of : Run (Bool × List Call × Files) → List Call × ℕ
calls_of panic = ([], 0)
calls_of out_of_fuel = ([], 0)
calls_of (ok (done, calls, k)) = (calls, (k.file 5).ref)

last_close : calls_of (sys_close 3 pipe_file) ≡ (pipeclose 9 true ∷ [], 0)
unfolding sys_close argfd fileclose release
last_close = refl

Reach-counts_example : 2 ≡ holders 0 (0 ∷ 0 ∷ [])
Reach-counts_example = Reach-counts two_refs 0

filealloc-Alloc_example :
    Alloc
      (record { file = update one_ref 0 (record unused { ref = 2 }); refs = 0 ∷ 0 ∷ [] })
      (filealloc (update one_ref 0 (record unused { ref = 2 })))
filealloc-Alloc_example = filealloc-Alloc two_refs

-- File 0 is allocated, and made one end of a pipe.
abbrev one_pipe : ℕ → File
one_pipe = update one_ref 0 (record unused { type = fd_pipe; ref = 1; writable = true; pipe = 9 })

pipe_opened : Reach (record { file = one_pipe; refs = 0 ∷ [] })
unfolding filealloc alloc_loop
pipe_opened =
    next (next (boot table (λ f. refl)) (alloc 0 one_ref refl)) (set one_pipe (λ f. ground arith))

held_once : 0 < holders 0 (0 ∷ [])
unfolding holders
held_once = omega arith

-- The last close of the file.
fileclose-Closes_example :
    Closes 0 (record { file = one_pipe; refs = 0 ∷ [] }) (fileclose 0 one_pipe)
fileclose-Closes_example = fileclose-Closes 0 pipe_opened held_once

sys_dup-Dup_example : Dup 3 pipe_file (sys_dup 3 pipe_file)
sys_dup-Dup_example = sys_dup-Dup 3 pipe_file

abbrev files_of : Run (Option ℕ × Files) → Files
files_of panic = pipe_file
files_of out_of_fuel = pipe_file
files_of (ok (fd, k)) = k

duplicate : Files
duplicate = files_of (sys_dup 3 pipe_file)

duplicate_done : sys_dup 3 pipe_file ≡ ok (some 0, duplicate)
unfolding duplicate sys_dup dup_at filedup fdalloc fdalloc_loop argfd
duplicate_done = refl

sys_close-sys_dup_example : Restores pipe_file (sys_close 0 duplicate)
sys_close-sys_dup_example = sys_close-sys_dup pipe_file duplicate 3 0 duplicate_done
