-- ===== src/Fs.antt =====
-- src/rava_fs.c and src/rava_fs.h: requests to the file system, their results, and RAVA_FS_CALL.
--
-- libuv performs the requests: `submit` and `perform` of the record are its calls with and without
-- a callback. What a request has brought back is an answer: an error, or a result with the memory
-- at `req->ptr` or `req->data` and the stat buffer. Each state has a stack of what the module
-- pushes. Numbers of Lua are a type of the record, and so are the tests of <sys/stat.h>.
pub mod Flags
pub mod Requests
pub mod Calls
pub mod Files
pub mod Opening
use rava.Base.{
  ℕ, zero, suc, ◌+◌, ◌==◌, leb, Bool, true, false, List, [], ◌∷◌, ◌++◌, Option, none, some, length,
  take, if◌then◌else◌, codes, same_text,
}
use rava.Outcome.{Outcome, ok, raised, fault, ◌>>=◌, thrown}
use rava.Scheduler.{State, thread, fiber, same_state, Thread, state_ready, fiber_suspend, update}

-- The constants of <fcntl.h> that the code combines.
pub data Access : Type 0 where
  rdonly : Access
  wronly : Access
  rdwr : Access

pub record OpenFlags : Type 0 where
  pub access : Access
  pub creat : Bool
  pub trunc : Bool
  pub append : Bool

pub record Stat : Type 0 where
  pub dev : ℕ
  pub ino : ℕ
  pub mode : ℕ
  pub nlink : ℕ
  pub uid : ℕ
  pub gid : ℕ
  pub rdev : ℕ
  pub size : ℕ
  pub atime : ℕ
  pub mtime : ℕ
  pub ctime : ℕ

-- S_ISREG and its like
pub data FileType : Type 0 where
  reg : FileType
  dir : FileType
  chr : FileType
  blk : FileType
  fifo : FileType
  lnk : FileType
  sock : FileType

pub data Answer : Type 0 where
  failed : ℕ → Answer
  completed : ℕ → List ℕ → Stat → Answer

-- The arguments of uv_fs_*. A file is the number of its handle.
pub data Request (N : Type 0) : Type 0 where
  open_file : List ℕ → OpenFlags → ℕ → Request N
  unlink : List ℕ → Request N
  mkdir : List ℕ → ℕ → Request N
  rmdir : List ℕ → Request N
  scandir : List ℕ → Request N
  stat : List ℕ → Request N
  lstat : List ℕ → Request N
  fstat : N → Request N
  rename : List ℕ → List ℕ → Request N
  link : List ℕ → List ℕ → Request N
  symlink : List ℕ → List ℕ → OpenFlags → Request N
  readlink : List ℕ → Request N
  sendfile : N → N → N → N → Request N
  chmod : List ℕ → ℕ → Request N
  fchmod : N → ℕ → Request N
  chown : List ℕ → N → N → Request N
  fchown : N → N → N → Request N
  utime : List ℕ → N → N → Request N
  fsync : N → Request N
  fdatasync : N → Request N
  ftruncate : N → N → Request N
  read : N → N → N → Request N
  write : N → List ℕ → N → Request N
  close : N → Request N

-- A field of the table of a stat buffer.
pub data Field (N : Type 0) : Type 0 where
  int : N → Field N
  flag : Bool → Field N

-- What is pushed: a number, an errno, a text, nil, a Boolean, a file, the table of a stat buffer,
-- an array of texts.
pub data Pushed (N : Type 0) : Type 0 where
  number : N → Pushed N
  text : List ℕ → Pushed N
  nil : Pushed N
  boolean : Bool → Pushed N
  file : ℕ → Pushed N
  fields : List (List ℕ × Field N) → Pushed N
  array : List (List ℕ) → Pushed N

pub record FileSystem : Type 1 where
  pub Number : Type 0
  pub of_size : ℕ → Number
  pub of_errno : ℕ → Number
  pub minus_one : Number
  pub zero_offset : Number
  pub default_size : Number
  pub submit : Request Number → Option ℕ
  pub perform : Request Number → Answer
  pub strerror : ℕ → List ℕ
  pub has_type : FileType → ℕ → Bool
  -- strtoul in base 8
  pub octal : List ℕ → ℕ
  -- lua_tolstring of a number, lua_tonumber of a text, and the truncation of luaL_checkint
  pub text_of : Number → List ℕ
  pub of_text : List ℕ → Option Number
  pub truncate : Number → Number

abbrev pub open_flags : Access → Bool → Bool → Bool → OpenFlags
open_flags access creat trunc append = record {
  access = access;
  creat = creat;
  trunc = trunc;
  append = append;
}

-- _string_to_flags; the order of the tests is that of the code.
unfoldable pub string_to_flags : List ℕ → Outcome OpenFlags
string_to_flags str =
    if same_text str (codes "r")
    then ok (open_flags rdonly false false false)
    else if same_text str (codes "r+")
    then ok (open_flags rdwr false false false)
    else if same_text str (codes "w")
    then ok (open_flags wronly true true false)
    else if same_text str (codes "w+")
    then ok (open_flags rdwr true true false)
    else if same_text str (codes "a")
    then ok (open_flags wronly true false true)
    else if same_text str (codes "a+")
    then ok (open_flags rdwr true false true)
    else raised (thrown 0)

-- strlen and what stands behind the NUL; `none` if there is no NUL in the memory.
unfoldable pub c_string : List ℕ → Option (List ℕ × List ℕ)
c_string [] = none
c_string (x ∷ xs) =
    let rest = c_string xs in
    if x == 0 then some ([], xs) else elim rest [ none ↦ none | some (s, r) ↦ some (x ∷ s, r) ]

-- The loop of UV_FS_SCANDIR over `count` names, on the bytes of the memory at req->ptr as the code takes
-- them: names, each ended by a NUL. Whether libuv leaves names there depends on its version; current
-- ones leave an array of pointers, whose bytes the loop then reads as if they were names.
unfoldable pub read_names : ℕ → List ℕ → Outcome (List (List ℕ))
unfolding c_string
read_names zero namep = ok []
read_names (suc count) namep = elim (c_string namep) [
  | none ↦ fault
  | some (name, rest) ↦ read_names count rest >>= λ names. ok (name ∷ names)
]

module _ (fs : FileSystem) where
  open fs use {Number, of_size, of_errno}

  -- The stack of each state, the bottom first, and `h.file` of the file objects below `count`.
  pub record Disk : Type 0 where
    pub loop : Thread
    pub stack : State → List (Pushed Number)
    pub handles : ℕ → Number
    pub count : ℕ

  abbrev pub set_pushed : State → List (Pushed Number) → Disk → Disk
  set_pushed s vs d = record d { stack = λ r. if same_state s r then vs else d.stack r }

  abbrev pub push : State → List (Pushed Number) → Disk → Disk
  push s vs d = set_pushed s (d.stack s ++ vs) d

  -- _push_stats_table
  unfoldable pub push_stats_table : Stat → Pushed Number
  push_stats_table s =
      let size : ℕ → Field Number = λ n. int (of_size n) in
      let is : FileType → Field Number = λ k. flag (fs.has_type k s.mode) in
      fields (
        (codes "dev", size s.dev)
        ∷ (codes "ino", size s.ino)
        ∷ (codes "mode", size s.mode)
        ∷ (codes "nlink", size s.nlink)
        ∷ (codes "uid", size s.uid)
        ∷ (codes "gid", size s.gid)
        ∷ (codes "rdev", size s.rdev)
        ∷ (codes "size", size s.size)
        ∷ (codes "atime", size s.atime)
        ∷ (codes "mtime", size s.mtime)
        ∷ (codes "ctime", size s.ctime)
        ∷ (codes "is_file", is reg)
        ∷ (codes "is_directory", is dir)
        ∷ (codes "is_character_device", is chr)
        ∷ (codes "is_block_device", is blk)
        ∷ (codes "is_fifo", is fifo)
        ∷ (codes "is_symbolic_link", is lnk)
        ∷ (codes "is_socket", is sock)
        ∷ [])

  -- luaL_checkudata of the value at the top, for a request that opens a file
  unfoldable pub set_handle : List (Pushed Number) → ℕ → Disk → Outcome Disk
  set_handle [] r d = raised (thrown 1)
  set_handle (file f ∷ []) r d = ok (record d { handles = update d.handles f (of_size r) })
  set_handle (v ∷ []) r d = raised (thrown 1)
  set_handle (v ∷ w ∷ vs) r d = set_handle (w ∷ vs) r d

  abbrev pub opens : Request Number → Bool
  opens (open_file p m o) = true
  opens _ = false

  -- What the `switch` of rava_fs_result pushes; UV_FS_OPEN stands apart.
  unfoldable pub fs_pushes : Request Number → ℕ → List ℕ → Stat → Outcome (List (Pushed Number))
  unfolding push_stats_table c_string read_names
  fs_pushes (read f len ofs) r mem st =
      if leb r (length mem) then ok (number (of_size r) ∷ text (take r mem) ∷ []) else fault
  fs_pushes (readlink p) r mem st = elim (c_string mem) [
    | none ↦ fault
    | some (name, rest) ↦ ok (text name ∷ [])
  ]
  fs_pushes (scandir p) r mem st = read_names r mem >>= λ names. ok (array names ∷ [])
  fs_pushes (stat p) r mem st = ok (push_stats_table st ∷ [])
  fs_pushes (lstat p) r mem st = ok (push_stats_table st ∷ [])
  fs_pushes (fstat f) r mem st = ok (push_stats_table st ∷ [])
  fs_pushes (sendfile o i ofs len) r mem st = raised (thrown 2)
  fs_pushes _ r mem st = ok (number (of_size r) ∷ [])

  -- The `switch`, on the state whose request it was
  unfoldable pub fs_completed : Request Number → ℕ → List ℕ → Stat → State → Disk → Outcome Disk
  unfolding set_handle fs_pushes
  fs_completed q r mem st s d =
      if opens q
      then set_handle (d.stack s) r d
      else (fs_pushes q r mem st >>= λ vs. ok (push s vs d))

  -- rava_fs_result
  unfoldable pub fs_result : Request Number → Answer → State → Disk → Outcome Disk
  unfolding fs_completed
  fs_result q (failed e) s d = ok (push s (nil ∷ number (of_errno e) ∷ []) d)
  fs_result q (completed r mem st) s d = fs_completed q r mem st s d

  -- rava_fs_cb
  unfoldable pub fs_cb : Request Number → Answer → State → Disk → Outcome Disk
  unfolding fs_result
  fs_cb q a s d = fs_result q a s d >>= λ d'. ok (record d' { loop = state_ready s d'.loop })

  -- The error branch of RAVA_FS_CALL
  unfoldable pub fs_refused : Option ℕ → State → Disk → Disk
  fs_refused none s d = d
  fs_refused (some e) s d = set_pushed s (boolean false ∷ text (fs.strerror e) ∷ []) d

  -- A call without a callback returns req->result, so its error is the error of the answer.
  abbrev pub error_of : Answer → Option ℕ
  error_of (failed e) = some e
  error_of (completed r mem st) = none

  -- RAVA_FS_CALL: the main state performs the request and returns its stack; a fiber submits it and
  -- suspends. The Boolean tells whether the caller yields.
  unfoldable pub fs_call : Request Number → State → Disk → Outcome (Disk × Bool)
  unfolding fs_result fs_refused
  fs_call q thread d =
      let answer = fs.perform q in
      fs_result q answer thread (fs_refused (error_of answer) thread d) >>= λ d'. ok (d', false)
  fs_call q (fiber i) d =
      let d' = fs_refused (fs.submit q) (fiber i) d in
      let (t, yields) = fiber_suspend i d'.loop in ok (record d' { loop = t }, yields)
