-- ===== src/Fs/Calls.antt =====
-- The functions of src/rava_fs.c that Lua calls: they check their arguments, clear the stack and make
-- a request. An argument that is missing or of the wrong kind raises, as luaL_check* does.
use rava.Base.{ℕ, ◌+◌, Bool, List, [], ◌∷◌, Option, none, some, get_elem?, take, ◌⊎◌, inl, inr}
use rava.Outcome.{Outcome, ok, raised, ◌>>=◌, thrown}
use rava.Scheduler.{State, update}
use rava.Fs.{
  Request, open_file, unlink, mkdir, rmdir, scandir, stat, lstat, rename, link, symlink, readlink,
  sendfile, chmod, chown, utime, Pushed, number, text, nil, file, FileSystem, Disk, set_pushed,
  string_to_flags, fs_call,
}

-- uv_cwd, uv_os_homedir, uv_chdir and uv_exepath: an error or a result.
pub record Directories : Type 0 where
  pub cwd : ℕ ⊎ List ℕ
  pub homedir : ℕ ⊎ List ℕ
  pub chdir : List ℕ → Option ℕ
  pub exepath : List ℕ

-- A call that raises on an error of libuv, and returns the text otherwise
unfoldable pub path_or_error : ℕ ⊎ List ℕ → Outcome (List ℕ)
path_or_error (inl e) = raised (thrown e)
path_or_error (inr path) = ok path

unfoldable pub fs_cwd : Directories → Outcome (List ℕ)
unfolding path_or_error
fs_cwd dirs = path_or_error dirs.cwd

unfoldable pub fs_home : Directories → Outcome (List ℕ)
unfolding path_or_error
fs_home dirs = path_or_error dirs.homedir

unfoldable pub fs_chdir : Directories → List ℕ → Outcome (Unit {0})
fs_chdir dirs dir = elim (dirs.chdir dir) [ none ↦ ok tt | some e ↦ raised (thrown e) ]

unfoldable pub fs_exepath : Directories → List ℕ
fs_exepath dirs = dirs.exepath

module _ (fs : FileSystem) where
  open fs use {Number}

  abbrev pub Args : Type 0
  Args = List (Pushed Number)

  -- luaL_checkstring: a number is converted.
  abbrev pub to_text : Option (Pushed Number) → Outcome (List ℕ)
  to_text (some (text s)) = ok s
  to_text (some (number n)) = ok (fs.text_of n)
  to_text _ = raised (thrown 1)

  -- luaL_checknumber: a text that spells a number is converted.
  abbrev pub to_number : Option (Pushed Number) → Outcome Number
  to_number (some (number n)) = ok n
  to_number (some (text s)) = elim (fs.of_text s) [ none ↦ raised (thrown 1) | some n ↦ ok n ]
  to_number _ = raised (thrown 1)

  -- luaL_checkudata of a file: the number of its object
  abbrev pub to_file : Option (Pushed Number) → Outcome ℕ
  to_file (some (file f)) = ok f
  to_file _ = raised (thrown 1)

  abbrev pub check_text : ℕ → Args → Outcome (List ℕ)
  check_text k args = to_text (get_elem? args k)

  abbrev pub check_number : ℕ → Args → Outcome Number
  check_number k args = to_number (get_elem? args k)

  abbrev pub check_int : ℕ → Args → Outcome Number
  check_int k args = check_number k args >>= λ n. ok (fs.truncate n)

  abbrev pub check_file : ℕ → Args → Disk fs → Outcome Number
  check_file k args d = to_file (get_elem? args k) >>= λ f. ok (d.handles f)

  -- luaL_optint
  abbrev pub opt_int : Number → ℕ → Args → Outcome Number
  opt_int default k args = elim (get_elem? args k) [
    | none ↦ ok default
    | some v ↦ elim v [ nil ↦ ok default | _ ↦ check_int k args ]
  ]

  -- lua_settop(L, 0), and the request
  abbrev pub request : Request Number → State → Disk fs → Outcome (Disk fs × Bool)
  request q s d = fs_call fs q s (set_pushed fs s [] d)

  -- rava_fs_open: the new file object is number `count`, its handle is invalid at first.
  unfoldable pub fs_open : Args → State → Disk fs → Outcome (Disk fs × Bool)
  unfolding fs_call string_to_flags
  fs_open args s d = do
    path ← check_text 0 args
    str ← check_text 1 args
    flags ← string_to_flags str
    mode ← check_text 2 args
    let made = record d { handles = update d.handles d.count fs.minus_one; count = d.count + 1 }
    fs_call fs (open_file path flags (fs.octal mode)) s (set_pushed fs s (file d.count ∷ []) made)

  -- rava_fs_unlink
  unfoldable pub fs_unlink : Args → State → Disk fs → Outcome (Disk fs × Bool)
  unfolding fs_call
  fs_unlink args s d = do path ← check_text 0 args; request (unlink path) s d

  -- rava_fs_rmdir
  unfoldable pub fs_rmdir : Args → State → Disk fs → Outcome (Disk fs × Bool)
  unfolding fs_call
  fs_rmdir args s d = do path ← check_text 0 args; request (rmdir path) s d

  -- rava_fs_scandir
  unfoldable pub fs_scandir : Args → State → Disk fs → Outcome (Disk fs × Bool)
  unfolding fs_call
  fs_scandir args s d = do path ← check_text 0 args; request (scandir path) s d

  -- rava_fs_stat
  unfoldable pub fs_stat : Args → State → Disk fs → Outcome (Disk fs × Bool)
  unfolding fs_call
  fs_stat args s d = do path ← check_text 0 args; request (stat path) s d

  -- rava_fs_lstat
  unfoldable pub fs_lstat : Args → State → Disk fs → Outcome (Disk fs × Bool)
  unfolding fs_call
  fs_lstat args s d = do path ← check_text 0 args; request (lstat path) s d

  -- rava_fs_readlink
  unfoldable pub fs_readlink : Args → State → Disk fs → Outcome (Disk fs × Bool)
  unfolding fs_call
  fs_readlink args s d = do path ← check_text 0 args; request (readlink path) s d

  -- rava_fs_mkdir
  unfoldable pub fs_mkdir : Args → State → Disk fs → Outcome (Disk fs × Bool)
  unfolding fs_call
  fs_mkdir args s d = do
    path ← check_text 0 args
    mode ← check_text 1 args
    request (mkdir path (fs.octal mode)) s d

  -- rava_fs_chmod
  unfoldable pub fs_chmod : Args → State → Disk fs → Outcome (Disk fs × Bool)
  unfolding fs_call
  fs_chmod args s d = do
    path ← check_text 0 args
    mode ← check_text 1 args
    request (chmod path (fs.octal mode)) s d

  -- rava_fs_rename
  unfoldable pub fs_rename : Args → State → Disk fs → Outcome (Disk fs × Bool)
  unfolding fs_call
  fs_rename args s d = do
    old ← check_text 0 args
    new ← check_text 1 args
    request (rename old new) s d

  -- rava_fs_link
  unfoldable pub fs_link : Args → State → Disk fs → Outcome (Disk fs × Bool)
  unfolding fs_call
  fs_link args s d = do old ← check_text 0 args; new ← check_text 1 args; request (link old new) s d

  -- rava_fs_symlink
  unfoldable pub fs_symlink : Args → State → Disk fs → Outcome (Disk fs × Bool)
  unfolding fs_call string_to_flags
  fs_symlink args s d = do
    old ← check_text 0 args
    new ← check_text 1 args
    str ← check_text 2 args
    flags ← string_to_flags str
    request (symlink old new flags) s d

  -- rava_fs_sendfile: the two files stay on the stack.
  unfoldable pub fs_sendfile : Args → State → Disk fs → Outcome (Disk fs × Bool)
  unfolding fs_call
  fs_sendfile args s d = do
    to ← check_file 0 args d
    from ← check_file 1 args d
    ofs ← check_int 2 args
    len ← check_int 3 args
    fs_call fs (sendfile to from ofs len) s (set_pushed fs s (take 2 args) d)

  -- rava_fs_utime
  unfoldable pub fs_utime : Args → State → Disk fs → Outcome (Disk fs × Bool)
  unfolding fs_call
  fs_utime args s d = do
    path ← check_text 0 args
    atime ← check_number 1 args
    mtime ← check_number 2 args
    request (utime path atime mtime) s d

  -- rava_fs_chown
  unfoldable pub fs_chown : Args → State → Disk fs → Outcome (Disk fs × Bool)
  unfolding fs_call
  fs_chown args s d = do
    path ← check_text 0 args
    uid ← check_int 1 args
    gid ← check_int 2 args
    request (chown path uid gid) s d
