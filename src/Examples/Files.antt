-- ===== src/Examples/Files.antt =====
-- Concrete runs of the model of the file system.
use rava.Base.{ℕ, ◌≡◌, ◌↔◌, refl, true, false, List, [], ◌∷◌, Option, none, some, codes}
use rava.Outcome.{ok}
use rava.Scheduler.{fiber}
use rava.Scheduler.Balance.{Balanced}
use rava.Scheduler.Turns.{back}
use rava.Fs.{
  completed, Stat, unlink, open_flags, wronly, text, boolean, FileSystem, Disk, string_to_flags,
  fs_call,
}
use rava.Fs.Flags.{IsMode, string_to_flags-IsMode}
use rava.Fs.Requests.{at_once, later, fs_call-fs_cb, fs_call-refused}
use rava.Examples.Fibers.{running, running-Balanced}

abbrev toy_stat : Stat
toy_stat = record {
  dev = 0;
  ino = 1;
  mode = 0o644;
  nlink = 1;
  uid = 0;
  gid = 0;
  rdev = 0;
  size = 12;
  atime = 0;
  mtime = 0;
  ctime = 0;
}

abbrev disk_system : Option ℕ → FileSystem
disk_system refusal = record {
  Number = ℕ;
  of_size = λ n. n;
  of_errno = λ e. e;
  minus_one = 0;
  zero_offset = 0;
  default_size = 1024;
  submit = λ q. refusal;
  perform = λ q. completed 7 [] toy_stat;
  strerror = λ e. e ∷ [];
  has_type = λ t n. false;
  octal = λ xs. 0;
  text_of = λ n. n ∷ [];
  of_text = λ x. none;
  truncate = λ n. n;
}

abbrev toy_fs : FileSystem
toy_fs = disk_system none

abbrev disk : (refusal : Option ℕ) → Disk (disk_system refusal)
disk refusal = record { loop = running; stack = λ s. []; handles = λ n. 0; count = 2 }

abbrev some_path : List ℕ
some_path = codes "notes"

string_to_flags-IsMode_example :
    (string_to_flags (codes "w") ≡ ok (open_flags wronly true true false))
    ↔ IsMode (codes "w") (open_flags wronly true true false)
string_to_flags-IsMode_example =
    string_to_flags-IsMode (codes "w") (open_flags wronly true true false)

fs_call-fs_cb_example :
    at_once toy_fs (unlink some_path) (disk none)
    ≡ later toy_fs (unlink some_path) (completed 7 [] toy_stat) 1 (disk none)
fs_call-fs_cb_example =
    fs_call-fs_cb toy_fs (unlink some_path) (completed 7 [] toy_stat) 1 (disk none) (disk none) refl
      refl refl refl

fs_call-refused_example :
    (d : Disk (disk_system (some 2))) × (fs_call
        (disk_system (some 2))
        (unlink some_path)
        (fiber 1)
        (disk (some 2))
      ≡ ok (d, true))
    × (d.stack (fiber 1) ≡ boolean false ∷ text (2 ∷ []) ∷ [])
    × ((d.loop.fibers 1).ready ≡ false)
    × Balanced (back d.loop)
fs_call-refused_example =
    fs_call-refused (disk_system (some 2)) (unlink some_path) 1 2 (disk (some 2)) refl refl
      running-Balanced
