-- ===== src/Fs/Files.antt =====
-- The methods of file objects in src/rava_fs.c.
use rava.Base.{Bool}
use rava.Outcome.{Outcome, ◌>>=◌}
use rava.Scheduler.{State}
use rava.Fs.{
  fstat, fchmod, fchown, utime, fsync, fdatasync, ftruncate, read, write, close, FileSystem, Disk,
  fs_call,
}
use rava.Fs.Calls.{Args, check_text, check_number, check_int, check_file, opt_int, request}

module _ (fs : FileSystem) where
  -- rava_file_stat
  unfoldable pub file_stat : Args fs → State → Disk fs → Outcome (Disk fs × Bool)
  unfolding fs_call
  file_stat args s d = do f ← check_file fs 0 args d; request fs (fstat f) s d

  -- rava_file_sync
  unfoldable pub file_sync : Args fs → State → Disk fs → Outcome (Disk fs × Bool)
  unfolding fs_call
  file_sync args s d = do f ← check_file fs 0 args d; request fs (fsync f) s d

  -- rava_file_datasync
  unfoldable pub file_datasync : Args fs → State → Disk fs → Outcome (Disk fs × Bool)
  unfolding fs_call
  file_datasync args s d = do f ← check_file fs 0 args d; request fs (fdatasync f) s d

  -- rava_file_close
  unfoldable pub file_close : Args fs → State → Disk fs → Outcome (Disk fs × Bool)
  unfolding fs_call
  file_close args s d = do f ← check_file fs 0 args d; request fs (close f) s d

  -- rava_file_truncate
  unfoldable pub file_truncate : Args fs → State → Disk fs → Outcome (Disk fs × Bool)
  unfolding fs_call
  file_truncate args s d = do
    f ← check_file fs 0 args d
    ofs ← check_int fs 1 args
    request fs (ftruncate f ofs) s d

  -- rava_file_utime: the first argument is taken as a path.
  unfoldable pub file_utime : Args fs → State → Disk fs → Outcome (Disk fs × Bool)
  unfolding fs_call
  file_utime args s d = do
    path ← check_text fs 0 args
    atime ← check_number fs 1 args
    mtime ← check_number fs 2 args
    request fs (utime path atime mtime) s d

  -- rava_file_chmod
  unfoldable pub file_chmod : Args fs → State → Disk fs → Outcome (Disk fs × Bool)
  unfolding fs_call
  file_chmod args s d = do
    f ← check_file fs 0 args d
    mode ← check_text fs 1 args
    request fs (fchmod f (fs.octal mode)) s d

  -- rava_file_chown
  unfoldable pub file_chown : Args fs → State → Disk fs → Outcome (Disk fs × Bool)
  unfolding fs_call
  file_chown args s d = do
    f ← check_file fs 0 args d
    uid ← check_int fs 1 args
    gid ← check_int fs 2 args
    request fs (fchown f uid gid) s d

  -- rava_file_read
  unfoldable pub file_read : Args fs → State → Disk fs → Outcome (Disk fs × Bool)
  unfolding fs_call
  file_read args s d = do
    f ← check_file fs 0 args d
    len ← opt_int fs fs.default_size 1 args
    ofs ← opt_int fs fs.minus_one 2 args
    request fs (read f len ofs) s d

  -- rava_file_write
  unfoldable pub file_write : Args fs → State → Disk fs → Outcome (Disk fs × Bool)
  unfolding fs_call
  file_write args s d = do
    f ← check_file fs 0 args d
    buf ← check_text fs 1 args
    ofs ← opt_int fs fs.zero_offset 2 args
    request fs (write f buf ofs) s d
