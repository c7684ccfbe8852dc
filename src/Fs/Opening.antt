-- ===== src/Fs/Opening.antt =====
-- Opening a file in the main state.
use rava.Base.{ℕ, ◌+◌, ◌≡◌, refl, ◌∙◌, arith, false, List, [], ◌∷◌, ◌==◌, if◌then◌else◌}
use rava.Outcome.{ok, ◌>>=◌}
use rava.Scheduler.{thread, update}
use rava.Fs.{
  Answer, completed, Stat, OpenFlags, open_file, Pushed, text, file, FileSystem, Disk, set_pushed,
  string_to_flags, set_handle, fs_completed, fs_result, fs_refused, error_of,
}
use rava.Fs.Calls.{fs_open}

module _ (fs : FileSystem) where
  open fs use {Number, of_size, of_errno}

  abbrev pub open_args : List ℕ → List ℕ → List ℕ → List (Pushed Number)
  open_args path str mode = text path ∷ text str ∷ text mode ∷ []

  -- The disk with a new file object at the top of the main state's stack.
  abbrev pub prepared : Disk fs → Disk fs
  prepared d =
      set_pushed fs thread (file d.count ∷ [])
        (record d { handles = update d.handles d.count fs.minus_one; count = d.count + 1 })

  module _ (path str mode : List ℕ) (f : OpenFlags) (d : Disk fs)
      (e : string_to_flags str ≡ ok f) where
    opening :
        (a : Answer)
        → fs.perform (open_file path f (fs.octal mode)) ≡ a
        → fs_open fs (open_args path str mode) thread d ≡ (
            fs_result fs
              (open_file path f (fs.octal mode))
              a
              thread
              (fs_refused fs (error_of fs a) thread (prepared d))
            >>= λ d'. ok (d', false))
    unfolding fs_open
    opening a p = rw (e, p)

    -- Where the flags parse and the file system opens the file with result `n`, the call returns the
    -- new file object alone, its handle is `n`, and no other handle changes.
    fs_open-opens :
        (n : ℕ) (mem : List ℕ) (st : Stat)
        → fs.perform (open_file path f (fs.octal mode)) ≡ completed n mem st
        → (d' : Disk fs) × (fs_open fs (open_args path str mode) thread d ≡ ok (d', false))
          × (d'.stack thread ≡ file d.count ∷ [])
          × ((j : ℕ) → d'.handles j ≡ (if d.count == j then of_size n else d.handles j))
    fs_open-opens n mem st p = (
      record (prepared d) { handles = update (prepared d).handles d.count (of_size n) },
      opening (completed n mem st) p ∙ unfold fs_result fs_refused fs_completed set_handle in refl,
      refl,
      λ j. ground arith,
    )
