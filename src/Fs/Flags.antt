-- ===== src/Fs/Flags.antt =====
-- The open modes of src/rava_fs.c, described by their parts.
use rava.Base.{
  ℕ, ◌≡◌, refl, ap, ◌∙◌, ◌↔◌, Bool, true, false, List, [], ◌∷◌, inl, inr, Bool-cases, if◌then◌else◌,
  codes, same_text, same_text-eq,
}
use rava.Outcome.{Outcome, ok}
use rava.Fs.{rdonly, wronly, rdwr, OpenFlags, open_flags, string_to_flags}

-- A mode is a letter and perhaps a plus.
pub data Letter : Type 0 where
  reading : Letter
  writing : Letter
  appending : Letter

pub record Mode : Type 0 where
  pub letter : Letter
  pub plus : Bool

abbrev pub letter_code : Letter → ℕ
letter_code reading = b'r'
letter_code writing = b'w'
letter_code appending = b'a'

abbrev pub mode_text : Mode → List ℕ
mode_text m = letter_code m.letter ∷ (if m.plus then b'+' ∷ [] else [])

-- A plus asks for both directions; all letters but "r" create the file; "w" empties it, "a" appends.
abbrev pub letter_flags : Letter → Bool → OpenFlags
letter_flags reading plus = open_flags (if plus then rdwr else rdonly) false false false
letter_flags writing plus = open_flags (if plus then rdwr else wronly) true true false
letter_flags appending plus = open_flags (if plus then rdwr else wronly) true false true

abbrev pub mode_flags : Mode → OpenFlags
mode_flags m = letter_flags m.letter m.plus

abbrev pub IsMode : List ℕ → OpenFlags → Type 0
IsMode str f = (m : Mode) × (str ≡ mode_text m) × (mode_flags m ≡ f)

mode_flags-text :
    (l : Letter) (p : Bool)
    → string_to_flags (mode_text (record { letter = l; plus = p })) ≡ ok (letter_flags l p)
unfolding string_to_flags same_text
mode_flags-text reading true = refl
mode_flags-text reading false = refl
mode_flags-text writing true = refl
mode_flags-text writing false = refl
mode_flags-text appending true = refl
mode_flags-text appending false = refl

-- One test of the chain: it says what the text was, or hands on to the rest.
taken :
    (str t : List ℕ) (m : Mode) (rest : Outcome OpenFlags) (f : OpenFlags)
    → t ≡ mode_text m
    → (rest ≡ ok f → IsMode str f)
    → (if same_text str t then ok (mode_flags m) else rest) ≡ ok f
    → IsMode str f
taken str t m rest f e next h = elim (Bool-cases (same_text str t)) [
  | inl yes_ ↦ (m, same_text-eq str t yes_ ∙ e, cc (rw yes_ at h))
  | inr no_ ↦ next (rw no_ at h)
]

IsMode-string_to_flags : (str : List ℕ) (f : OpenFlags) → string_to_flags str ≡ ok f → IsMode str f
unfolding string_to_flags
IsMode-string_to_flags str f =
    taken str (codes "r") (record { letter = reading; plus = false }) _ f refl
      (taken str (codes "r+") (record { letter = reading; plus = true }) _ f refl
        (taken str (codes "w") (record { letter = writing; plus = false }) _ f refl
          (taken str (codes "w+") (record { letter = writing; plus = true }) _ f refl
            (taken str (codes "a") (record { letter = appending; plus = false }) _ f refl
              (taken str (codes "a+") (record { letter = appending; plus = true }) _ f refl
                (λ h. cc))))))

-- The texts that open a file are exactly the modes, a letter of "r", "w", "a" and perhaps a plus, and
-- the flags of each are those of its parts; every other text is refused.
pub string_to_flags-IsMode :
    (str : List ℕ) (f : OpenFlags) → (string_to_flags str ≡ ok f) ↔ IsMode str f
string_to_flags-IsMode str f = (
  IsMode-string_to_flags str f,
  λ (m, e, g). ap string_to_flags e ∙ mode_flags-text m.letter m.plus ∙ ap ok g,
)
