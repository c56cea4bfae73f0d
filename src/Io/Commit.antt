-- ===== src/Io/Commit.antt =====
-- `commit` of src/include/xio.h, by what is buffered.
use grace.Prelude.{
  ℕ, ◌≡◌, refl, ap, ◌∙◌, inl, inr, false, List, [], ◌∷◌, ◌++◌, map, some, arith, ◌==◌,
  if◌then◌else◌, Bool-cases,
}
use grace.Result.{ok, undefined, >>=-eq-ok}
use grace.Io.{
  Section, File, Event, wrote, closed_fd, get_file, update_file, add_section, write,
  commit_sections, send_files, close_files, commit,
}

-- At most one write is buffered.
abbrev pub FewSections : List Section → Type 0
FewSections [] = Unit {0}
FewSections (s ∷ []) = Unit {0}
FewSections (s ∷ t ∷ rest) = ⊥

abbrev pub AllFew : List File → Type 0
AllFew [] = Unit {0}
AllFew (f ∷ fs) = FewSections f.sections × AllFew fs

-- No file but the last is marked closed.
abbrev pub ClosedLast : List File → Type 0
ClosedLast [] = Unit {0}
ClosedLast (f ∷ []) = Unit {0}
ClosedLast (f ∷ g ∷ fs) = (f.closed ≡ false) × ClosedLast (g ∷ fs)

-- The writes buffered, file by file.
abbrev pub pending : List File → List Event
pending [] = []
pending (f ∷ fs) = map (λ s. wrote f.fd s.buf) f.sections ++ pending fs

-- The closes asked for.
abbrev pub closings : List File → List Event
closings [] = []
closings (f ∷ fs) = if f.closed then closed_fd f.fd ∷ closings fs else closings fs

-- The files that stay open, with nothing buffered.
abbrev pub still_open : List File → List File
still_open [] = []
still_open (f ∷ fs) = if f.closed then still_open fs else record f { sections = [] } ∷ still_open fs

abbrev cleared : File → File
cleared f = record f { sections = [] }

commit_sections-ok :
    (fd : ℕ) (ss : List Section)
    → FewSections ss
    → commit_sections fd ss ≡ ok (map (λ s. wrote fd s.buf) ss)
unfolding commit_sections
commit_sections-ok fd [] h = refl
commit_sections-ok fd (s ∷ []) h = refl
commit_sections-ok fd (s ∷ t ∷ r) h = absurd h

commit_sections-few :
    (fd : ℕ) (ss : List Section) {r : List Event} → commit_sections fd ss ≡ ok r → FewSections ss
unfolding commit_sections
commit_sections-few fd [] e = tt
commit_sections-few fd (s ∷ []) e = tt
commit_sections-few fd (s ∷ t ∷ r) e = cc

send_files-ok : (fs : List File) → AllFew fs → send_files fs ≡ ok (pending fs, map cleared fs)
unfolding send_files
send_files-ok [] h = refl
send_files-ok (f ∷ fs) h = rw (commit_sections-ok f.fd f.sections h.0, send_files-ok fs h.1)

close_files-ok :
    (fs : List File)
    → ClosedLast fs
    → close_files (map cleared fs) ≡ ok (closings fs, still_open fs)
unfolding close_files
close_files-ok [] h = refl
close_files-ok (f ∷ []) h = ground arith
close_files-ok (f ∷ g ∷ fs) h = rw (close_files-ok (g ∷ fs) h.1, h.0)

close_files-last :
    (fs : List File) {r : List Event × List File}
    → close_files (map cleared fs) ≡ ok r
    → ClosedLast fs
unfolding close_files
close_files-last [] e = tt
close_files-last (f ∷ []) e = tt
close_files-last (f ∷ g ∷ fs) {r} e = elim (Bool-cases f.closed) [
  | inl c ↦ ground arith
  | inr c ↦
      let (q, e₁, _) = >>=-eq-ok (close_files (map cleared (g ∷ fs))) _ (rw c at e) in
      (c, close_files-last (g ∷ fs) e₁)
]

send_files-few : (fs : List File) {r : List Event × List File} → send_files fs ≡ ok r → AllFew fs
unfolding send_files
send_files-few [] e = tt
send_files-few (f ∷ fs) e =
    let (sent, e₁, e₂) = >>=-eq-ok (commit_sections f.fd f.sections) _ e in
    let (rest, e₃, _) = >>=-eq-ok (send_files fs) _ e₂ in
    (commit_sections-few f.fd f.sections e₁, send_files-few fs e₃)

-- A commit sends every buffered write in the order of the files, then closes the files that were
-- closed, and keeps the others with empty buffers, provided that no file has two writes buffered and
-- no file but the last is closed.
pub commit_lem :
    (fs : List File)
    → AllFew fs
    → ClosedLast fs
    → commit fs ≡ ok (pending fs ++ closings fs, still_open fs)
unfolding commit
commit_lem [] h k = refl
commit_lem (f ∷ fs) h k = rw (send_files-ok (f ∷ fs) h, close_files-ok (f ∷ fs) k)

-- And only then: a commit that is defined had no file with two writes buffered, and no closed file
-- with another behind it.
pub commit-ok-AllFew :
    (fs : List File) {r : List Event × List File} → commit fs ≡ ok r → AllFew fs × ClosedLast fs
unfolding commit
commit-ok-AllFew [] e = (tt, tt)
commit-ok-AllFew (f ∷ fs) e =
    let (sent, e₁, e₂) = >>=-eq-ok (send_files (f ∷ fs)) _ e in
    let few = send_files-few (f ∷ fs) e₁ in
    let (left, e₃, _) = >>=-eq-ok (close_files sent.1) _ e₂ in
    (few, close_files-last (f ∷ fs) (ap (λ z. close_files z) (sent_files (f ∷ fs) few e₁) ∙ e₃))
  where
    sent_files :
        (gs : List File) {r' : List Event × List File}
        → AllFew gs
        → send_files gs ≡ ok r'
        → map cleared gs ≡ r'.1
    sent_files gs few e = cc (send_files-ok gs few)

two_sections :
    (fd : ℕ) (s t : Section) (ss : List Section)
    → commit_sections fd ((ss ++ (s ∷ [])) ++ (t ∷ [])) ≡ undefined
unfolding commit_sections
two_sections fd s t [] = refl
two_sections fd s t (x ∷ []) = refl
two_sections fd s t (x ∷ y ∷ ss) = refl

-- What is sent before does not help.
send_files-undefined :
    (f : File) (ss : List Section) (fs : List File)
    → send_files fs ≡ undefined
    → send_files (record f { sections = ss } ∷ fs) ≡ undefined
unfolding send_files
send_files-undefined f [] fs e = rw e
send_files-undefined f (s ∷ []) fs e = rw e
send_files-undefined f (s ∷ t ∷ ss) fs e = refl

send_files-add_twice :
    (s t : Section) (f : File) (fs : List File)
    → send_files (add_section t (add_section s f) ∷ fs) ≡ undefined
unfolding send_files add_section
send_files-add_twice s t f fs = rw (two_sections f.fd s t f.sections)

send_files-two :
    (fd : ℕ) (s t : Section) (fs : List File) {f : File}
    → get_file fd fs ≡ some f
    → send_files (update_file fd (add_section t) (update_file fd (add_section s) fs)) ≡ undefined
unfolding get_file update_file add_section
send_files-two fd s t [] e = cc
send_files-two fd s t (f ∷ fs) e = elim (Bool-cases (f.fd == fd)) [
  | inl hit ↦ rw (hit, hit) (send_files-add_twice s t f fs)
  | inr miss ↦
      rw (miss, miss)
        (send_files-undefined f f.sections _ (send_files-two fd s t fs (rw miss at e)))
]

get_file-update_file :
    (fd : ℕ) (s : Section) (fs : List File) (f : File)
    → get_file fd fs ≡ some f
    → get_file fd (update_file fd (add_section s) fs) ≡ some (add_section s f)
unfolding get_file update_file add_section
get_file-update_file fd s [] f e = cc
get_file-update_file fd s (g ∷ fs) f e = ground (arith, get_file-update_file fd s fs f)

sent_nothing : ¬ (send_files [] ≡ undefined)
unfolding send_files
sent_nothing e = cc

commit-undefined : (fs : List File) → send_files fs ≡ undefined → commit fs ≡ undefined
unfolding commit
commit-undefined [] e = absurd (sent_nothing e)
commit-undefined (f ∷ fs) e = rw e

write-found :
    (fd : ℕ) (x : List ℕ) (fs : List File) {f : File}
    → get_file fd fs ≡ some f
    → (write fd x fs).0 ≡ update_file fd (add_section (record { offset = f.fpos; buf = x })) fs
unfolding write
write-found fd x fs e = rw (e, write)

-- Whatever else is buffered: after two writes to one open file the commit is undefined.
pub commit-write-write :
    (fd : ℕ) (x y : List ℕ) (fs : List File) {f : File}
    → get_file fd fs ≡ some f
    → commit (write fd y (write fd x fs).0).0 ≡ undefined
commit-write-write fd x y fs {f} e =
    let s : Section = record { offset = f.fpos; buf = x } in
    let t : Section = record { offset = (add_section s f).fpos; buf = y } in
    rw
      (
        write-found fd x fs e,
        write-found fd y (update_file fd (add_section s) fs) (get_file-update_file fd s fs f e),
      )
      (commit-undefined _ (send_files-two fd s t fs e))
