-- ===== src/Agent/Updater/Stash.antt =====
-- src/agent/updater/updater.go: an installer that is copied to the stash is found there.
use xnc.Prelude.{
  ◌≡◌, inl, inr, refl, true, Option, none, some, List, [], ◌∷◌, ◌++◌, if◌then◌else◌, Option-cases,
  arith,
}
use xnc.Agent.Updater.Version.{Text}
use xnc.Agent.Updater.Disk.{
  File, Platform, same_text, find_name, find_suffix, find_installer, write_file, stable, dev,
}

find_name-found :
    (name : Text) (files : List File) (g : File)
    → find_name name files ≡ some g
    → same_text g.name name ≡ true
unfolding find_name
find_name-found name [] g e = absurd (ground arith)
find_name-found name (f ∷ files) g e = ground (arith, find_name-found name files g)

find_suffix-found :
    (x : Platform) (suffix : Text) (files : List File) (g : File)
    → find_suffix x suffix files ≡ some g
    → x.has_suffix (x.lower g.name) (x.lower suffix) ≡ true
unfolding find_suffix
find_suffix-found x suffix [] g e = absurd (ground arith)
find_suffix-found x suffix (f ∷ files) g e = ground (arith, find_suffix-found x suffix files g)

-- Nothing was found, or a file of the same name.
abbrev pub IsOpen : File → Option File → Type 0
IsOpen g none = Unit
IsOpen g (some f) = f.name ≡ g.name

find_name-write_file :
    (name : Text) (g : File) (files : List File)
    → find_name name (write_file g files)
      ≡ (if same_text g.name name then some g else find_name name files)
unfolding find_name write_file
find_name-write_file name g [] = refl
find_name-write_file name g (f ∷ files) = ground (arith, find_name-write_file name g files)

find_suffix-write_file :
    (x : Platform) (suffix : Text) (g : File) (files : List File)
    → x.has_suffix (x.lower g.name) (x.lower suffix) ≡ true
    → IsOpen g (find_suffix x suffix files)
    → find_suffix x suffix (write_file g files) ≡ some g
unfolding find_suffix write_file
find_suffix-write_file x suffix g [] h w = ground arith
find_suffix-write_file x suffix g (f ∷ files) h w =
    ground (arith, find_suffix-write_file x suffix g files h)

-- An installer that is found among some files is found where it is copied to, if nothing was found
-- there before but a file of its name.
pub find_installer-write_file :
    (x : Platform) (files stash : List File) (v : Text) (g : File)
    → find_installer x files v ≡ some g
    → IsOpen g (find_installer x stash v)
    → find_installer x (write_file g stash) v ≡ some g
unfolding find_installer
find_installer-write_file x files stash v g e w =
    let suffix = b'-' ∷ (v ++ x.installer_suffix) in
    let first = find_name-write_file (x.installer_name v stable) g stash in
    let second = find_name-write_file (x.installer_name v dev) g stash in
    let third = find_suffix-write_file x suffix g stash in
    let there = find_suffix-found x suffix files g in
    let named = find_name-found (x.installer_name v stable) files g in
    let named' = find_name-found (x.installer_name v dev) files g in
    elim (Option-cases (find_name (x.installer_name v stable) stash)) [
      | inr (f, e1) ↦
          let here = find_name-found (x.installer_name v stable) stash f e1 in
          ground (arith, first, here)
      | inl none1 ↦ elim (Option-cases (find_name (x.installer_name v dev) stash)) [
        | inr (f, e2) ↦
            let here = find_name-found (x.installer_name v dev) stash f e2 in
            ground (arith, first, second, here, there)
        | inl none2 ↦ ground (arith, first, second, third, there, named, named')
      ]
    ]
