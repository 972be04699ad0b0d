-- ===== src/Agent/Updater/Disk.antt =====
-- src/agent/updater/updater.go: what the updater keeps in its state directory. A directory is the list
-- of its files in the order of os.ReadDir, and the contents of a file are a number that stands for
-- its bytes. The deletes, and the writes whose error the code drops, are taken to succeed. The JSON
-- forms of the files are left out: what is loaded is what was saved.
use xnc.Prelude.{
  ℕ, String, Bool, true, false, Option, none, some, List, [], ◌∷◌, ◌++◌, ite, if◌then◌else◌,
  ℕ_discrete,
}
use xnc.Prelude.Map.{Map}
use xnc.Agent.Updater.Version.{Text, is_empty}

unfoldable pub Text-discrete : Discrete Text
Text-discrete = hlevel ℕ_discrete

abbrev pub same_text : Text → Text → Bool
same_text a b = ite (Text-discrete a b) true false

pub record SetupManifest : Type 0 where
  pub version : Text
  pub sha256 : Text

pub record PendingUpdate : Type 0 where
  pub from : Text
  pub to : Text
  pub started_at : ℕ
  pub deadline : ℕ

pub record ThrottleFailure : Type 0 where
  pub fails : ℕ
  pub next_try : ℕ

pub record ThrottleState : Type 0 where
  pub failures : Map Text ThrottleFailure
  pub blacklist : Map Text String

pub record File : Type 0 where
  pub name : Text
  pub contents : ℕ

-- proto.UpdateAudit
pub data Audit : Type 0 where
  update_ok : (from to : Text) → Audit
  rolled_back : (from to : Text) (reason : String) → Audit

pub record Disk : Type 0 where
  pub pending : Option PendingUpdate
  pub throttle : ThrottleState
  pub audit_marker : Option Audit
  pub cache : List File
  pub stash : List File
  pub staging : List File

-- What the platform file gives: the names of the installers, and on Linux the version directories.
-- `lower` and `has_suffix` are functions of Go's package strings.
pub record Platform : Type 0 where
  pub installer_name : (version channel : Text) → Text
  pub installer_suffix : Text
  pub lower : Text → Text
  pub has_suffix : (name suffix : Text) → Bool
  pub rollback_ready : Text → Bool
  pub has_fallback : Bool
  pub is_supported : Bool

pub record Updater : Type 0 where
  pub own_version : Text
  pub channel : Text
  pub pending_window : ℕ
  pub health_window : ℕ

abbrev pub stable : Text
stable = b's' ∷ b't' ∷ b'a' ∷ b'b' ∷ b'l' ∷ b'e' ∷ []

abbrev pub dev : Text
dev = b'd' ∷ b'e' ∷ b'v' ∷ []

-- What happens outside the state directory.
pub data Effect : Type 0 where
  executed : File → Effect
  watchdog_registered : (at : ℕ) → Effect
  watchdog_deleted : Effect
  version_restored : Text → Effect
  audited : Audit → Effect

-- The marker counts only with a target version.
abbrev pub named : PendingUpdate → Option PendingUpdate
named p = if is_empty p.to then none else some p

unfoldable pub load_pending : Disk → Option PendingUpdate
load_pending d = elim d.pending [ none ↦ none | some p ↦ named p ]

abbrev pub save_pending : PendingUpdate → Disk → Disk
save_pending p d = record d { pending = some p }

abbrev pub delete_pending : Disk → Disk
delete_pending d = record d { pending = none }

-- writeAtomic: the file replaces one of its name.
unfoldable pub write_file : File → List File → List File
write_file f [] = f ∷ []
write_file f (g ∷ gs) =
    let rest = write_file f gs in if same_text g.name f.name then f ∷ gs else g ∷ rest

unfoldable pub remove_file : Text → List File → List File
remove_file name [] = []
remove_file name (g ∷ gs) =
    let rest = remove_file name gs in if same_text g.name name then rest else g ∷ rest

unfoldable pub find_name : Text → List File → Option File
find_name name [] = none
find_name name (g ∷ gs) =
    let rest = find_name name gs in if same_text g.name name then some g else rest

unfoldable pub find_suffix : Platform → (suffix : Text) → List File → Option File
find_suffix x suffix [] = none
find_suffix x suffix (g ∷ gs) =
    let rest = find_suffix x suffix gs in
    if x.has_suffix (x.lower g.name) (x.lower suffix) then some g else rest

abbrev pub or_else {ℓ} : {A : Type ℓ} → Option A → Option A → Option A
or_else (some a) other = some a
or_else none other = other

-- findInstaller: the two exact names, then any name with the version before the suffix.
unfoldable pub find_installer : Platform → List File → (version : Text) → Option File
unfolding find_name find_suffix
find_installer x files version = or_else (find_name (x.installer_name version stable) files) (
    or_else (find_name (x.installer_name version dev) files)
      (find_suffix x (b'-' ∷ (version ++ x.installer_suffix)) files))

unfoldable pub keep_named : Platform → (name : Text) → List File → List File
keep_named x name [] = []
keep_named x name (g ∷ gs) =
    let rest = keep_named x name gs in
    if same_text (x.lower g.name) (x.lower name) then g ∷ rest else rest

-- CopyToCache: the copy, and no other file stays; `copied` tells that the copy succeeded.
unfoldable pub copy_to_cache : Platform → File → (copied : Bool) → Disk → Disk
unfolding keep_named write_file
copy_to_cache x f copied d =
    if copied then record d { cache = keep_named x f.name (write_file f d.cache) } else d

-- `online` tells that the report was sent.
unfoldable pub audit : (online : Bool) → Audit → Disk → Disk × List Effect
audit true a d = (d, audited a ∷ [])
audit false a d = (record d { audit_marker = some a }, [])

unfoldable pub consume_audit_marker : Disk → Disk × Option Audit
consume_audit_marker d = elim d.audit_marker [
  | none ↦ (d, none)
  | some a ↦ (record d { audit_marker = none }, some a)
]
