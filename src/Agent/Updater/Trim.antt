-- ===== src/Agent/Updater/Trim.antt =====
-- src/agent/updater/updater.go: the version with the earliest next try, which makes room for another.
use xnc.Prelude.{
  ℕ, ◌+◌, ◌<◌, ◌≡◌, ◌≢◌, ◌⊎◌, refl, inl, inr, none, [], ◌∷◌, ◌++◌, length, length-append, ltb,
  Bool-cases, arith, All,
}
use xnc.Prelude.Map.{Map, get, put, put-absent, del-appended, length-del}
use xnc.Agent.Updater.Version.{Text}
use xnc.Agent.Updater.Disk.{ThrottleFailure, Text-discrete}
use xnc.Agent.Updater.Throttle.{oldest, drop_oldest, trim_failures}

get-head :
    (k v : Text) (f : ThrottleFailure) (m : Map Text ThrottleFailure)
    → k ≡ v
    → get Text-discrete k ((v, f) ∷ m) ≢ none
unfolding get
get-head k v f m e absent = ground arith

get-tail :
    (k v : Text) (f : ThrottleFailure) (m : Map Text ThrottleFailure)
    → get Text-discrete k m ≢ none
    → get Text-discrete k ((v, f) ∷ m) ≢ none
unfolding get
get-tail k v f m found absent = ground arith

-- The version that is removed is one of the versions.
oldest-found :
    (best : Text) (t : ℕ) (m : Map Text ThrottleFailure)
    → (oldest best t m ≡ best) ⊎ (get Text-discrete (oldest best t m) m ≢ none)
unfolding oldest
oldest-found best t [] = inl refl
oldest-found best t ((v, f) ∷ m) = elim (Bool-cases (ltb f.next_try t)) [
  | inl e ↦ rw (e) (elim (oldest-found v f.next_try m) [
    | inl this ↦ inr (get-head (oldest v f.next_try m) v f m this)
    | inr found ↦ inr (get-tail (oldest v f.next_try m) v f m found)
  ])
  | inr e ↦ rw (e) (elim (oldest-found best t m) [
    | inl this ↦ inl this
    | inr found ↦ inr (get-tail (oldest best t m) v f m found)
  ])
]

pub length-drop_oldest :
    (m : Map Text ThrottleFailure) → 0 < length m → length (drop_oldest m) < length m
unfolding drop_oldest
length-drop_oldest [] some_entry = absurd (ground arith)
length-drop_oldest ((v, f) ∷ m) some_entry =
    length-del Text-discrete (oldest v f.next_try m) ((v, f) ∷ m)
      (elim (oldest-found v f.next_try m) [
        | inl this ↦ get-head (oldest v f.next_try m) v f m this
        | inr found ↦ get-tail (oldest v f.next_try m) v f m found
      ])

abbrev pub IsLater : ℕ → Text × ThrottleFailure → Type 0
IsLater t (v, f) = t < f.next_try

oldest-appended :
    (best : Text) (t : ℕ) (v : Text) (f : ThrottleFailure) (m : Map Text ThrottleFailure)
    → f.next_try < t
    → All (IsLater f.next_try) m
    → oldest best t (m ++ ((v, f) ∷ [])) ≡ v
unfolding oldest
oldest-appended best t v f [] lt later = ground arith
oldest-appended best t v f ((w, g) ∷ m) lt (first, later) =
    ground
      (arith, oldest-appended w g.next_try v f m first later, oldest-appended best t v f m lt later)

drop_oldest-appended :
    (v : Text) (f : ThrottleFailure) (m : Map Text ThrottleFailure)
    → get Text-discrete v m ≡ none
    → All (IsLater f.next_try) m
    → drop_oldest (m ++ ((v, f) ∷ [])) ≡ m
unfolding drop_oldest
drop_oldest-appended v f [] absent later = del-appended Text-discrete v f [] absent
drop_oldest-appended v f ((w, g) ∷ m) absent (first, later) =
    rw (oldest-appended w g.next_try v f m first later)
      (del-appended Text-discrete v f ((w, g) ∷ m) absent)

pub trim_failures-forgets :
    (v : Text) (f : ThrottleFailure) (m : Map Text ThrottleFailure)
    → length m ≡ 8
    → get Text-discrete v m ≡ none
    → All (IsLater f.next_try) m
    → trim_failures (put Text-discrete v f m) ≡ m
unfolding trim_failures
trim_failures-forgets v f m full absent later =
    let longer : length (m ++ ((v, f) ∷ [])) ≡ length m + 1 = length-append m ((v, f) ∷ []) in
    let again = drop_oldest-appended v f m absent later in
    rw (put-absent Text-discrete v f m absent) (ground arith)
