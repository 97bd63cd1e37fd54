-- ===== src/Fat/Files/Cwd.antt =====
-- `fat32_change_dir` of fs/fat32.c: what it leaves behind when it refuses, and where it goes.
use ovsb_mk.Base.{
  ℕ, ◌≡◌, inl, inr, refl, List, [], ◌∷◌, true, false, Option, none, some, arith, ◌==◌,
  if◌then◌else◌, Bool-cases, ℤ, pos,
}
use mathlib.Core.Path.{subst}
use ovsb_mk.Fat.Types.{Volume, err_notfound, err_notdir}
use ovsb_mk.Fat.Entry.{DirEntry, first_cluster_of}
use ovsb_mk.Fat.Dir.{Found, find_entry, is_directory}
use ovsb_mk.Fat.Files.{fat32_set_cwd, enter, enter_name, fat32_change_dir}

-- Where a path is looked up from, and the name that is looked up.
abbrev pub looked_up_from : Volume → List ℕ → Volume
looked_up_from v [] = v
looked_up_from v (c ∷ cs) = if c == b'/' then fat32_set_cwd v v.root_cluster else v

abbrev pub looked_up : List ℕ → List ℕ
looked_up [] = []
looked_up (c ∷ cs) = if c == b'/' then cs else c ∷ cs

-- The directory of an entry; that of cluster 0 is the root.
abbrev pub target : Volume → DirEntry → ℕ
target v e = if first_cluster_of e == 0 then v.root_cluster else first_cluster_of e

-- What a call may have done.
pub data Outcome (v : Volume) (hops : ℕ) (name : List ℕ) : ℤ × Volume → Type 0 where
  to_root : name ≡ [] → Outcome v hops name (pos 0, fat32_set_cwd v v.root_cluster)
  entered :
      (e : DirEntry) (sector : ℕ)
      → find_entry v hops v.current_dir_cluster name ≡ some (some (e, sector))
      → is_directory e.attr ≡ true
      → Outcome v hops name (pos 0, fat32_set_cwd v (target v e))
  not_found :
      find_entry v hops v.current_dir_cluster name ≡ some none
      → Outcome v hops name (err_notfound, v)
  no_directory :
      (e : DirEntry) (sector : ℕ)
      → find_entry v hops v.current_dir_cluster name ≡ some (some (e, sector))
      → is_directory e.attr ≡ false
      → Outcome v hops name (err_notdir, v)

enter-Outcome :
    (v : Volume) (hops : ℕ) (name : List ℕ) (f : Found)
    → find_entry v hops v.current_dir_cluster name ≡ some f
    → Outcome v hops name (enter v f)
unfolding enter
enter-Outcome v hops name none q = not_found q
enter-Outcome v hops name (some (d, sector)) q = elim (Bool-cases (is_directory d.attr)) [
  | inl yes_dir ↦ rw yes_dir (entered d sector q yes_dir)
  | inr no_dir ↦ rw no_dir (no_directory d sector q no_dir)
]

enter_name-Outcome :
    (v : Volume) (hops : ℕ) (name : List ℕ) (r : ℤ × Volume)
    → enter_name v hops name ≡ some r
    → Outcome v hops name r
unfolding enter_name
enter_name-Outcome v hops name r e = found (find_entry v hops v.current_dir_cluster name) refl
  where
    found :
        (f : Option Found)
        → find_entry v hops v.current_dir_cluster name ≡ f
        → Outcome v hops name r
    found none q = absurd (ground (arith, rw (q, enter_name) at e))
    found (some f) q =
        let same : enter v f ≡ r = ground (arith, rw (q, enter_name) at e) in
        subst (Outcome v hops name) same (enter-Outcome v hops name f q)

-- A call that ends comes to one of four outcomes. An empty path, or a slash alone, makes the root
-- the current directory. Any other one is looked up in the current directory, or in the root if it
-- begins with a slash. If an entry is found and is a directory, its cluster becomes the current
-- directory, the root for cluster 0. If no entry is found, or one that is no directory, the result
-- is an error, and the volume is the one before the call, save that after a leading slash the
-- current directory is the root.
pub fat32_change_dir-Outcome :
    (v : Volume) (hops : ℕ) (path : List ℕ) (r : ℤ × Volume)
    → fat32_change_dir v hops path ≡ some r
    → Outcome (looked_up_from v path) hops (looked_up path) r
unfolding fat32_change_dir fat32_set_cwd
fat32_change_dir-Outcome v hops [] r e =
    let same : (pos 0, fat32_set_cwd v v.root_cluster) ≡ r = ground (arith, e) in
    subst (Outcome v hops []) same (to_root refl)
fat32_change_dir-Outcome v hops (c ∷ []) r e = elim (Bool-cases (c == b'/')) [
  | inl slash ↦
      let same : (pos 0, fat32_set_cwd v v.root_cluster) ≡ r = ground (arith, rw slash at e) in
      rw slash (subst (Outcome (fat32_set_cwd v v.root_cluster) hops []) same (to_root refl))
  | inr name ↦ rw name (enter_name-Outcome v hops (c ∷ []) r (rw name at e))
]
fat32_change_dir-Outcome v hops (c ∷ d ∷ ds) r e = elim (Bool-cases (c == b'/')) [
  | inl slash ↦
      rw slash (enter_name-Outcome (fat32_set_cwd v v.root_cluster) hops (d ∷ ds) r (rw slash at e))
  | inr name ↦ rw name (enter_name-Outcome v hops (c ∷ d ∷ ds) r (rw name at e))
]
