-- ===== src/Connection/Removed.antt =====
-- src/removed_modules.rs: the names of the modules that the operator deleted, in a file.
use cockatiel_engine_rs.Shared.{
  String, Bool, not, List, [], ◌∷◌, if◌then◌else◌, ◌==◌, is_empty, keep, contains, sort, or_default,
  string_eq,
}
use cockatiel_engine_rs.Connection.Files.{Json, File, write_file, read_file}

abbrev pub distinct_names : List String → List String
distinct_names [] = []
distinct_names (n ∷ ns) = let rest = distinct_names ns in if contains rest n then rest else n ∷ rest

module _ (j : Json (List String)) where
  -- A set, as a list of texts without repetition.
  unfoldable pub load_removed : File → List String
  load_removed f = distinct_names (or_default (read_file j f) [])

  unfoldable pub write_removed : Bool → List String → File → File
  write_removed can_write names f = write_file j can_write (sort names) f

  unfoldable pub add_removed : Bool → String → File → File
  unfolding load_removed write_removed
  add_removed can_write name f =
      let names = load_removed f in
      if contains names name then f else write_removed can_write (name ∷ names) f

  unfoldable pub clear_name : Bool → String → File → File
  unfolding load_removed write_removed
  clear_name can_write name f =
      let names = load_removed f in
      if contains names name
      then write_removed can_write (keep (λ n. not (n == name)) names) f
      else f

  unfoldable pub clear_all : Bool → File → File
  unfolding load_removed write_removed
  clear_all can_write f = if is_empty (load_removed f) then f else write_removed can_write [] f
