-- ===== src/Connection/Files.antt =====
-- Files of JSON, as src/config.rs, src/module_registry.rs and src/removed_modules.rs read and write them. The
-- encoding is the crate `serde_json`, a parameter; a file that is missing or cannot be read is `none`.
use cockatiel_engine_rs.Shared.{
  String, ◌≡◌, Bool, true, Option, none, some, arith, if◌then◌else◌, map_or,
}

pub record Json (A : Type 0) : Type 0 where
  pub to_text : A → Option String
  pub from_text : String → Option A

-- What is written is read back.
abbrev pub IsFaithful : {A : Type 0} → Json A → Type 0
IsFaithful {A} j = (a : A) → map_or (j.to_text a) none j.from_text ≡ some a

abbrev pub File : Type 0
File = Option String

module _ {A : Type 0} (j : Json A) where
  -- The content of a file, where it is there and parses.
  unfoldable pub read_file : File → Option A
  read_file f = map_or f none j.from_text

  -- `write_atomic` of a value: the file is the old one or holds the whole value, as `can_write` says.
  unfoldable pub write_file : Bool → A → File → File
  write_file can_write a f = map_or (j.to_text a) f (λ t. if can_write then some t else f)

  pub read_file-write_file :
      (a : A) (f : File) → IsFaithful j → read_file (write_file true a f) ≡ some a
  unfolding read_file write_file
  read_file-write_file a f lawful = by_text (j.to_text a) (lawful a)
    where
      by_text :
          (o : Option String)
          → map_or o none j.from_text ≡ some a
          → map_or (map_or o f (λ t. if true then some t else f)) none j.from_text ≡ some a
      by_text none h = absurd (ground (arith, h))
      by_text (some t) h = h
