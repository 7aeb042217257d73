-- ===== src/DictManager/ConfigTests.antt =====
-- Runs of `initialize` on property trees.
use cpp_freshman.Prelude.{
  ◌≡◌, Option, none, some, [], ◌∷◌, refl, Bytes, ascii, same_text, if◌then◌else◌,
}
use cpp_freshman.DictManager.Initialize.{initialize_dicts, DictConfig, Child}

abbrev config : Bytes → DictConfig
config file = record { file_path = file; dict_name = ascii "n"; generator_name = ascii "t" }

abbrev config_field : Bytes → Bytes → Option Bytes
config_field file key =
    if same_text key (ascii "file")
    then some file
    else if same_text key (ascii "name")
    then some (ascii "n")
    else if same_text key (ascii "type")
    then some (ascii "t")
    else none

abbrev dict_of : Bytes → Child
dict_of file = record { first = ascii "dict"; get = config_field file }

abbrev comment : Child
comment = record { first = ascii "<xmlcomment>"; get = λ key. none }

abbrev bare : Child
bare = record { first = ascii "dict"; get = λ key. none }

initialize_runs :
    (initialize_dicts
        (some (dict_of (ascii "a") ∷ comment ∷ dict_of (ascii "b") ∷ []))
        (config (ascii "c") ∷ [])
      ≡ some (config (ascii "c") ∷ config (ascii "a") ∷ config (ascii "b") ∷ []))
    × (initialize_dicts (some (comment ∷ bare ∷ [])) [] ≡ none)
    × (initialize_dicts none [] ≡ none)
unfolding initialize_dicts same_text
initialize_runs = (refl, refl, refl)
