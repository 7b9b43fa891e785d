-- ===== src/Configuration/Parsing.antt =====
-- parse of src/configuration.cc: the keys that can be read behind the options, and their types.
use kcov.Prelude.{All, name_key}
use kcov.Configuration.{Configuration}
use kcov.Configuration.Options.{Parse}
use kcov.Configuration.Keys.{Readable}
use kcov.Configuration.Reads.{reads, AllFit, Sets}

-- What an option keeps.
abbrev ParseSets : Parse → Parse → Type 0
ParseSets p p' = Sets p.conf p'.conf

-- Every key that is read can be read at its type, and none is set at another type.
abbrev pub Complete : Parse → Type 0
Complete p = All (Readable p.conf) reads × AllFit p.conf
