-- ===== src/Capabilities.antt =====
-- src/capabilities.cc: named abilities of the parsers, of which each must be known.
use kcov.Prelude.{
  ◌≡◌, ◌∙◌, sym, ap, Bool, true, false, Option, none, some, [], ◌∷◌, Bytes, ascii, bytes_eq,
  if◌then◌else◌, name_key,
}
use kcov.Prelude.Table.{Table, find, insert, find-insert}

abbrev pub Capabilities : Type 0
Capabilities = Table Bytes Bool

abbrev pub new_capabilities : Capabilities
new_capabilities = (ascii "handle-solibs", false) ∷ []

-- validateCapability panics, `none`, for a name that is not there.
abbrev pub set_known : Bytes → Bool → Capabilities → Option Bool → Option Capabilities
set_known name value c none = none
set_known name value c (some old) = some (insert name value c)

unfoldable pub add_capability : Capabilities → Bytes → Option Capabilities
add_capability c name = set_known name true c (find name c)

unfoldable pub remove_capability : Capabilities → Bytes → Option Capabilities
remove_capability c name = set_known name false c (find name c)

unfoldable pub has_capability : Capabilities → Bytes → Option Bool
has_capability c name = find name c

set_known-found :
    (name other : Bytes) (value : Bool) (c c' : Capabilities) (o : Option Bool)
    → set_known name value c o ≡ some c'
    → has_capability c' other ≡ (if bytes_eq name other then some value else has_capability c other)
unfolding has_capability
set_known-found name other value c c' none e = cc
set_known-found name other value c c' (some old) e =
    let is : insert name value c ≡ c' = cc in
    ap (find other) (sym is) ∙ find-insert name other value c

-- Adding a capability that is known sets it and no other.
pub has_capability-add_capability :
    (name other : Bytes) (c c' : Capabilities)
    → add_capability c name ≡ some c'
    → has_capability c' other ≡ (if bytes_eq name other then some true else has_capability c other)
unfolding add_capability
has_capability-add_capability name other c c' = set_known-found name other true c c' (find name c)

-- Removing one clears it and no other.
pub has_capability-remove_capability :
    (name other : Bytes) (c c' : Capabilities)
    → remove_capability c name ≡ some c'
    → has_capability c' other ≡ (if bytes_eq name other then some false else has_capability c other)
unfolding remove_capability
has_capability-remove_capability name other c c' =
    set_known-found name other false c c' (find name c)
