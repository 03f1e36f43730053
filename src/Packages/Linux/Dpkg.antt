-- ===== src/Packages/Linux/Dpkg.antt =====
-- What the reader makes of a status file as dpkg writes it.
use siembox_endpoint.Prelude.{if◌then◌else◌, Bool, List, [], ◌∷◌}
use siembox_endpoint.Packages.{Package}

-- What a stanza gives.
abbrev pub given : Bool → Package → List Package
given b p = if b then p ∷ [] else []
