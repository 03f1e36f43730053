-- ===== src/Prelude/Scanner.antt =====
-- `bufio.Scanner` over lines: a line is what stands before a line feed, less one carriage return
-- at its end, and the last may lack the line feed. A line that does not fit the buffer ends the
-- scan with an error.
use siembox_endpoint.Prelude.Tests.{leb, ◌==◌, if◌then◌else◌}
use siembox_endpoint.Prelude.Lists.{length}
use siembox_endpoint.Prelude.Text.{Bytes, split_at, is_empty}
use Prim.Native.Nat.{ℕ}
use mathlib.Core.Bool.{Bool, true, false}
use mathlib.Core.List.{List, [], ◌∷◌, reverse}

abbrev pub drop_cr_rev : Bytes → Bytes
drop_cr_rev [] = []
drop_cr_rev (c ∷ s) = if c == 13 then s else c ∷ s

abbrev pub drop_cr : Bytes → Bytes
drop_cr s = reverse (drop_cr_rev (reverse s))

unfoldable pub scan_parts : ℕ → List Bytes → List Bytes × Bool
scan_parts limit [] = ([], false)
scan_parts limit (w ∷ []) =
    if is_empty w
    then ([], false)
    else if leb limit (length w)
    then ([], true)
    else (drop_cr w ∷ [], false)
scan_parts limit (w ∷ v ∷ ws) =
    let rest = scan_parts limit (v ∷ ws) in
    if leb limit (length w) then ([], true) else (drop_cr w ∷ rest.0, rest.1)

-- The lines, and whether `Err` then reports a line too long.
unfoldable pub scan_lines : ℕ → Bytes → List Bytes × Bool
unfolding scan_parts
scan_lines limit raw = scan_parts limit (split_at b'\n' raw)
